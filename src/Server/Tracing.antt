-- ===== src/Server/Tracing.antt =====
-- The trace of a request: its id, in the response and in the log.
use finance_project.Prelude.{
  ℕ, suc, String, none, some, [], ◌∷◌, ◌++◌, ◌≡◌, ◌≢◌, ◌⊎◌, inl, inr, refl, sym, ap, ◌∙◌, subst,
  str_eq, eq_iff, leb, if◌then◌else◌, Bool-cases, Option-cases,
}
use mathlib.Core.List.{IsPrefix}
use finance_project.Models.{Uuid}
use finance_project.Action.{Result, ok, err, panic, ◌>>=◌, pure-ok}
use finance_project.Platform.{Platform}
use finance_project.Session.{fresh_uuid}
use finance_project.Tokens.{TokenService}
use finance_project.Access.{given_id}
use finance_project.Http.{Context, Response, status_of}
use finance_project.Http.Requests.{Json}
use finance_project.RateLimiter.{Limiters}
use finance_project.Server.{
  Level, Route, Engine, Server, ServerHandler, log_line, on_world, request_id, structured_logger,
  limit_rate, cors_middleware, catch, recovery, on_route, serve_request,
}
use finance_project.Server.Frames.{
  IsLogged, on_world-Frames, limit_rate-Frames, cors_middleware-Frames, structured_logger-IsLogged,
}

module _ (P : Platform) (R : Limiters) where
  module _ (E : Engine P.Decimal) (J : Json P.Decimal) (s : TokenService) where
    -- Between `t` and `u` the server has answered with `r` to a request under an id.
    pub record IsTraced (c : Context) (t u : Server P R) (r : Response P.Decimal) : Type 0 where
      pub id : String
      pub uuid : Uuid
      pub is_uuid : P.parse_uuid id ≡ some uuid
      pub respected :
          (x : Uuid)
          → c.get_header "X-Request-ID" ≢ ""
          → P.parse_uuid (c.get_header "X-Request-ID") ≡ some x
          → id ≡ c.get_header "X-Request-ID"
      pub header : IsPrefix (("X-Request-ID", id) ∷ []) u.headers
      pub logged :
          ((latency : ℕ) × (u.lines
              ≡ t.lines
                ++ (record {
                  level =
                      if leb 500 (status_of r)
                      then Level.error
                      else if leb 400 (status_of r)
                      then Level.warn
                      else Level.info;
                  method = c.method;
                  path = c.path;
                  status = status_of r;
                  latency = latency;
                  ip = c.client_ip;
                  request_id = some id;
                })
                  ∷ []))
          ⊎ ((r ≡ E.recovered) × (u.lines ≡ t.lines))

    -- What `catch` makes of a logged outcome.
    catch-IsLogged :
        (c : Context) (t : Server P R) (x : Result (Response P.Decimal) × Server P R)
        {r : Response P.Decimal} {u : Server P R}
        → IsLogged P R c t x
        → catch P R E x ≡ (ok r, u)
        → (((latency : ℕ) × (u.lines ≡ t.lines ++ log_line c r latency ∷ []))
            ⊎ ((r ≡ E.recovered) × (u.lines ≡ t.lines)))
          × (x.1 ≡ u)
    catch-IsLogged c t (ok r', v) (latency, e) h =
        let (same, to_u) = pure-ok h in
        (
          inl (
            latency,
            ap (λ (z : Server P R). z.lines) (sym to_u)
                ∙ e
                ∙ ap (λ z. t.lines ++ log_line c z latency ∷ []) same,
          ),
          to_u,
        )
    catch-IsLogged c t (err e, v) l h = cc (ap (λ p. p.0) h)
    catch-IsLogged c t (panic, v) l h =
        let (same, to_u) = pure-ok h in
        (inr (sym same, ap (λ (z : Server P R). z.lines) (sym to_u) ∙ l), to_u)

    -- How a request gets its id.
    record IsNamed (next : ServerHandler P R) (c : Context) (t : Server P R) : Type 0 where
      pub id : String
      pub uuid : Uuid
      pub state : Server P R
      pub is_uuid : P.parse_uuid id ≡ some uuid
      pub respected :
          (x : Uuid)
          → c.get_header "X-Request-ID" ≢ ""
          → P.parse_uuid (c.get_header "X-Request-ID") ≡ some x
          → id ≡ c.get_header "X-Request-ID"
      pub same_lines : state.lines ≡ t.lines
      pub header : state.headers ≡ t.headers ++ ("X-Request-ID", id) ∷ []
      pub continues : request_id P R next c t ≡ next (record c { request_id = some id }) state

    -- A fresh id is given where the request has none that counts.
    fresh-IsNamed :
        (next : ServerHandler P R) (c : Context) (t : Server P R)
        → given_id P (c.get_header "X-Request-ID") ≡ none
        → ((x : Uuid)
            → c.get_header "X-Request-ID" ≢ ""
            → P.parse_uuid (c.get_header "X-Request-ID") ≢ some x)
        → IsNamed next c t
    unfolding request_id ◌>>=◌ on_world fresh_uuid
    fresh-IsNamed next c t absent none_such = record {
      id = P.uuid_string (P.new_uuid t.world.calls);
      uuid = P.new_uuid t.world.calls;
      state = record t {
        world = record t.world { calls = suc t.world.calls };
        headers = t.headers ++ ("X-Request-ID", P.uuid_string (P.new_uuid t.world.calls)) ∷ [];
      };
      is_uuid = P.parse_uuid-uuid_string (P.new_uuid t.world.calls);
      respected = λ x given parsed. absurd (none_such x given parsed);
      same_lines = refl;
      header = refl;
      continues = rw (absent, request_id) refl;
    }

    request_id-IsNamed :
        (next : ServerHandler P R) (c : Context) (t : Server P R) → IsNamed next c t
    unfolding request_id ◌>>=◌ on_world
    request_id-IsNamed next c t = elim (Bool-cases (str_eq (c.get_header "X-Request-ID") "")) [
      | inl empty ↦
          fresh-IsNamed next c t (rw empty refl) λ x given. absurd (given ((eq_iff _ _).0 empty))
      | inr some_text ↦ elim (Option-cases (P.parse_uuid (c.get_header "X-Request-ID"))) [
        | inl wrong ↦ fresh-IsNamed next c t (rw (some_text, wrong) refl) λ x given parsed. cc
        | inr (uuid, right) ↦ record {
          id = c.get_header "X-Request-ID";
          uuid = uuid;
          state = record t {
            headers = t.headers ++ ("X-Request-ID", c.get_header "X-Request-ID") ∷ [];
          };
          is_uuid = right;
          respected = λ x _ _. refl;
          same_lines = refl;
          header = refl;
          continues = rw (some_text, right, request_id) refl;
        }
      ]
    ]

    -- Every answered request has an id that is a UUID, the one of its own header if that is one: the
    -- response carries it first among its headers, and the log has gained one line, with that id and
    -- the status of the response, or none if the handler has panicked.
    pub serve_request-IsTraced :
        (route : Route) (c : Context) (t : Server P R) {u : Server P R} {r : Response P.Decimal}
        → serve_request P R E J s route c t ≡ (ok r, u)
        → IsTraced c t u r
    unfolding serve_request recovery
    serve_request-IsTraced route c t {u} {r} h =
        let next =
          structured_logger P R (limit_rate P R (cors_middleware P R (on_route P R E J s route))) in
        let n = request_id-IsNamed next c (record t { headers = [] }) in
        let c' : Context = record c { request_id = some n.id } in
        let (logged, more) =
          structured_logger-IsLogged P R
            (limit_rate P R (cors_middleware P R (on_route P R E J s route))) c' n.state
            (limit_rate-Frames P R _ c'
              (cors_middleware-Frames P R _ c' (on_world-Frames P R _))) in
        let (outcome, to_u) =
          catch-IsLogged c' n.state (next c' n.state) logged
            (ap (catch P R E) (sym n.continues) ∙ h) in
        record {
          id = n.id;
          uuid = n.uuid;
          is_uuid = n.is_uuid;
          respected = n.respected;
          header =
              subst (λ (z : Server P R). IsPrefix (("X-Request-ID", n.id) ∷ []) z.headers) to_u
                (subst (λ hs. IsPrefix hs (next c' n.state).1.headers) n.header more);
          logged =
              subst
                (λ ls.
                  ((latency : ℕ) × (u.lines ≡ ls ++ log_line c' r latency ∷ []))
                  ⊎ ((r ≡ E.recovered) × (u.lines ≡ ls)))
                n.same_lines outcome;
        }
