-- ===== src/Server/Refusals.antt =====
-- Requests that do not reach their route: the preflights of CORS, and those beyond the rate limit.
use finance_project.Prelude.{
  String, Option, none, some, Bool, true, false, [], ◌≡◌, ◌⊎◌, inl, inr, refl, ap, ◌∙◌, eq_iff,
}
use finance_project.Action.{Action, ok, ◌>>=◌, >>=_of_ok}
use finance_project.Platform.{Platform}
use finance_project.Session.{read_clock, fresh_uuid}
use finance_project.Tokens.{TokenService}
use finance_project.Access.{id_or_new}
use finance_project.Http.{Context, Response, raw}
use finance_project.Http.Requests.{Json}
use finance_project.RateLimiter.{Limiters, limit_exceeded, rate_limiter}
use finance_project.Server.{
  Route, Engine, Server, ServerHandler, on_world, request_id, structured_logger, limit_rate,
  cors_middleware, catch, recovery, on_route, serve_request,
}

module _ (P : Platform) (R : Limiters) where
  -- An action that returns and leaves the database as it is.
  abbrev Passes : {A : Type 0} → Action (Server P R) A → Type 0
  Passes {A} m =
      (t : Server P R) → (a : A) × (u : Server P R) × (m t ≡ (ok a, u)) × (u.world.db ≡ t.world.db)

  -- One that answers with a response of a kind.
  abbrev Sends : (Response P.Decimal → Type 0) → Action (Server P R) (Response P.Decimal) → Type 0
  Sends Q m =
      (t : Server P R)
      → (r : Response P.Decimal) × (u : Server P R) × (m t ≡ (ok r, u))
        × Q r
        × (u.world.db ≡ t.world.db)

  Sends-bind :
      {A : Type 0} (Q : Response P.Decimal → Type 0) (m : Action (Server P R) A)
      (f : A → Action (Server P R) (Response P.Decimal))
      → Passes m
      → ((a : A) → Sends Q (f a))
      → Sends Q (m >>= f)
  Sends-bind Q m f first second t =
      let (a, u, returned, same) = first t in
      let (r, v, sent, kind, same') = second a u in
      (r, v, >>=_of_ok m f t returned ∙ sent, kind, same' ∙ same)

  -- What follows a response passes it on.
  Sends-then :
      (Q : Response P.Decimal → Type 0) (m : Action (Server P R) (Response P.Decimal))
      (f : Response P.Decimal → Action (Server P R) (Response P.Decimal))
      → Sends Q m
      → ((r : Response P.Decimal) → Q r → Sends Q (f r))
      → Sends Q (m >>= f)
  Sends-then Q m f first second t =
      let (a, u, returned, kind, same) = first t in
      let (r, v, sent, kind', same') = second a kind u in
      (r, v, >>=_of_ok m f t returned ∙ sent, kind', same' ∙ same)

  clock-Passes : Passes (on_world P R (read_clock P))
  unfolding on_world read_clock
  clock-Passes t = (_, _, refl, refl)

  id_or_new-Passes : (o : Option String) → Passes (on_world P R (id_or_new P o))
  unfolding on_world fresh_uuid ◌>>=◌
  id_or_new-Passes (some id) t = (_, _, refl, refl)
  id_or_new-Passes none t = (_, _, refl, refl)

  -- The answers to a preflight.
  abbrev IsPreflightAnswer : Response P.Decimal → Type 0
  IsPreflightAnswer r = (r ≡ raw 204 "") ⊎ (r ≡ limit_exceeded)

  cors_middleware-Sends :
      (next : ServerHandler P R) (c : Context)
      → c.method ≡ "OPTIONS"
      → Sends IsPreflightAnswer (cors_middleware P R next c)
  unfolding cors_middleware ◌>>=◌
  cors_middleware-Sends next c preflight t =
      rw ((eq_iff c.method "OPTIONS").1 preflight, cors_middleware)
        (raw 204 "", _, refl, inl refl, refl)

  limit_rate-Sends :
      (next : ServerHandler P R) (c : Context)
      → Sends IsPreflightAnswer (next c)
      → Sends IsPreflightAnswer (limit_rate P R next c)
  unfolding limit_rate rate_limiter
  limit_rate-Sends next c h = Sends-bind _ _ _ clock-Passes λ _. Sends-bind _ _ _ clock-Passes λ _.
      Sends-bind _ _ _ clock-Passes
        λ _. Sends-bind _ _ _ (λ t. (_, _, refl, refl)) λ allowed. chosen allowed
    where
      chosen : (b : Bool) → Sends IsPreflightAnswer (rate_limiter b next c)
      chosen true t = h t
      chosen false t = (limit_exceeded, t, refl, inr refl, refl)

  structured_logger-Sends :
      (next : ServerHandler P R) (c : Context)
      → Sends IsPreflightAnswer (next c)
      → Sends IsPreflightAnswer (structured_logger P R next c)
  unfolding structured_logger
  structured_logger-Sends next c h = Sends-bind _ _ _ clock-Passes λ _. Sends-then _ _ _ h λ r kind.
      Sends-bind _ _ _ clock-Passes
        λ _. Sends-bind _ _ _ (λ t. (_, _, refl, refl)) λ _ t. (r, t, refl, kind, refl)

  request_id-Sends :
      (next : ServerHandler P R) (c : Context)
      → ((c' : Context) → c'.method ≡ c.method → Sends IsPreflightAnswer (next c'))
      → Sends IsPreflightAnswer (request_id P R next c)
  unfolding request_id
  request_id-Sends next c h = Sends-bind _ _ _ (id_or_new-Passes _) λ id.
      Sends-bind _ _ _ (λ t. (_, _, refl, refl)) λ _. h (record c { request_id = some id }) refl

  module _ (E : Engine P.Decimal) (J : Json P.Decimal) (s : TokenService) where
    -- A request with the method OPTIONS is answered with status 204, or 429 beyond the rate limit,
    -- whatever its path and headers; it reaches no handler, and the database stays as it is.
    pub preflight-stops :
        (route : Route) (c : Context) (t : Server P R)
        → c.method ≡ "OPTIONS"
        → (r : Response P.Decimal) × (u : Server P R) × (serve_request P R E J s route c t
            ≡ (ok r, u))
          × ((r ≡ raw 204 "") ⊎ (r ≡ limit_exceeded))
          × (u.world.db ≡ t.world.db)
    unfolding serve_request recovery
    preflight-stops route c t preflight =
        let (r, u, sent, kind, same) =
          request_id-Sends
            (structured_logger P R
              (limit_rate P R (cors_middleware P R (on_route P R E J s route))))
            c
            (λ c' m. structured_logger-Sends _ c' (
              limit_rate-Sends _ c'
                (cors_middleware-Sends (on_route P R E J s route) c' (m ∙ preflight))))
            (record t { headers = [] }) in
        (r, u, ap (catch P R E) sent, kind, same)
