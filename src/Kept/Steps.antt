-- ===== src/Kept/Steps.antt =====
-- Every step of the server keeps what the statements keep.
use finance_project.Prelude.{
  ◌≡◌, ℕ, true, false, Bool, Option, none, some, String, inl, inr, str_eq, [], if◌then◌else◌,
}
use finance_project.Action.{Action, Result, ok, err, panic, ◌>>=◌, resume}
use finance_project.Platform.{Platform}
use finance_project.Platform.Reply.{done, Reply}
use finance_project.Session.{World, read_clock}
use finance_project.Session.Laws.{Reply-cases}
use finance_project.Session.Keeps.{Keeps, Keeps-then, Keeps-fresh_uuid, Keeps-clock}
use finance_project.Tokens.{TokenService}
use finance_project.Access.{id_or_new}
use finance_project.Http.{Context, Response}
use finance_project.Http.Requests.{Json}
use finance_project.Handlers.{handle_logout}
use finance_project.RateLimiter.{Limiters, rate_limiter}
use finance_project.Routes.{serve_logout}
use finance_project.Server.{
  Route, public_route, guarded_route, logout_route, health_route, unmatched, Engine, Server,
  ServerHandler, on_world, request_id, structured_logger, limit_rate, cors_middleware, catch,
  recovery, probe, report_health, check_health, route_handler, serve_request, ◌⟶◌, ◌⟶*◌, served,
  evicted, published, here, more,
}
use finance_project.Ledger.{PostTransactionRequest}
use finance_project.Kept.{KeptByStatements}
use finance_project.Kept.Handlers.{handle_logout-Keeps}
use finance_project.Kept.Routes.{
  round-Keeps, serve_public-Keeps, serve_guarded-Keeps, under_api-Keeps,
}

module _ (P : Platform) (I : P.Db → Type 0) (J : Json P.Decimal) (k : KeptByStatements P I)
    (allowed : (text : String) (req : PostTransactionRequest P.Decimal)
      → J.bind_transaction text ≡ done req
      → k.Allows req) where
  module _ (R : Limiters) (E : Engine P.Decimal) (s : TokenService) where
    probe-Keeps :
        (call : ℕ → Reply (Unit {0})) (next : Action (World P) (Response P.Decimal))
        → Keeps P I next
        → Keeps P I (probe P R E call next)
    probe-Keeps call next kept w i = elim (Reply-cases (call w.calls)) [
      | inl (a, e) ↦ rw (e, probe) (kept _ i)
      | inr (c, e) ↦ rw (e, probe) i
    ]

    report_health-Keeps : Keeps P I (report_health P R E)
    report_health-Keeps = Keeps-then P I (read_clock P) _ (Keeps-clock P I) λ _ w i. i

    route_handler-Keeps :
        (route : Route) (c : Context) → Keeps P I (route_handler P R E J s route c)
    unfolding serve_logout check_health
    route_handler-Keeps (public_route r) c = serve_public-Keeps P I J k allowed s r c
    route_handler-Keeps (guarded_route r) c = serve_guarded-Keeps P I J k allowed s.jwt_secret r c
    route_handler-Keeps logout_route c =
        under_api-Keeps P I J k allowed s.jwt_secret (handle_logout P J) c
          (handle_logout-Keeps P I J k)
    route_handler-Keeps health_route c =
        probe-Keeps E.pool (probe P R E E.ping (report_health P R E))
          (probe-Keeps E.ping (report_health P R E) report_health-Keeps)
    route_handler-Keeps unmatched c = λ w i. i

    -- The same for actions of the server.
    abbrev ServerKeeps : {A : Type 0} → Action (Server P R) A → Type 0
    ServerKeeps m = (t : Server P R) → I t.world.db → I (m t).1.world.db

    ServerKeeps-then :
        {A B : Type 0} (m : Action (Server P R) A) (f : A → Action (Server P R) B)
        → ServerKeeps m
        → ((a : A) → ServerKeeps (f a))
        → ServerKeeps (m >>= f)
    unfolding ◌>>=◌
    ServerKeeps-then {A} {B} m f first second t i = go (m t) (first t i)
      where
        go : (x : Result A × Server P R) → I x.1.world.db → I (resume x.0 f x.1).1.world.db
        go (ok a, u) j = second a u j
        go (err c, u) j = j
        go (panic, u) j = j

    chosen :
        {A : Type 0} (b : Bool) (m n : Action (Server P R) A)
        → ServerKeeps m
        → ServerKeeps n
        → ServerKeeps (if b then m else n)
    chosen true m n first second = first
    chosen false m n first second = second

    on_world-Keeps :
        {A : Type 0} (m : Action (World P) A) → Keeps P I m → ServerKeeps (on_world P R m)
    unfolding on_world
    on_world-Keeps m kept t i = kept t.world i

    clock-Keeps : ServerKeeps (on_world P R (read_clock P))
    clock-Keeps = on_world-Keeps _ (Keeps-clock P I)

    id_or_new-Keeps : (o : Option String) → Keeps P I (id_or_new P o)
    id_or_new-Keeps (some id) = λ w i. i
    id_or_new-Keeps none = Keeps-then P I _ _ (Keeps-fresh_uuid P I) λ _ w i. i

    request_id-Keeps :
        (next : ServerHandler P R) (c : Context)
        → ((c : Context) → ServerKeeps (next c))
        → ServerKeeps (request_id P R next c)
    unfolding request_id
    request_id-Keeps next c kept =
        ServerKeeps-then _ _ (on_world-Keeps _ (id_or_new-Keeps _))
          λ id. ServerKeeps-then _ _ (λ t i. i) λ _. kept _

    structured_logger-Keeps :
        (next : ServerHandler P R) (c : Context)
        → ServerKeeps (next c)
        → ServerKeeps (structured_logger P R next c)
    unfolding structured_logger
    structured_logger-Keeps next c kept = ServerKeeps-then _ _ clock-Keeps λ _.
        ServerKeeps-then _ _ kept
          λ _. ServerKeeps-then _ _ clock-Keeps λ _. ServerKeeps-then _ _ (λ t i. i) λ _ t i. i

    limit_rate-Keeps :
        (next : ServerHandler P R) (c : Context)
        → ServerKeeps (next c)
        → ServerKeeps (limit_rate P R next c)
    unfolding limit_rate rate_limiter
    limit_rate-Keeps next c kept = ServerKeeps-then _ _ clock-Keeps λ _.
        ServerKeeps-then _ _ clock-Keeps λ _.
          ServerKeeps-then _ _ clock-Keeps
            λ _. ServerKeeps-then _ _ (λ t i. i) λ allowed. chosen allowed _ _ kept (λ t i. i)

    cors_middleware-Keeps :
        (next : ServerHandler P R) (c : Context)
        → ServerKeeps (next c)
        → ServerKeeps (cors_middleware P R next c)
    unfolding cors_middleware
    cors_middleware-Keeps next c kept =
        ServerKeeps-then _ _ (λ t i. i) λ _. chosen (str_eq c.method "OPTIONS") _ _ (λ t i. i) kept

    recovery-Keeps :
        (next : ServerHandler P R) (c : Context)
        → ServerKeeps (next c)
        → ServerKeeps (recovery P R E next c)
    unfolding recovery
    recovery-Keeps next c kept t i = go (next c t) (kept t i)
      where
        go :
            (x : Result (Response P.Decimal) × Server P R)
            → I x.1.world.db
            → I (catch P R E x).1.world.db
        go (ok r, u) j = j
        go (err e, u) j = j
        go (panic, u) j = j

    serve_request-Keeps :
        (route : Route) (c : Context) → ServerKeeps (serve_request P R E J s route c)
    unfolding serve_request
    serve_request-Keeps route c t =
        recovery-Keeps _ c
          (request_id-Keeps _ c λ c'. structured_logger-Keeps _ c' (
            limit_rate-Keeps _ c'
              (cors_middleware-Keeps _ c' (on_world-Keeps _ (route_handler-Keeps route c')))))
          (record t { headers = [] })

    step-Keeps : {t u : Server P R} → ◌⟶◌ P R E J s t u → I t.world.db → I u.world.db
    step-Keeps (served route c t) i = serve_request-Keeps route c t i
    step-Keeps (evicted now t) i = i
    step-Keeps (published t) i = round-Keeps P I J k allowed t.world i

    pub run-Keeps : {t u : Server P R} → ◌⟶*◌ P R E J s t u → I t.world.db → I u.world.db
    run-Keeps here i = i
    run-Keeps (more step rest) i = run-Keeps rest (step-Keeps step i)
