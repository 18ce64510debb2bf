-- ===== src/Server/Answers/Routes.antt =====
-- The whole server answers every request.
use finance_project.Prelude.{ℕ, Option, none, some, String, [], ◌≡◌, ◌≢◌, refl, inl, inr, str_eq}
use finance_project.Errors.{GoError}
use finance_project.Action.{Action, Result, ok, err, panic}
use finance_project.Platform.{Platform}
use finance_project.Platform.Reply.{Reply}
use finance_project.Session.{World, read_clock, fresh_uuid}
use finance_project.Session.Laws.{Reply-cases}
use finance_project.Tokens.{TokenService}
use finance_project.Access.{auth_middleware, require_role, bearer_token, id_or_new}
use finance_project.Http.{Context, Response, Handler}
use finance_project.Http.Requests.{Json}
use finance_project.Idempotency.{idempotency_middleware}
use finance_project.Handlers.{handle_logout}
use finance_project.RateLimiter.{Limiters, rate_limiter}
use finance_project.Routes.{
  under_api, guarded, guarded_handler, required_roles, serve_guarded, serve_logout,
}
use finance_project.Server.{
  Route, public_route, guarded_route, logout_route, health_route, unmatched, Engine, Server,
  ServerHandler, on_world, request_id, structured_logger, limit_rate, cors_middleware, catch,
  recovery, probe, report_health, check_health, route_handler, serve_request,
}
use finance_project.Server.Answers.{
  IsAnswer, IsAnswer-bind, IsAnswer-if, IsAnswer-pure, clock-IsAnswer, check_role-IsAnswer,
  with_token-IsAnswer, idempotency_middleware-IsAnswer,
}
use finance_project.Server.Answers.Handlers.{
  guarded_handler-IsAnswer, serve_public-IsAnswer, handle_logout-IsAnswer,
}

module _ (P : Platform) (R : Limiters) (E : Engine P.Decimal) (J : Json P.Decimal)
    (s : TokenService) where
  under_api-IsAnswer :
      (secret : String) (next : Handler P) (c : Context)
      → ((c : Context) → IsAnswer (next c))
      → IsAnswer (under_api P J secret next c)
  unfolding under_api auth_middleware
  under_api-IsAnswer secret next c h =
      with_token-IsAnswer P secret (idempotency_middleware P J next) c
        (bearer_token (c.get_header "Authorization"))
        λ c'. idempotency_middleware-IsAnswer P J next c' (h c')

  probe-IsAnswer :
      (call : ℕ → Reply (Unit {0})) (next : Action (World P) (Response P.Decimal))
      → IsAnswer next
      → IsAnswer (probe P R E call next)
  probe-IsAnswer call next h w e = elim (Reply-cases (call w.calls)) [
    | inl (a, q) ↦ rw (q, probe) (h _ e)
    | inr (c, q) ↦ rw (q, probe) (λ q. cc)
  ]

  report_health-IsAnswer : IsAnswer (report_health P R E)
  report_health-IsAnswer = IsAnswer-bind (read_clock P) _ (clock-IsAnswer P) λ _. IsAnswer-pure _

  route_handler-IsAnswer :
      (route : Route) (c : Context) → IsAnswer (route_handler P R E J s route c)
  unfolding serve_logout serve_guarded guarded require_role check_health
  route_handler-IsAnswer (public_route r) c = serve_public-IsAnswer P J s r c
  route_handler-IsAnswer (guarded_route r) c =
      under_api-IsAnswer s.jwt_secret (guarded P J r) c λ c'.
        check_role-IsAnswer P (required_roles r) (guarded_handler P J r) c' c'.user_role
          (guarded_handler-IsAnswer P J r c')
  route_handler-IsAnswer logout_route c =
      under_api-IsAnswer s.jwt_secret (handle_logout P J) c (handle_logout-IsAnswer P J)
  route_handler-IsAnswer health_route c =
      probe-IsAnswer E.pool (probe P R E E.ping (report_health P R E))
        (probe-IsAnswer E.ping (report_health P R E) report_health-IsAnswer)
  route_handler-IsAnswer unmatched c = IsAnswer-pure _

  on_world-IsAnswer : {A : Type 0} (m : Action (World P) A) → IsAnswer m → IsAnswer (on_world P R m)
  unfolding on_world
  on_world-IsAnswer m h t = h t.world

  clock : IsAnswer (on_world P R (read_clock P))
  clock = on_world-IsAnswer _ (clock-IsAnswer P)

  id_or_new-IsAnswer : (o : Option String) → IsAnswer (id_or_new P o)
  unfolding fresh_uuid
  id_or_new-IsAnswer (some id) = IsAnswer-pure _
  id_or_new-IsAnswer none = IsAnswer-bind (fresh_uuid P) _ (λ w e q. cc) λ _. IsAnswer-pure _

  request_id-IsAnswer :
      (next : ServerHandler P R) (c : Context)
      → ((c : Context) → IsAnswer (next c))
      → IsAnswer (request_id P R next c)
  unfolding request_id
  request_id-IsAnswer next c h =
      IsAnswer-bind _ _ (on_world-IsAnswer _ (id_or_new-IsAnswer _))
        λ id. IsAnswer-bind _ _ (λ t e q. cc) λ _. h _

  structured_logger-IsAnswer :
      (next : ServerHandler P R) (c : Context)
      → IsAnswer (next c)
      → IsAnswer (structured_logger P R next c)
  unfolding structured_logger
  structured_logger-IsAnswer next c h = IsAnswer-bind _ _ clock λ _.
      IsAnswer-bind _ _ h
        λ _. IsAnswer-bind _ _ clock λ _. IsAnswer-bind _ _ (λ t e q. cc) λ _. IsAnswer-pure _

  limit_rate-IsAnswer :
      (next : ServerHandler P R) (c : Context)
      → IsAnswer (next c)
      → IsAnswer (limit_rate P R next c)
  unfolding limit_rate rate_limiter
  limit_rate-IsAnswer next c h = IsAnswer-bind _ _ clock λ _. IsAnswer-bind _ _ clock λ _.
      IsAnswer-bind _ _ clock
        λ _. IsAnswer-bind _ _ (λ t e q. cc) λ allowed. IsAnswer-if allowed _ _ h (IsAnswer-pure _)

  cors_middleware-IsAnswer :
      (next : ServerHandler P R) (c : Context)
      → IsAnswer (next c)
      → IsAnswer (cors_middleware P R next c)
  unfolding cors_middleware
  cors_middleware-IsAnswer next c h =
      IsAnswer-bind _ _ (λ t e q. cc)
        λ _. IsAnswer-if (str_eq c.method "OPTIONS") _ _ (IsAnswer-pure _) h

  -- `Recovery` turns an action that returns or panics into one that returns.
  catch_returns :
      (x : Result (Response P.Decimal) × Server P R)
      → ((e : GoError) → x.0 ≢ err e)
      → (r : Response P.Decimal) × ((catch P R E x).0 ≡ ok r)
  catch_returns (ok r, t) h = (r, refl)
  catch_returns (err e, t) h = absurd (h e refl)
  catch_returns (panic, t) h = (E.recovered, refl)

  -- Every request gets a response, whatever its route and its content, and whatever the database
  -- and the libraries refuse: no error of a service escapes, and a panic ends in gin's answer.
  pub serve_request_answers :
      (route : Route) (c : Context) (t : Server P R)
      → (r : Response P.Decimal) × ((serve_request P R E J s route c t).0 ≡ ok r)
  unfolding serve_request recovery
  serve_request_answers route c t = catch_returns _ λ e.
      request_id-IsAnswer _ c
        (λ c'. structured_logger-IsAnswer _ c' (
          limit_rate-IsAnswer _ c' (
            cors_middleware-IsAnswer _ c' (on_world-IsAnswer _ (route_handler-IsAnswer route c')))))
        (record t { headers = [] }) e
