-- ===== src/Server.antt =====
-- The server: the middlewares that routes/routes.go puts around every route, with the ids of
-- middleware/request_id.go and the log lines of middleware/logger.go, the health check, and the steps
-- that change the state of the running program.
pub mod Answers
pub mod History
pub mod Booked
pub mod DoubleEntry
pub mod EntryRules
pub mod Announced
pub mod Frames
pub mod Tracing
pub mod Refusals
use finance_project.Prelude.{
  ℕ, suc, ◌-◌, String, Bool, true, false, not, Option, none, some, List, [], ◌∷◌, ◌++◌, leb, str_eq,
  if◌then◌else◌,
}
use finance_project.Action.{Action, Result, ok, err, panic, pure, ◌>>=◌, ◌>>◌}
use finance_project.Platform.{Platform}
use finance_project.Platform.Reply.{Reply, done, failed}
use finance_project.Session.{World, read_clock}
use finance_project.Tokens.{TokenService}
use finance_project.Http.{
  Context, Payload, Response, raw, error_response, success_response, status_of, Handler, respond,
}
use finance_project.Http.Requests.{Json}
use finance_project.Access.{given_id, id_or_new}
use finance_project.RateLimiter.{Limiters, Entries, admit, evict, rate_limiter}
use finance_project.Outbox.{process_outbox}
use finance_project.Routes.{PublicRoute, GuardedRoute, serve_public, serve_guarded, serve_logout}

-- Where gin takes a request: a route, or none.
pub data Route : Type 0 where
  public_route : PublicRoute → Route
  guarded_route : GuardedRoute → Route
  logout_route : Route
  health_route : Route
  unmatched : Route

-- The answers of gin to a path without a route and to a panic, which `Recovery` catches; and the
-- calls `db.DB()` and `Ping`, whose answers change from call to call.
pub record Engine (D : Type 0) : Type 0 where
  pub not_found : Response D
  pub recovered : Response D
  pub pool : ℕ → Reply (Unit {0})
  pub ping : ℕ → Reply (Unit {0})

-- The levels of slog that the logger uses.
pub data Level : Type 0 where
  info : Level
  warn : Level
  error : Level

pub record LogLine : Type 0 where
  pub level : Level
  pub method : String
  pub path : String
  pub status : ℕ
  pub latency : ℕ
  pub ip : String
  pub request_id : Option String

-- The `switch` on the status.
abbrev pub level_of : ℕ → Level
level_of status = if leb 500 status then error else if leb 400 status then warn else info

-- The id of the user is left out.
abbrev pub log_line : {D : Type 0} → Context → Response D → ℕ → LogLine
log_line c r latency = record {
  level = level_of (status_of r);
  method = c.method;
  path = c.path;
  status = status_of r;
  latency = latency;
  ip = c.client_ip;
  request_id = c.request_id;
}

-- What `corsMiddleware` adds for an origin.
abbrev pub cors_headers : String → List (String × String)
cors_headers origin =
    if str_eq origin ""
    then []
    else ("Access-Control-Allow-Origin", origin)
      ∷ ("Access-Control-Allow-Methods", "GET, POST, PUT, DELETE, OPTIONS")
      ∷ (
        "Access-Control-Allow-Headers",
        "Authorization, Content-Type, Idempotency-Key, X-Request-ID",
      )
      ∷ ("Access-Control-Allow-Credentials", "true")
      ∷ ("Access-Control-Max-Age", "86400")
      ∷ []

-- The running program: the world of the services, the limiters, the lines of the log, and the headers
-- that the middlewares have set for the response under way.
pub record Server (P : Platform) (R : Limiters) : Type 0 where
  pub world : World P
  pub limiters : Entries R
  pub lines : List LogLine
  pub headers : List (String × String)

module _ (P : Platform) (R : Limiters) where
  abbrev pub ServerHandler : Type 0
  ServerHandler = Context → Action (Server P R) (Response P.Decimal)

  -- An action of the services.
  unfoldable pub on_world : {A : Type 0} → Action (World P) A → Action (Server P R) A
  on_world m s = let (r, u) = m s.world in (r, record s { world = u })

  abbrev pub set_headers : List (String × String) → Action (Server P R) (Unit {0})
  set_headers hs s = (ok tt, record s { headers = s.headers ++ hs })

  abbrev pub write_line : LogLine → Action (Server P R) (Unit {0})
  write_line line s = (ok tt, record s { lines = s.lines ++ line ∷ [] })

  unfoldable pub request_id : ServerHandler → ServerHandler
  request_id next c = do
    id ← on_world (id_or_new P (given_id P (c.get_header "X-Request-ID")))
    set_headers (("X-Request-ID", id) ∷ [])
    next (record c { request_id = some id })

  -- A panic passes the logger by.
  unfoldable pub structured_logger : ServerHandler → ServerHandler
  structured_logger next c = do
    start ← on_world (read_clock P)
    r ← next c
    stop ← on_world (read_clock P)
    write_line (log_line c r (stop - start))
    pure r

  -- `getLimiter(ip).Allow()`
  abbrev pub ask_limiter : String → ℕ → ℕ → ℕ → Action (Server P R) Bool
  ask_limiter ip now again asked s =
      let (allowed, t) = admit R ip now again asked s.limiters in
      (ok allowed, record s { limiters = t })

  -- The clock is read for a new entry, for one that is there, and by the limiter; the second reading
  -- is not used for a new entry.
  unfoldable pub limit_rate : ServerHandler → ServerHandler
  limit_rate next c = do
    now ← on_world (read_clock P)
    again ← on_world (read_clock P)
    asked ← on_world (read_clock P)
    allowed ← ask_limiter c.client_ip now again asked
    rate_limiter allowed next c

  unfoldable pub cors_middleware : ServerHandler → ServerHandler
  cors_middleware next c = do
    set_headers (cors_headers (c.get_header "Origin"))
    if str_eq c.method "OPTIONS" then pure (raw 204 "") else next c

  module _ (E : Engine P.Decimal) where
    abbrev pub catch :
        Result (Response P.Decimal) × Server P R → Result (Response P.Decimal) × Server P R
    catch (panic, t) = (ok E.recovered, t)
    catch (ok r, t) = (ok r, t)
    catch (err e, t) = (err e, t)

    -- `gin.Recovery`
    unfoldable pub recovery : ServerHandler → ServerHandler
    recovery next c s = catch (next c s)

    abbrev pub unavailable : Response P.Decimal
    unavailable = error_response 503 "database unavailable"

    -- A call that answers or fails.
    abbrev pub probe :
        (ℕ → Reply (Unit {0}))
        → Action (World P) (Response P.Decimal)
        → Action (World P) (Response P.Decimal)
    probe call next w = elim (call w.calls) [
      | done _ ↦ next (record w { calls = suc w.calls })
      | failed _ ↦ (ok unavailable, record w { calls = suc w.calls })
    ]

    abbrev pub report_health : Action (World P) (Response P.Decimal)
    report_health = do
      now ← read_clock P
      respond P (success_response 200 "service is healthy" (Payload.healthy "ok" now))

    unfoldable pub check_health : Handler P
    check_health c = probe E.pool (probe E.ping report_health)

    module _ (J : Json P.Decimal) (s : TokenService) where
      -- The routes know the secret of the token service.
      abbrev pub route_handler : Route → Handler P
      route_handler (public_route r) = serve_public P J s r
      route_handler (guarded_route r) = serve_guarded P J s.jwt_secret r
      route_handler logout_route = serve_logout P J s.jwt_secret
      route_handler health_route = check_health
      route_handler unmatched = λ c. respond P E.not_found

      abbrev pub on_route : Route → ServerHandler
      on_route route c = on_world (route_handler route c)

      -- The middlewares in their order.
      unfoldable pub serve_request : Route → ServerHandler
      serve_request route c server =
          recovery (request_id (structured_logger (limit_rate (cors_middleware (on_route route)))))
            c (record server { headers = [] })

      -- A request, a round of the eviction, and a round of the publisher.
      infix 40 ◌⟶◌
      pub data ◌⟶◌ : Server P R → Server P R → Type 0 where
        served : (route : Route) (c : Context) (t : Server P R) → t ⟶ (serve_request route c t).1
        evicted : (now : ℕ) (t : Server P R) → t ⟶ record t { limiters = evict R now t.limiters }
        published : (t : Server P R) → t ⟶ record t { world = (process_outbox P t.world).1 }

      infix 40 ◌⟶*◌
      pub data ◌⟶*◌ : Server P R → Server P R → Type 0 where
        here : {t : Server P R} → t ⟶* t
        more : {t u v : Server P R} → t ⟶ u → u ⟶* v → t ⟶* v
