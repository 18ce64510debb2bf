-- ===== src/Example/ServerTests.antt =====
-- A run of the server on the example platform: an administrator posts a transaction, the publisher
-- runs a round, and the health check is asked for.
use Prim.Native.String.{◌++◌ as join}
use finance_project.Prelude.{
  ℤ, String, none, length, map, [], ◌≡◌, ◌⊎◌, refl, str_eq, if◌then◌else◌,
}
use finance_project.Models.{entries, events, outbox}
use finance_project.Action.{ok}
use finance_project.Platform.Reply.{done, failed}
use finance_project.Platform.Runtime.{Claims}
use finance_project.Jwt.{jwt_issuer, jwt_audience}
use finance_project.Http.{Context, Response, raw}
use finance_project.Http.Requests.{Json}
use finance_project.Routes.{transaction_post}
use finance_project.Server.{
  Engine, Server, guarded_route, health_route, serve_request, ◌⟶*◌, served, published, here, more,
}
use finance_project.Action.{◌>>=◌}
use finance_project.Session.{
  exec, query, fresh_uuid, before_create, create, transaction, read_clock,
}
use finance_project.Text.{split_blank, equal_fold, trim_space, to_lower}
use finance_project.Jwt.{validate_token}
use finance_project.Access.{auth_middleware, require_role}
use finance_project.Idempotency.{idempotency_middleware}
use finance_project.RateLimiter.{admit, get_limiter, rate_limiter, limit_exceeded}
use finance_project.Routes.{serve_guarded, under_api, guarded}
use finance_project.Handlers.{handle_post_transaction}
use finance_project.Audit.{build_audit_event, log_event}
use finance_project.Ledger.{
  post_transaction, validate, total_entries, post_body, post_entries, persist_balances, new_balance,
}
use finance_project.Server.{
  recovery, request_id, on_world, structured_logger, limit_rate, cors_middleware, check_health,
  unavailable,
}
use finance_project.Server.Tracing.{IsTraced, serve_request-IsTraced}
use finance_project.Outbox.{process_outbox}
use finance_project.Server.Refusals.{preflight-stops}
use finance_project.Server.History.{IsExtended, run-IsExtended}
use finance_project.Server.Announced.{run-IsAnnounced}
use finance_project.Server.Answers.Routes.{serve_request_answers}
use finance_project.Example.Int.{◌+ℤ◌, ◌-ℤ◌}
use finance_project.Example.Machine.{machine}
use finance_project.Example.Web.{request, no_json}
use finance_project.Example.TokenTests.{service}
use finance_project.Example.LedgerTests.{start, salary}
use finance_project.Example.LimitTests.{counting}

abbrev engine : Engine ℤ
engine = record {
  not_found = raw 404 "404 page not found";
  recovered = raw 500 "";
  pool = λ i. done tt;
  ping = λ i. failed "closed";
}

-- Every body is the salary.
abbrev salary_json : Json ℤ
salary_json = record no_json { bind_transaction = λ s. done salary }

abbrev admin_claims : Claims
admin_claims = record {
  user_id = "uuu";
  email = "a";
  role = "admin";
  issuer = jwt_issuer;
  audience = jwt_audience;
  issued_at = 1;
  expires_at = 90;
}

abbrev admin_token : String
admin_token = elim (machine.sign_claims admin_claims "k") [ done token ↦ token | failed _ ↦ "" ]

abbrev by_admin : Context
by_admin = record (request "POST" "") {
  get_header = λ name. if str_eq name "Authorization" then join "Bearer " admin_token else "";
}

abbrev fresh : Server machine counting
fresh = record { world = start; limiters = λ ip. none; lines = []; headers = [] }

abbrev after_posting : Server machine counting
after_posting =
    (serve_request machine counting engine salary_json service (guarded_route transaction_post)
      by_admin fresh).1

abbrev after_publishing : Server machine counting
after_publishing = record after_posting { world = (process_outbox machine after_posting.world).1 }

abbrev after_check : Server machine counting
after_check =
    (serve_request machine counting engine salary_json service health_route by_admin
      after_publishing).1

abbrev a_run : ◌⟶*◌ machine counting engine salary_json service fresh after_check
a_run =
    more (served (guarded_route transaction_post) by_admin fresh)
      (more (published after_posting) (more (served health_route by_admin after_publishing) here))

run-IsExtended_example : IsExtended machine fresh.world.db after_check.world.db
run-IsExtended_example = run-IsExtended machine counting engine salary_json service a_run

run-IsAnnounced_example :
    map (λ x. x.event_id) (machine.rows outbox after_check.world.db)
    ≡ map (λ e. e.id) (machine.rows events after_check.world.db)
run-IsAnnounced_example = run-IsAnnounced machine counting engine salary_json service a_run refl

serve_request_answers_example :
    (r : Response ℤ) × ((serve_request machine counting engine salary_json service health_route
        by_admin fresh).0
      ≡ ok r)
serve_request_answers_example =
    serve_request_answers machine counting engine salary_json service health_route by_admin fresh

posting_posts : length (machine.rows entries after_posting.world.db) ≡ 2
unfolding serve_request recovery request_id ◌>>=◌ on_world fresh_uuid structured_logger read_clock
    limit_rate rate_limiter admit get_limiter cors_middleware serve_guarded under_api
    auth_middleware split_blank equal_fold trim_space to_lower validate_token idempotency_middleware
    guarded require_role handle_post_transaction post_transaction validate total_entries post_body
    post_entries persist_balances new_balance build_audit_event log_event exec query before_create
    create transaction ◌+ℤ◌ ◌-ℤ◌
posting_posts = refl

abbrev checked : Server machine counting
checked = (serve_request machine counting engine salary_json service health_route by_admin fresh).1

database_is_unreachable :
    serve_request machine counting engine salary_json service health_route by_admin fresh
    ≡ (ok (unavailable machine counting engine), checked)
unfolding serve_request recovery request_id ◌>>=◌ on_world fresh_uuid structured_logger read_clock
    limit_rate rate_limiter admit get_limiter cors_middleware check_health
database_is_unreachable = refl

serve_request-IsTraced_example :
    IsTraced machine counting engine salary_json service by_admin fresh checked
      (unavailable machine counting engine)
serve_request-IsTraced_example =
    serve_request-IsTraced machine counting engine salary_json service health_route by_admin fresh
      database_is_unreachable

preflight-stops_example :
    (r : Response ℤ) × (u : Server machine counting) × (serve_request machine counting engine
        salary_json service
        (guarded_route transaction_post)
        (request "OPTIONS" "")
        fresh
      ≡ (ok r, u))
    × ((r ≡ raw 204 "") ⊎ (r ≡ limit_exceeded))
    × (u.world.db ≡ fresh.world.db)
preflight-stops_example =
    preflight-stops machine counting engine salary_json service (guarded_route transaction_post)
      (request "OPTIONS" "") fresh refl
