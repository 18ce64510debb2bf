-- ===== src/Example/WorkerTests.antt =====
-- The theorems on the publisher, the idempotency keys and the routes.
use finance_project.Prelude.{
  ℤ, pos, String, false, some, [], ◌∷◌, All, length, ◌≡◌, ◌≢◌, ◌≤◌, refl, arith, str_eq,
  if◌then◌else◌, sym, ap, ◌∙◌, subst,
}
use mathlib.Core.List.{Memᴰ}
use finance_project.Models.{OutboxEntry, IdempotencyKey, outbox, keys, users}
use finance_project.Action.{Result, ok, ◌>>=◌}
use finance_project.Platform.Reply.{done, failed}
use finance_project.Platform.Database.{matching}
use finance_project.Session.{World, read_clock}
use finance_project.Outbox.{is_pending, publish_at, batch_size, process_outbox}
use finance_project.Outbox as Outbox
use finance_project.Outbox.Delivery.{IsDelivery, start-IsDelivery}
use finance_project.Outbox.Draining.{ReadsBatches, start-drains}
use finance_project.Outbox.Liveness.{process_outbox-publishes}
use finance_project.Http.{
  Context, Response, Payload, raw, error_response, success_response, Handler, respond,
}
use finance_project.Idempotency.{key_reused, hash_body, idempotency_middleware}
use finance_project.Idempotency.Replay.{
  IsKeyed, lookup_key, stored_row, idempotency_middleware-replay, idempotency_middleware-retry,
}
use Prim.Native.String.{◌++◌ as join}
use finance_project.Text.{split_blank, equal_fold, trim_space, to_lower}
use finance_project.Access.{bearer_token, is_allowed}
use finance_project.Jwt.{validate_token, jwt_issuer, jwt_audience}
use finance_project.Platform.Runtime.{Claims}
use finance_project.Routes.{administrators, serve_guarded, user_delete}
use finance_project.Routes.Access.{NoAdministrator, serve_guarded-others}
use finance_project.Example.Accepting.{machine-AcceptsMarks}
use finance_project.Example.Machine.{machine}
use finance_project.Example.Web.{waiting, running, request, no_json}

start-IsDelivery_example : IsDelivery machine running.db (Outbox.start machine 2 running).1.db
start-IsDelivery_example = start-IsDelivery machine 2 running

waiting_is_read :
    machine.page outbox is_pending "created_at ASC" (pos 0) batch_size running.db
    ≡ done (waiting ∷ [])
waiting_is_read = refl

process_outbox-publishes_example :
    ((x : OutboxEntry)
      → Memᴰ x (waiting ∷ [])
      → All
          (λ r. r.id ≡ x.id → is_pending r ≡ false)
          (machine.rows outbox (process_outbox machine running).1.db))
    × (length (matching ℤ outbox is_pending (machine.rows outbox running.db)) ≤ batch_size
        → All
            (λ r. is_pending r ≡ false)
            (machine.rows outbox (process_outbox machine running).1.db))
process_outbox-publishes_example =
    process_outbox-publishes machine running (waiting ∷ []) machine-AcceptsMarks waiting_is_read

-- A handler that answers each request.
abbrev agree : Handler machine
agree c = respond machine (success_response 200 "agreed" Payload.no_data)

abbrev deleting : Context
deleting = request "DELETE" "k"

deleting-IsKeyed : IsKeyed deleting "{}"
deleting-IsKeyed = record { mutating = refl; has_key = refl; has_body = refl }

abbrev agreed : Response ℤ
agreed = success_response 200 "agreed" Payload.no_data

abbrev ticked : World machine
ticked = record running { calls = 5 }

abbrev agreed_row : IdempotencyKey
agreed_row = stored_row machine no_json deleting "{}" agreed ticked

abbrev kept_tables : machine.Db
kept_tables = record {
  tables = record running.db.tables { key_rows = agreed_row ∷ [] };
  keyed = refl;
}

abbrev once_agreed : World machine
once_agreed = record { db = kept_tables; calls = 6 }

row_is_stored : machine.insert keys agreed_row ticked.db ≡ done kept_tables
row_is_stored = refl

row_is_found : lookup_key machine no_json deleting once_agreed ≡ done (some agreed_row)
row_is_found = refl

idempotency_middleware-retry_example :
    (idempotency_middleware machine no_json agree deleting running ≡ (ok agreed, once_agreed))
    × (idempotency_middleware machine no_json agree deleting once_agreed
        ≡ (ok (raw 200 "agreed"), record once_agreed { calls = 7 }))
idempotency_middleware-retry_example =
    idempotency_middleware-retry machine no_json agree agree deleting "{}" agreed running ticked
      once_agreed kept_tables (some agreed_row) deleting-IsKeyed refl refl row_is_stored (λ k m. m)
      (omega arith) row_is_found

idempotency_middleware-replay_example :
    (agreed_row.request_hash ≡ hash_body machine no_json "{}"
      → idempotency_middleware machine no_json agree deleting once_agreed
        ≡ (ok (raw 200 "agreed"), record once_agreed { calls = 7 }))
    × (agreed_row.request_hash ≢ hash_body machine no_json "{}"
        → idempotency_middleware machine no_json agree deleting once_agreed
          ≡ (ok (error_response 422 key_reused), record once_agreed { calls = 7 }))
idempotency_middleware-replay_example =
    idempotency_middleware-replay machine no_json agree deleting "{}" agreed_row once_agreed
      (some agreed_row) deleting-IsKeyed (Memᴰ.head refl) refl (omega arith) row_is_found

abbrev viewer_claims : Claims
viewer_claims = record {
  user_id = "uuu";
  email = "v";
  role = "viewer";
  issuer = jwt_issuer;
  audience = jwt_audience;
  issued_at = 1;
  expires_at = 9;
}

abbrev viewer_token : String
viewer_token = elim (machine.sign_claims viewer_claims "secret") [
  | done token ↦ token
  | failed _ ↦ ""
]

-- The viewer tries to delete a user.
abbrev by_viewer : Context
by_viewer = record deleting {
  get_header = λ name. if str_eq name "Authorization" then join "Bearer " viewer_token else "k";
}

viewer_is_carried : bearer_token (by_viewer.get_header "Authorization") ≡ ok viewer_token
unfolding split_blank equal_fold trim_space
viewer_is_carried = refl

viewer_is_valid : validate_token machine viewer_token "secret" running ≡ (ok viewer_claims, ticked)
unfolding validate_token read_clock ◌>>=◌
viewer_is_valid = refl

viewer_is_no_administrator : is_allowed administrators viewer_claims.role ≡ false
unfolding to_lower trim_space
viewer_is_no_administrator = refl

by_viewer-NoAdministrator : NoAdministrator machine no_json "secret" by_viewer running
by_viewer-NoAdministrator token claims u carried valid =
    let same : viewer_token ≡ token = cc (viewer_is_carried, carried) in
    let answer : ◌≡◌ {A = Result Claims × World machine} (ok viewer_claims, ticked) (ok claims, u) =
      sym viewer_is_valid ∙ ap (λ s. validate_token machine s "secret" running) same ∙ valid in
    let is_viewer : viewer_claims ≡ claims = cc (ap (λ x. x.0) answer) in
    subst (λ (c : Claims). is_allowed administrators c.role ≡ false) is_viewer
      viewer_is_no_administrator

serve_guarded-others_example :
    machine.rows users (serve_guarded machine no_json "secret" user_delete by_viewer running).1.db
    ≡ machine.rows users running.db
serve_guarded-others_example =
    serve_guarded-others machine no_json "secret" user_delete by_viewer running
      by_viewer-NoAdministrator users (λ p. cc)

machine-ReadsBatches : ReadsBatches machine
machine-ReadsBatches d = (_, refl)

start-drains_example :
    All (λ r. is_pending r ≡ false) (machine.rows outbox (Outbox.start machine 1 running).1.db)
start-drains_example =
    start-drains machine 1 running machine-AcceptsMarks machine-ReadsBatches (omega arith)
