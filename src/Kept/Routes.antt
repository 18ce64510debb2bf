-- ===== src/Kept/Routes.antt =====
-- Every route, and a round of the publisher, keeps what the statements keep.
use finance_project.Prelude.{◌≡◌, true, Option, none, some, String, refl, str_eq, List, not}
use finance_project.Models.{keys, tokens}
use finance_project.Platform.{Platform}
use finance_project.Platform.Reply.{done}
use finance_project.Session.Reads.{Reads}
use finance_project.Session.Keeps.{Keeps, Keeps-of_Reads}
use finance_project.Tokens.{TokenService}
use finance_project.Access.{
  is_allowed, auth_middleware, check_role, require_role, bearer_token, with_claims,
}
use finance_project.Http.{Context, Handler}
use finance_project.Http.Requests.{Json}
use finance_project.Handlers.{
  handle_get_users, handle_get_audit_log, handle_get_transactions, handle_get_accounts,
  handle_get_account_entries, handle_get_records, handle_get_record_by_id, handle_get_summary,
  handle_get_trends, handle_get_category_breakdown,
}
use finance_project.Handlers.Reading.{
  handle_get_transactions-Reads, handle_get_accounts-Reads, handle_get_account_entries-Reads,
  handle_get_records-Reads, handle_get_record_by_id-Reads, handle_get_summary-Reads,
  handle_get_trends-Reads, handle_get_category_breakdown-Reads, handle_get_users-Reads,
  handle_get_audit_log-Reads,
}
use finance_project.Idempotency.{idempotency_middleware}
use finance_project.Outbox.{process_outbox}
use finance_project.Outbox.Delivery.{process_batch-Keeps}
use finance_project.Routes.{
  PublicRoute, register_route, login_route, refresh_route, GuardedRoute, users_list, user_update,
  user_delete, records_list, record_create, record_by_id, record_update, record_delete,
  summary_report, trends_report, categories_report, transaction_post, transactions_list,
  accounts_list, account_create, account_entries, audit_list, required_roles, guarded_handler,
  guarded, under_api, serve_guarded, serve_public, auth_service,
}
use finance_project.Routes.Access.{with_token-Keeps, idempotency_middleware-Keeps}
use finance_project.Ledger.{PostTransactionRequest}
use finance_project.Kept.{KeptByStatements}
use finance_project.Kept.Services.{Keeps-if}
use finance_project.Kept.Handlers.{
  handle_post_transaction-Keeps, handle_create_account-Keeps, handle_create_record-Keeps,
  handle_update_record-Keeps, handle_delete_record-Keeps, handle_update_user-Keeps,
  handle_delete_user-Keeps, handle_register-Keeps, handle_login-Keeps, handle_refresh-Keeps,
}

module _ (P : Platform) (I : P.Db → Type 0) (J : Json P.Decimal) (k : KeptByStatements P I)
    (allowed : (text : String) (req : PostTransactionRequest P.Decimal)
      → J.bind_transaction text ≡ done req
      → k.Allows req) where
  kept_by_reading :
      (h : Handler P) → ((c : Context) → Reads P (h c)) → (c : Context) → Keeps P I (h c)
  kept_by_reading h reads c = Keeps-of_Reads P I (h c) (reads c)

  guarded_handler-Keeps :
      (route : GuardedRoute) (c : Context) → Keeps P I (guarded_handler P J route c)
  guarded_handler-Keeps users_list c =
      kept_by_reading (handle_get_users P J) (handle_get_users-Reads P J) c
  guarded_handler-Keeps user_update c = handle_update_user-Keeps P I J k true c
  guarded_handler-Keeps user_delete c = handle_delete_user-Keeps P I J k true c
  guarded_handler-Keeps records_list c =
      kept_by_reading (handle_get_records P J) (handle_get_records-Reads P J) c
  guarded_handler-Keeps record_create c = handle_create_record-Keeps P I J k true c
  guarded_handler-Keeps record_by_id c =
      kept_by_reading (handle_get_record_by_id P J) (handle_get_record_by_id-Reads P J) c
  guarded_handler-Keeps record_update c = handle_update_record-Keeps P I J k true c
  guarded_handler-Keeps record_delete c = handle_delete_record-Keeps P I J k true c
  guarded_handler-Keeps summary_report c =
      kept_by_reading (handle_get_summary P J) (handle_get_summary-Reads P J) c
  guarded_handler-Keeps trends_report c =
      kept_by_reading (handle_get_trends P J) (handle_get_trends-Reads P J) c
  guarded_handler-Keeps categories_report c =
      kept_by_reading (handle_get_category_breakdown P J) (handle_get_category_breakdown-Reads P J)
        c
  guarded_handler-Keeps transaction_post c = handle_post_transaction-Keeps P I J k true c allowed
  guarded_handler-Keeps transactions_list c =
      kept_by_reading (handle_get_transactions P J) (handle_get_transactions-Reads P J) c
  guarded_handler-Keeps accounts_list c =
      kept_by_reading (handle_get_accounts P J) (handle_get_accounts-Reads P J) c
  guarded_handler-Keeps account_create c = handle_create_account-Keeps P I J k c
  guarded_handler-Keeps account_entries c =
      kept_by_reading (handle_get_account_entries P J) (handle_get_account_entries-Reads P J) c
  guarded_handler-Keeps audit_list c =
      kept_by_reading (handle_get_audit_log P J) (handle_get_audit_log-Reads P J) c

  check_role-Keeps :
      (roles : List String) (next : Handler P) (c : Context) (role : Option String)
      → Keeps P I (next c)
      → Keeps P I (check_role P roles next c role)
  check_role-Keeps roles next c none kept = λ w i. i
  check_role-Keeps roles next c (some role) kept =
      Keeps-if P I (str_eq role "") _ _ (λ w i. i)
        (Keeps-if P I (not (is_allowed roles role)) _ _ (λ w i. i) kept)

  pub under_api-Keeps :
      (secret : String) (next : Handler P) (c : Context)
      → ((c : Context) → Keeps P I (next c))
      → Keeps P I (under_api P J secret next c)
  unfolding under_api auth_middleware
  under_api-Keeps secret next c kept w i =
      with_token-Keeps P J I (idempotency_middleware P J next) c secret w
        (bearer_token (c.get_header "Authorization"))
        (λ token claims u carried valid.
          idempotency_middleware-Keeps P I J next (with_claims c claims)
            (λ row d e. k.inserts keys row d e refl) (kept (with_claims c claims)))
        i

  pub serve_guarded-Keeps :
      (secret : String) (route : GuardedRoute) (c : Context)
      → Keeps P I (serve_guarded P J secret route c)
  unfolding serve_guarded guarded require_role
  serve_guarded-Keeps secret route c = under_api-Keeps secret (guarded P J route) c λ c'.
      check_role-Keeps (required_roles route) (guarded_handler P J route) c' c'.user_role
        (guarded_handler-Keeps route c')

  pub serve_public-Keeps :
      (s : TokenService) (route : PublicRoute) (c : Context)
      → Keeps P I (serve_public P J s route c)
  unfolding serve_public
  serve_public-Keeps s register_route c = handle_register-Keeps P I J k (auth_service s) c
  serve_public-Keeps s login_route c = handle_login-Keeps P I J k (auth_service s) c
  serve_public-Keeps s refresh_route c = handle_refresh-Keeps P I J k s c

  pub round-Keeps : Keeps P I (process_outbox P)
  unfolding process_outbox
  round-Keeps w =
      process_batch-Keeps P I
        (record {
          marks = λ x i d e. k.marks x (P.time_now i) d e;
          drops_keys = λ i d e. k.deletes keys _ d e refl;
          drops_tokens = λ i d e. k.deletes tokens _ d e refl;
        })
        _ w
