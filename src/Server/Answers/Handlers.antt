-- ===== src/Server/Answers/Handlers.antt =====
-- Each handler answers or panics.
use finance_project.Prelude.{
  true, not, String, List, [], ◌∷◌, ◌≢◌, inl, inr, str_eq, ltb, Option-cases,
}
use finance_project.Errors.{GoError}
use finance_project.Models.{Uuid, LedgerEntry, Account}
use finance_project.Action.{Action, Result, ok, err, panic}
use finance_project.Platform.{Platform}
use finance_project.Platform.Reply.{Reply, done, failed}
use finance_project.Session.{World}
use finance_project.Accounts.{get_account_by_id}
use finance_project.Ledger.{post_transaction}
use finance_project.Tokens.{TokenService}
use finance_project.Http.{Context, Response, get_string}
use finance_project.Http.Requests.{Json}
use finance_project.Handlers.{
  bound, bound_body, byte_length, identified, posted_answer, entries_answer, when_complete,
  missing_fields, missing_credentials, handle_post_transaction, handle_get_transactions,
  handle_get_accounts, handle_create_account, handle_get_account_entries, handle_create_record,
  handle_get_records, handle_get_record_by_id, handle_update_record, handle_delete_record,
  handle_get_users, handle_update_user, handle_delete_user, handle_get_summary, handle_get_trends,
  handle_get_category_breakdown, handle_get_audit_log, handle_register, handle_login,
  handle_refresh, handle_logout,
}
use finance_project.Routes.{
  PublicRoute, register_route, login_route, refresh_route, GuardedRoute, users_list, user_update,
  user_delete, records_list, record_create, record_by_id, record_update, record_delete,
  summary_report, trends_report, categories_report, transaction_post, transactions_list,
  accounts_list, account_create, account_entries, audit_list, guarded_handler, serve_public,
}
use finance_project.Server.Answers.{IsAnswer, IsAnswer-if, IsAnswer-pure, serve-IsAnswer}

module _ (P : Platform) where
  bound-IsAnswer :
      {A : Type 0} (r : Reply A) (f : A → Action (World P) (Response P.Decimal))
      → ((a : A) → IsAnswer (f a))
      → IsAnswer (bound P r f)
  bound-IsAnswer (done a) f h = h a
  bound-IsAnswer (failed cause) f h = IsAnswer-pure _

  bound_body-IsAnswer :
      {A : Type 0} (bind : String → Reply A) (body : Reply String)
      (f : A → Action (World P) (Response P.Decimal))
      → ((a : A) → IsAnswer (f a))
      → IsAnswer (bound_body P bind body f)
  bound_body-IsAnswer bind (done text) f h = bound-IsAnswer (bind text) f h
  bound_body-IsAnswer bind (failed cause) f h = IsAnswer-pure _

  identified-IsAnswer :
      (c : Context) (f : Uuid → Action (World P) (Response P.Decimal))
      → ((id : Uuid) → IsAnswer (f id))
      → IsAnswer (identified P c f)
  identified-IsAnswer c f h w e = elim (Option-cases (P.parse_uuid (get_string c.user_id))) [
    | inl none_given ↦ rw (none_given, identified) (λ q. cc)
    | inr (id, given) ↦ rw (given, identified) (h id w e)
  ]

  module _ (J : Json P.Decimal) where
    when_complete-IsAnswer :
        (missing : List String) (m : Action (World P) (Response P.Decimal))
        → IsAnswer m
        → IsAnswer (when_complete P J missing m)
    when_complete-IsAnswer [] m h = h
    when_complete-IsAnswer (x ∷ xs) m h = IsAnswer-pure _

    posted_answer-ne-err :
        (x : Result (List (LedgerEntry P.Decimal)) × World P) (e : GoError)
        → (posted_answer P J x).0 ≢ err e
    posted_answer-ne-err (ok [], u) e = λ q. cc
    posted_answer-ne-err (ok (y ∷ ys), u) e = λ q. cc
    posted_answer-ne-err (err c, u) e = λ q. cc
    posted_answer-ne-err (panic, u) e = λ q. cc

    entries_answer-ne-err :
        (c : Context) (x : Result (Account P.Decimal) × World P) (e : GoError)
        → (entries_answer P J c x).0 ≢ err e
    entries_answer-ne-err c (ok a, u) e = serve-IsAnswer P _ _ u e
    entries_answer-ne-err c (err f, u) e = λ q. cc
    entries_answer-ne-err c (panic, u) e = λ q. cc

    pub guarded_handler-IsAnswer :
        (route : GuardedRoute) (c : Context) → IsAnswer (guarded_handler P J route c)
    unfolding handle_get_users handle_update_user handle_delete_user handle_get_records
        handle_create_record handle_get_record_by_id handle_update_record handle_delete_record
        handle_get_summary handle_get_trends handle_get_category_breakdown handle_post_transaction
        handle_get_transactions handle_get_accounts handle_create_account handle_get_account_entries
        handle_get_audit_log
    guarded_handler-IsAnswer users_list c = serve-IsAnswer P _ _
    guarded_handler-IsAnswer user_update c =
        bound_body-IsAnswer J.bind_updates c.body _ λ m. serve-IsAnswer P _ _
    guarded_handler-IsAnswer user_delete c = serve-IsAnswer P _ _
    guarded_handler-IsAnswer records_list c = serve-IsAnswer P _ _
    guarded_handler-IsAnswer record_create c =
        bound_body-IsAnswer J.bind_record c.body _
          λ r. identified-IsAnswer c _ λ id. serve-IsAnswer P _ _
    guarded_handler-IsAnswer record_by_id c = serve-IsAnswer P _ _
    guarded_handler-IsAnswer record_update c =
        bound_body-IsAnswer J.bind_updates c.body _ λ m. serve-IsAnswer P _ _
    guarded_handler-IsAnswer record_delete c = serve-IsAnswer P _ _
    guarded_handler-IsAnswer summary_report c = serve-IsAnswer P _ _
    guarded_handler-IsAnswer trends_report c = serve-IsAnswer P _ _
    guarded_handler-IsAnswer categories_report c = serve-IsAnswer P _ _
    guarded_handler-IsAnswer transaction_post c =
        bound_body-IsAnswer J.bind_transaction c.body _
          λ req w e. posted_answer-ne-err (post_transaction P true req w) e
    guarded_handler-IsAnswer transactions_list c = serve-IsAnswer P _ _
    guarded_handler-IsAnswer accounts_list c = serve-IsAnswer P _ _
    guarded_handler-IsAnswer account_create c =
        bound_body-IsAnswer J.bind_account c.body _
          λ account. identified-IsAnswer c _ λ id. serve-IsAnswer P _ _
    guarded_handler-IsAnswer account_entries c =
        λ w e. entries_answer-ne-err c (get_account_by_id P c.param_id w) e
    guarded_handler-IsAnswer audit_list c = serve-IsAnswer P _ _

    pub serve_public-IsAnswer :
        (s : TokenService) (route : PublicRoute) (c : Context)
        → IsAnswer (serve_public P J s route c)
    unfolding serve_public handle_register handle_login handle_refresh
    serve_public-IsAnswer s register_route c = bound_body-IsAnswer J.bind_register c.body _ λ r.
        when_complete-IsAnswer (missing_fields P J r) _ (
          IsAnswer-if (not (J.is_address r.email)) _ _ (IsAnswer-pure _) (
            IsAnswer-if (ltb (byte_length r.password) 8) _ _ (IsAnswer-pure _)
              (serve-IsAnswer P _ _)))
    serve_public-IsAnswer s login_route c =
        bound_body-IsAnswer J.bind_login c.body _
          λ r. when_complete-IsAnswer (missing_credentials P J r) _ (serve-IsAnswer P _ _)
    serve_public-IsAnswer s refresh_route c =
        bound_body-IsAnswer J.bind_refresh c.body _
          λ r. IsAnswer-if (str_eq r.refresh_token "") _ _ (IsAnswer-pure _) (serve-IsAnswer P _ _)

    pub handle_logout-IsAnswer : (c : Context) → IsAnswer (handle_logout P J c)
    unfolding handle_logout
    handle_logout-IsAnswer c = identified-IsAnswer c _ λ id. serve-IsAnswer P _ _
