-- ===== src/Handlers.antt =====
-- handlers/*.go: each reads a request, calls a service and writes a response.
mod Binding
pub mod Reading
pub mod Viewing
use Prim.Native.Char.{len_utf8}
use Prim.Native.String.{String}
use finance_project.Prelude.{
  ℕ, zero, suc, ◌+◌, ◌-◌, ℤ, pos, negsuc, Bool, true, false, not, ◌&&◌, ◌||◌, Option, none, some,
  List, [], ◌∷◌, ◌++◌, str_eq, ltb, if◌then◌else◌,
}
use finance_project.Models.{Uuid, nil_uuid, Account, FinancialRecord, LedgerEntry, role_viewer}
use finance_project.Text.{trim_space, atoi}
use finance_project.Action.{Action, Result, ok, err, panic, ◌>>=◌}
use finance_project.Platform.{Platform}
use finance_project.Platform.Reply.{Reply, done, failed}
use finance_project.Session.{World}
use finance_project.Ledger.{PostTransactionRequest, post_transaction, get_transactions}
use finance_project.Audit.{EventFilters, query_events}
use finance_project.Accounts.{create_account, get_account_by_id, get_accounts_by_user}
use finance_project.Tokens.{TokenService, refresh_tokens, revoke_all_user_tokens}
use finance_project.Auth.{AuthService, register, login}
use finance_project.Records.{
  RecordFilters, create_record, get_records, get_record_by_id, update_record, delete_record,
}
use finance_project.Users.{get_all_users, update_user, delete_user}
use finance_project.Dashboard.{get_summary, get_trends, get_category_breakdown}
use finance_project.Http.{
  Context, get_string, Payload, Response, success_response, error_response, validation_error,
  handle_service_error, Handler, respond, answer, serve,
}
use finance_project.Http.Requests.{Json, RegisterRequest, LoginRequest, RefreshRequest}
pub use Binding.{
  query_value, positive_or, page_query, blank_name, byte_length, bound, bound_body, identified,
}

module _ (P : Platform) (J : Json P.Decimal) where
  -- `entries[0]` panics if there is none.
  abbrev pub posted_answer :
      Result (List (LedgerEntry P.Decimal)) × World P → Result (Response P.Decimal) × World P
  posted_answer (ok [], u) = (panic, u)
  posted_answer (ok (e ∷ es), u) = (
    ok (
        success_response 201 "transaction posted successfully"
          (Payload.posted_entries e.transaction_id (e ∷ es))),
    u,
  )
  posted_answer (err e, u) = (ok (handle_service_error e), u)
  posted_answer (panic, u) = (panic, u)

  unfoldable pub handle_post_transaction : Bool → Handler P
  handle_post_transaction audited c =
      bound_body P J.bind_transaction c.body
        λ req w. posted_answer (post_transaction P audited req w)

  unfoldable pub handle_get_transactions : Handler P
  handle_get_transactions c =
      let page = page_query c "page" (pos 1) in
      let size = page_query c "page_size" (pos 10) in
      serve P (get_transactions P (c.query "account_id") page size) λ r.
        success_response 200 "ledger entries retrieved successfully"
          (Payload.entry_page r.0 r.1 page size)

  -- A viewer sees their own accounts, and others may ask for those of a user.
  abbrev pub accounts_of : Context → String
  accounts_of c =
      if str_eq (get_string c.user_role) role_viewer
      then get_string c.user_id
      else if str_eq (c.query "user_id") ""
      then get_string c.user_id
      else c.query "user_id"

  unfoldable pub handle_get_accounts : Handler P
  handle_get_accounts c =
      serve P (get_accounts_by_user P (accounts_of c))
        λ r. success_response 200 "accounts retrieved successfully" (Payload.all_accounts r)

  unfoldable pub handle_create_account : Handler P
  handle_create_account c = bound_body P J.bind_account c.body λ account. identified P c λ id.
      serve P (create_account P (record account { user_id = id }))
        λ r. success_response 201 "account created successfully" (Payload.account r)

  -- The entries of an account, once it has been found.
  abbrev pub entries_answer :
      Context → Result (Account P.Decimal) × World P → Result (Response P.Decimal) × World P
  entries_answer c (ok account, u) =
      let page = page_query c "page" (pos 1) in
      let size = page_query c "page_size" (pos 10) in
      serve P (get_transactions P c.param_id page size)
        (λ r.
          success_response 200 "account entries retrieved successfully"
            (Payload.entry_page r.0 r.1 page size))
        u
  entries_answer c (err e, u) = (ok (handle_service_error e), u)
  entries_answer c (panic, u) = (panic, u)

  unfoldable pub handle_get_account_entries : Handler P
  handle_get_account_entries c w = entries_answer c (get_account_by_id P c.param_id w)

  -- The fields that the server controls are reset.
  unfoldable pub handle_create_record : Bool → Handler P
  handle_create_record audited c = bound_body P J.bind_record c.body λ r. identified P c λ id.
      serve P
        (create_record P audited (record r { id = nil_uuid; deleted_at = none; user_id = id }))
        λ stored.
          success_response 201 "financial record created successfully" (Payload.one_record stored)

  abbrev pub record_filters : Context → RecordFilters
  record_filters c = record {
    record_type = query_value c "type";
    category = query_value c "category";
    start_date = query_value c "start_date";
    end_date = query_value c "end_date";
    user_id =
        if str_eq (get_string c.user_role) role_viewer then some (get_string c.user_id) else none;
  }

  unfoldable pub handle_get_records : Handler P
  handle_get_records c =
      let page = page_query c "page" (pos 1) in
      let size = page_query c "page_size" (pos 10) in
      serve P (get_records P (record_filters c) page size) λ r.
        success_response 200 "financial records retrieved successfully"
          (Payload.record_page r.0 r.1 page size)

  abbrev pub own_record : Context → FinancialRecord P.Decimal → Response P.Decimal
  own_record c r =
      if str_eq (get_string c.user_role) role_viewer
        && not (str_eq (P.uuid_string r.user_id) (get_string c.user_id))
      then error_response 403 "access denied: you can only view your own records"
      else success_response 200 "financial record retrieved successfully" (Payload.one_record r)

  unfoldable pub handle_get_record_by_id : Handler P
  handle_get_record_by_id c = serve P (get_record_by_id P c.param_id) (own_record c)

  unfoldable pub handle_update_record : Bool → Handler P
  handle_update_record audited c = bound_body P J.bind_updates c.body λ m.
      serve P (update_record P audited c.param_id m)
        λ r. success_response 200 "financial record updated successfully" (Payload.one_record r)

  unfoldable pub handle_delete_record : Bool → Handler P
  handle_delete_record audited c =
      serve P (delete_record P audited c.param_id)
        λ _. success_response 200 "financial record deleted successfully" Payload.no_data

  unfoldable pub handle_get_users : Handler P
  handle_get_users c =
      serve P (get_all_users P)
        λ r. success_response 200 "users retrieved successfully" (Payload.all_users r)

  unfoldable pub handle_update_user : Bool → Handler P
  handle_update_user audited c = bound_body P J.bind_updates c.body λ m.
      serve P (update_user P audited c.param_id m)
        λ r. success_response 200 "user updated successfully" (Payload.user r)

  unfoldable pub handle_delete_user : Bool → Handler P
  handle_delete_user audited c =
      serve P (delete_user P audited c.param_id)
        λ _. success_response 200 "user deleted successfully" Payload.no_data

  unfoldable pub handle_get_summary : Handler P
  handle_get_summary c =
      serve P (get_summary P)
        λ r. success_response 200 "dashboard summary retrieved successfully" (Payload.summary r)

  unfoldable pub handle_get_trends : Handler P
  handle_get_trends c =
      serve P (get_trends P)
        λ r. success_response 200 "trends retrieved successfully" (Payload.trends r)

  unfoldable pub handle_get_category_breakdown : Handler P
  handle_get_category_breakdown c =
      serve P (get_category_breakdown P)
        λ r. success_response 200 "category breakdown retrieved successfully" (Payload.categories r)

  abbrev pub event_filters : Context → EventFilters
  event_filters c = record {
    entity_type = query_value c "entity_type";
    entity_id = query_value c "entity_id";
    actor_id = query_value c "actor_id";
    action = query_value c "action";
  }

  unfoldable pub handle_get_audit_log : Handler P
  handle_get_audit_log c =
      let page = page_query c "page" (pos 1) in
      let size = page_query c "page_size" (pos 20) in
      serve P (query_events P (event_filters c) page size) λ r.
        success_response 200 "audit log retrieved successfully"
          (Payload.event_page r.0 r.1 page size)

  -- The fields of a registration that are blank, in order.
  abbrev pub missing_fields : RegisterRequest → List String
  missing_fields r =
      blank_name "name" r.name ++ (blank_name "email" r.email ++ blank_name "password" r.password)

  abbrev pub missing_credentials : LoginRequest → List String
  missing_credentials r = blank_name "email" r.email ++ blank_name "password" r.password

  abbrev pub when_complete :
      List String → Action (World P) (Response P.Decimal) → Action (World P) (Response P.Decimal)
  when_complete [] k = k
  when_complete (f ∷ fs) k =
      respond P (validation_error "missing required fields" (Payload.required (f ∷ fs)))

  unfoldable pub handle_register : AuthService → Handler P
  handle_register s c = bound_body P J.bind_register c.body λ r. when_complete (missing_fields r) (
      if not (J.is_address r.email)
      then respond P (validation_error "invalid email format" Payload.no_data)
      else if ltb (byte_length r.password) 8
      then respond P (validation_error "password must be at least 8 characters" Payload.no_data)
      else serve P (register P s r.name r.email r.password r.role)
          (λ user. success_response 201 "user registered successfully" (Payload.user user)))

  -- The refresh token is left out if it is empty.
  unfoldable pub handle_login : AuthService → Handler P
  handle_login s c = bound_body P J.bind_login c.body λ r. when_complete (missing_credentials r) (
      serve P (login P s r.email r.password (get_string c.request_id) c.client_ip) (λ x.
        success_response 200 "login successful"
          (Payload.login x.0 (if str_eq x.1 "" then none else some x.1) x.2)))

  unfoldable pub handle_refresh : TokenService → Handler P
  handle_refresh s c = bound_body P J.bind_refresh c.body λ r.
      if str_eq r.refresh_token ""
      then respond P (error_response 400 "refresh_token is required")
      else serve P (refresh_tokens P s r.refresh_token) (λ pair.
        success_response 200 "tokens refreshed successfully" (Payload.token_pair pair.0 pair.1))

  unfoldable pub handle_logout : Handler P
  handle_logout c = identified P c λ id. serve P (revoke_all_user_tokens P id) λ _.
      success_response 200 "logged out successfully — all refresh tokens revoked" Payload.no_data
