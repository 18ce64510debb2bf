-- ===== src/Routes.antt =====
-- routes/routes.go: the routes of the API, the roles that each requires, and the middlewares that a
-- request passes on its way to a handler.
pub mod Access
use finance_project.Prelude.{
  ℕ, zero, suc, ℤ, pos, negsuc, String, Bool, true, false, List, [], ◌∷◌, Option, none, some,
  str_eq, if◌then◌else◌,
}
use finance_project.Models.{role_viewer, role_analyst, role_admin}
use finance_project.Action.{Action, Result, ok}
use finance_project.Text.{atoi}
use finance_project.Platform.{Platform}
use finance_project.Session.{World}
use finance_project.Tokens.{TokenService}
use finance_project.Auth.{AuthService}
use finance_project.Http.{Context, Response, Handler}
use finance_project.Http.Requests.{Json}
use finance_project.Access.{auth_middleware, require_role}
use finance_project.Idempotency.{idempotency_middleware}
use finance_project.Handlers.{
  positive_or, handle_post_transaction, handle_get_transactions, handle_get_accounts,
  handle_create_account, handle_get_account_entries, handle_create_record, handle_get_records,
  handle_get_record_by_id, handle_update_record, handle_delete_record, handle_get_users,
  handle_update_user, handle_delete_user, handle_get_summary, handle_get_trends,
  handle_get_category_breakdown, handle_get_audit_log, handle_register, handle_login,
  handle_refresh, handle_logout,
}

-- The routes without a token.
pub data PublicRoute : Type 0 where
  register_route : PublicRoute
  login_route : PublicRoute
  refresh_route : PublicRoute

-- The routes under /api that require a role.
pub data GuardedRoute : Type 0 where
  users_list : GuardedRoute
  user_update : GuardedRoute
  user_delete : GuardedRoute
  records_list : GuardedRoute
  record_create : GuardedRoute
  record_by_id : GuardedRoute
  record_update : GuardedRoute
  record_delete : GuardedRoute
  summary_report : GuardedRoute
  trends_report : GuardedRoute
  categories_report : GuardedRoute
  transaction_post : GuardedRoute
  transactions_list : GuardedRoute
  accounts_list : GuardedRoute
  account_create : GuardedRoute
  account_entries : GuardedRoute
  audit_list : GuardedRoute

abbrev everyone : List String
everyone = role_viewer ∷ role_analyst ∷ role_admin ∷ []

abbrev analysts : List String
analysts = role_analyst ∷ role_admin ∷ []

abbrev pub administrators : List String
administrators = role_admin ∷ []

abbrev pub required_roles : GuardedRoute → List String
required_roles users_list = administrators
required_roles user_update = administrators
required_roles user_delete = administrators
required_roles records_list = everyone
required_roles record_create = administrators
required_roles record_by_id = everyone
required_roles record_update = administrators
required_roles record_delete = administrators
required_roles summary_report = everyone
required_roles trends_report = analysts
required_roles categories_report = analysts
required_roles transaction_post = administrators
required_roles transactions_list = everyone
required_roles accounts_list = everyone
required_roles account_create = administrators
required_roles account_entries = everyone
required_roles audit_list = administrators

-- The two expiries are read from the environment.
abbrev pub token_service : String → String → String → TokenService
token_service secret access_minutes refresh_days = record {
  jwt_secret = secret;
  access_token_expiry_mins = positive_or (pos 15) (atoi access_minutes);
  refresh_token_expiry_days = positive_or (pos 7) (atoi refresh_days);
}

abbrev pub auth_service : TokenService → AuthService
auth_service s = record { token_service = some s; has_accounts = true; has_audit = true }

module _ (P : Platform) (J : Json P.Decimal) where
  -- Every service but the ledger's accounts and the dashboard has the audit service.
  abbrev pub guarded_handler : GuardedRoute → Handler P
  guarded_handler users_list = handle_get_users P J
  guarded_handler user_update = handle_update_user P J true
  guarded_handler user_delete = handle_delete_user P J true
  guarded_handler records_list = handle_get_records P J
  guarded_handler record_create = handle_create_record P J true
  guarded_handler record_by_id = handle_get_record_by_id P J
  guarded_handler record_update = handle_update_record P J true
  guarded_handler record_delete = handle_delete_record P J true
  guarded_handler summary_report = handle_get_summary P J
  guarded_handler trends_report = handle_get_trends P J
  guarded_handler categories_report = handle_get_category_breakdown P J
  guarded_handler transaction_post = handle_post_transaction P J true
  guarded_handler transactions_list = handle_get_transactions P J
  guarded_handler accounts_list = handle_get_accounts P J
  guarded_handler account_create = handle_create_account P J
  guarded_handler account_entries = handle_get_account_entries P J
  guarded_handler audit_list = handle_get_audit_log P J

  unfoldable pub guarded : GuardedRoute → Handler P
  guarded route = require_role P (required_roles route) (guarded_handler route)

  -- What the middlewares of the group /api do before a route's own handlers.
  unfoldable pub under_api : String → Handler P → Handler P
  under_api secret next = auth_middleware P secret (idempotency_middleware P J next)

  unfoldable pub serve_guarded : String → GuardedRoute → Handler P
  serve_guarded secret route = under_api secret (guarded route)

  unfoldable pub serve_logout : String → Handler P
  serve_logout secret = under_api secret (handle_logout P J)

  unfoldable pub serve_public : TokenService → PublicRoute → Handler P
  serve_public s register_route = handle_register P J (auth_service s)
  serve_public s login_route = handle_login P J (auth_service s)
  serve_public s refresh_route = handle_refresh P J s
