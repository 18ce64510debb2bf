-- ===== src/Auth.antt =====
-- services/auth_service.go: `Register` and `Login`.
pub mod Registration
pub mod Credentials
pub mod Grant
use finance_project.Prelude.{
  suc, String, Bool, true, false, not, ◌||◌, Option, none, some, List, [], ◌∷◌, str_eq,
  if◌then◌else◌,
}
use finance_project.Errors.{GoError, internal, forbidden, validation, conflict, unauthorized}
use finance_project.Models.{
  Uuid, nil_uuid, User, users, role_viewer, role_analyst, role_admin, audit_create, audit_login,
}
use finance_project.Action.{Action, ok, err, pure, fail, ◌>>=◌, ◌>>◌}
use finance_project.Platform.{Platform}
use finance_project.Platform.Reply.{Reply, done, failed}
use finance_project.Platform.Runtime.{given_role, no_changes}
use finance_project.Session.{or_missing, World, query, create, transaction}
use finance_project.Audit.{build_audit_event, log_event}
use finance_project.Accounts.{create_default_accounts}
use finance_project.Tokens.{TokenService, issue_token_pair, ignored}

-- `AuthService`: which services it has been given.
pub record AuthService : Type 0 where
  pub token_service : Option TokenService
  pub has_accounts : Bool
  pub has_audit : Bool

abbrev pub is_valid_role : String → Bool
is_valid_role r = str_eq r role_viewer || (str_eq r role_analyst || str_eq r role_admin)

abbrev pub role_or_viewer : String → String
role_or_viewer role = if str_eq role "" then role_viewer else role

abbrev pub admin_not_assignable : GoError
admin_not_assignable =
    forbidden
      "admin role cannot be self-assigned during registration; register as viewer or analyst and request promotion from an admin"

abbrev pub invalid_role : GoError
invalid_role = validation "invalid role: must be one of viewer, analyst, admin"

abbrev pub email_taken : GoError
email_taken = conflict "email already registered"

abbrev pub bad_credentials : GoError
bad_credentials = unauthorized "invalid email or password"

abbrev pub account_deactivated : GoError
account_deactivated = unauthorized "account is deactivated"

module _ (P : Platform) where
  -- The count of the users with the email is not positive.
  abbrev pub require_none : List User → Action (World P) (Unit {0})
  require_none [] = pure tt
  require_none (_ ∷ _) = fail email_taken

  -- The salt changes from call to call.
  unfoldable pub hash_password : String → Action (World P) String
  hash_password password w = elim (P.bcrypt_hash w.calls password) [
    | done hash ↦ (ok hash, record w { calls = suc w.calls })
    | failed cause ↦
        (err (internal "failed to hash password" (some cause)), record w { calls = suc w.calls })
  ]

  abbrev pub new_user : String → String → String → String → User
  new_user name email hash role = record {
    id = nil_uuid;
    name = name;
    email = email;
    password = hash;
    role = role;
    is_active = true;
  }

  abbrev pub create_user : User → Action (World P) User
  create_user user = create P users "failed to create user" user.id (λ id. record user { id = id })

  abbrev pub open_accounts : Bool → User → Action (World P) (Unit {0})
  open_accounts false user = pure tt
  open_accounts true user = create_default_accounts P user.id

  abbrev pub audit_registration : Bool → User → String → Action (World P) (Unit {0})
  audit_registration false user role = pure tt
  audit_registration true user role = do
    event ←
        build_audit_event P "user" (P.uuid_string user.id) audit_create "system" "" ""
          (given_role role)
    log_event P event

  -- The function that the database transaction runs.
  unfoldable pub register_body :
      AuthService → String → String → String → String → Action (World P) User
  register_body s name email password role = do
    same ← query P "failed to check existing email" (P.select users (λ u. str_eq u.email email))
    require_none same
    hash ← hash_password password
    user ← create_user (new_user name email hash role)
    open_accounts s.has_accounts user
    audit_registration s.has_audit user role
    pure user

  unfoldable pub register : AuthService → String → String → String → String → Action (World P) User
  register s name email password role =
      if str_eq (role_or_viewer role) role_admin
      then fail admin_not_assignable
      else if not (is_valid_role (role_or_viewer role))
      then fail invalid_role
      else transaction P (register_body s name email password (role_or_viewer role))

  abbrev pub require_enabled : User → Action (World P) (Unit {0})
  require_enabled user = if user.is_active then pure tt else fail account_deactivated

  abbrev pub check_password : User → String → Action (World P) (Unit {0})
  check_password user password =
      if P.bcrypt_matches user.password password then pure tt else fail bad_credentials

  abbrev pub issue_for : Option TokenService → User → Action (World P) (String × String)
  issue_for none user = fail (internal "token service is not configured" none)
  issue_for (some s) user = issue_token_pair P s user

  -- The event is built before the transaction that logs it; an error there is dropped.
  abbrev pub audit_login_of : Bool → User → String → String → Action (World P) (Unit {0})
  audit_login_of false user request_id ip_address = pure tt
  audit_login_of true user request_id ip_address = do
    event ←
        build_audit_event P "user" (P.uuid_string user.id) audit_login (P.uuid_string user.id)
          request_id ip_address no_changes
    ignored P (transaction P (log_event P event))

  unfoldable pub login :
      AuthService → String → String → String → String → Action (World P) (String × String × User)
  login s email password request_id ip_address = do
    found ← query P "failed to query user" (P.first users (λ u. str_eq u.email email))
    user ← or_missing P bad_credentials found
    require_enabled user
    check_password user password
    pair ← issue_for s.token_service user
    audit_login_of s.has_audit user request_id ip_address
    pure (pair.0, pair.1, user)
