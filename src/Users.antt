-- ===== src/Users.antt =====
-- services/user_service.go: the users as an administrator lists, updates and deletes them.
pub mod Safety
pub mod Deletion
use finance_project.Prelude.{
  String, Bool, true, false, Option, none, some, List, [], ◌∷◌, ◌==◌, if◌then◌else◌,
}
use finance_project.Errors.{GoError, internal, validation, not_found}
use finance_project.Models.{Uuid, User, users, audit_update, audit_delete}
use finance_project.Action.{Action, Result, ok, err, pure, fail, from_result, ◌>>=◌, ◌>>◌}
use finance_project.Platform.{Platform}
use finance_project.Platform.Reply.{Reply, done, failed}
use finance_project.Platform.Updates.{Value, text, Updates, lookup, without}
use finance_project.Platform.Runtime.{Changes, assigned, no_changes}
use finance_project.Session.{or_missing, World, exec, query, transaction}
use finance_project.Audit.{build_audit_event, log_event}
use finance_project.Auth.{is_valid_role, invalid_role}

abbrev pub missing_user : String → GoError
missing_user id = not_found "user" id

-- `delete(updates, "password")` and `delete(updates, "Password")`
abbrev pub without_password : {D : Type 0} → Updates D → Updates D
without_password m = without "Password" (without "password" m)

module _ (P : Platform) where
  unfoldable pub get_all_users : Action (World P) (List User)
  get_all_users = do
    found ← query P "failed to retrieve users" (P.select users (λ u. true))
    pure (P.order_by "created_at DESC" found)

  -- A text that is no uuid makes the statement fail.
  abbrev pub user_by : Option Uuid → P.Db → Reply (Option User)
  user_by (some id) d = P.first users (λ u. u.id == id) d
  user_by none d = failed "invalid input syntax for type uuid"

  unfoldable pub get_user_by_id : String → Action (World P) User
  get_user_by_id id = do
    found ← query P "failed to retrieve user" (user_by (P.uuid_input id))
    or_missing P (missing_user id) found

  abbrev pub check_role_value : Option (Value P.Decimal) → Result (Unit {0})
  check_role_value none = ok tt
  check_role_value (some (text r)) = if is_valid_role r then ok tt else err invalid_role
  check_role_value (some _) = err (validation "role must be a string")

  -- The audit event of an operation on a user; as the actor it names the id that was asked for.
  unfoldable pub audit_user :
      Bool → User → String → String → Changes P.Decimal → Action (World P) (Unit {0})
  audit_user audited user id action diff = elim audited [
    | false ↦ pure tt
    | true ↦ do
      event ← build_audit_event P "user" (P.uuid_string user.id) action id "" "" diff
      log_event P event
  ]

  -- gorm also assigns the new values to the row in memory, which the audit event then names.
  unfoldable pub update_user_body :
      Bool → User → String → Updates P.Decimal → Action (World P) (Unit {0})
  update_user_body audited user id m = do
    exec P "failed to update user" (P.update_map users (λ u. u.id == user.id) m)
    audit_user audited (P.columns.assign users m user) id audit_update (assigned m)

  abbrev pub updated_user_missing : GoError
  updated_user_missing = internal "failed to retrieve updated user" (some "record not found")

  unfoldable pub update_user : Bool → String → Updates P.Decimal → Action (World P) User
  update_user audited id m = do
    user ← get_user_by_id id
    from_result (check_role_value (lookup "role" (without_password m)))
    transaction P (update_user_body audited user id (without_password m))
    found ← query P "failed to retrieve updated user" (user_by (P.uuid_input id))
    or_missing P updated_user_missing found

  unfoldable pub delete_user_body : Bool → String → Action (World P) (Unit {0})
  delete_user_body audited id = do
    user ← get_user_by_id id
    exec P "failed to delete user" (P.delete users (λ u. u.id == user.id))
    audit_user audited user id audit_delete no_changes

  unfoldable pub delete_user : Bool → String → Action (World P) (Unit {0})
  delete_user audited id = transaction P (delete_user_body audited id)
