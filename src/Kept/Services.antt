-- ===== src/Kept/Services.antt =====
-- The operations of the account, auth, record and user services keep what their statements keep.
use finance_project.Prelude.{
  Bool, true, false, not, Option, none, some, String, List, [], ◌∷◌, refl, inl, inr, str_eq,
  if◌then◌else◌,
}
use finance_project.Models.{User, Account, FinancialRecord, users, accounts, records, role_admin}
use finance_project.Action.{Action}
use finance_project.Platform.{Platform}
use finance_project.Platform.Updates.{Updates}
use finance_project.Platform.Runtime.{Changes}
use finance_project.Session.{World}
use finance_project.Session.Laws.{Reply-cases}
use finance_project.Session.Keeps.{
  Keeps, Keeps-then, Keeps-refuse, Keeps-create, Keeps-clock, Keeps-exec, Keeps-query,
  Keeps-missing, Keeps-transaction, Keeps-of_same_db, Retains, Retains-of_Keeps, Retains-then,
  Retains-after,
}
use finance_project.Tokens.{TokenService}
use finance_project.Accounts.{
  default_accounts, create_all, create_default_accounts, create_account, is_valid_type,
}
use finance_project.Auth.{
  AuthService, require_none, hash_password, open_accounts, audit_registration, register_body,
  register, is_valid_role, role_or_viewer, issue_for, audit_login_of, login,
}
use finance_project.Records.{
  check_record, audit_record, create_body, create_record, get_record_by_id, check_updates,
  update_body, update_record, delete_body, delete_record,
}
use finance_project.Users.{
  get_user_by_id, audit_user, update_user_body, update_user, delete_user_body, delete_user,
}
use finance_project.Kept.{KeptByStatements, build_audit_event-Keeps}
use finance_project.Kept.Tokens.{ignored-Keeps, issue_token_pair-Keeps}

module _ (P : Platform) (I : P.Db → Type 0) where
  -- A condition chooses between two actions.
  pub Keeps-if :
      {A : Type 0} (b : Bool) (m n : Action (World P) A)
      → Keeps P I m
      → Keeps P I n
      → Keeps P I (if b then m else n)
  Keeps-if true m n first second = first
  Keeps-if false m n first second = second

  require_none-Keeps : (found : List User) → Keeps P I (require_none P found)
  require_none-Keeps [] w i = i
  require_none-Keeps (u ∷ us) w i = i

  hash_password-Keeps : (password : String) → Keeps P I (hash_password P password)
  unfolding hash_password
  hash_password-Keeps password = Keeps-of_same_db P I (hash_password P password) λ w.
      elim (Reply-cases (P.bcrypt_hash w.calls password)) [
        | inl (a, e) ↦ rw (e, hash_password) refl
        | inr (c, e) ↦ rw (e, hash_password) refl
      ]

  get_record_by_id-Keeps : (id : String) → Keeps P I (get_record_by_id P id)
  unfolding get_record_by_id
  get_record_by_id-Keeps id = Keeps-then P I _ _ (Keeps-query P I _ _) (Keeps-missing P I _)

  get_user_by_id-Keeps : (id : String) → Keeps P I (get_user_by_id P id)
  unfolding get_user_by_id
  get_user_by_id-Keeps id = Keeps-then P I _ _ (Keeps-query P I _ _) (Keeps-missing P I _)

  check_record-Keeps : (r : FinancialRecord P.Decimal) → Keeps P I (check_record P r)
  unfolding check_record
  check_record-Keeps r =
      let refuses = Keeps-refuse P I in
      Keeps-then P I _ _ (refuses _ _) λ _. Keeps-then P I _ _ (refuses _ _) λ _.
        Keeps-then P I _ _ (refuses _ _)
          λ _. Keeps-then P I _ _ (refuses _ _) λ _. Keeps-then P I _ _ (refuses _ _) λ _ w i. i

  check_updates-Keeps : (m : Updates P.Decimal) → Keeps P I (check_updates P m)
  unfolding check_updates
  check_updates-Keeps m =
      Keeps-then P I _ _ (λ w i. i) λ _. Keeps-then P I _ _ (λ w i. i) λ _ w i. i

  module _ (k : KeptByStatements P I) where
    create_all-Keeps : (all : List (Account P.Decimal)) → Keeps P I (create_all P all)
    unfolding create_all
    create_all-Keeps [] = λ w i. i
    create_all-Keeps (a ∷ more) =
        Keeps-then P I _ _
          (Keeps-create P I accounts _ _ _ (λ r d e. k.inserts accounts r d e refl))
          λ _. create_all-Keeps more

    pub create_account-Keeps : (a : Account P.Decimal) → Keeps P I (create_account P a)
    unfolding create_account
    create_account-Keeps a =
        Keeps-if (not (is_valid_type P a.account_type)) _ _ (λ w i. i)
          (Keeps-if (str_eq a.name "") _ _ (λ w i. i)
            (Keeps-create P I accounts _ _ _ (λ r d e. k.inserts accounts r d e refl)))

    open_accounts-Keeps : (b : Bool) (user : User) → Keeps P I (open_accounts P b user)
    unfolding create_default_accounts
    open_accounts-Keeps false user = λ w i. i
    open_accounts-Keeps true user = create_all-Keeps (default_accounts P user.id)

    audit_registration-Retains :
        (b : Bool) (user : User) (role : String) → Retains P I (audit_registration P b user role)
    audit_registration-Retains false user role = Retains-of_Keeps P I _ (λ w i. i)
    audit_registration-Retains true user role =
        Retains-after P I _ _ (build_audit_event-Keeps P I _ _ _ _ _ _ _) k.logs

    pub register-Keeps :
        (s : AuthService) (name email password role : String)
        → Keeps P I (register P s name email password role)
    unfolding register register_body
    register-Keeps s name email password role =
        Keeps-if (str_eq (role_or_viewer role) role_admin) _ _ (λ w i. i)
          (Keeps-if (not (is_valid_role (role_or_viewer role))) _ _ (λ w i. i)
            (Keeps-transaction P I _ k.same (
              Retains-after P I _ _ (Keeps-query P I _ _) λ same.
                Retains-after P I _ _ (require_none-Keeps same) λ _.
                  Retains-after P I _ _ (hash_password-Keeps password) λ _.
                    Retains-after P I _ _
                      (Keeps-create P I users _ _ _ (λ r d e. k.inserts users r d e refl))
                      λ user. Retains-after P I _ _ (open_accounts-Keeps s.has_accounts user) λ _.
                        Retains-then P I _ _ (audit_registration-Retains s.has_audit user _)
                          λ _. Retains-of_Keeps P I _ (λ w i. i))))

    issue_for-Keeps : (s : Option TokenService) (user : User) → Keeps P I (issue_for P s user)
    issue_for-Keeps none user = λ w i. i
    issue_for-Keeps (some s) user = issue_token_pair-Keeps P I k s user

    audit_login_of-Keeps :
        (b : Bool) (user : User) (request_id ip : String)
        → Keeps P I (audit_login_of P b user request_id ip)
    audit_login_of-Keeps false user request_id ip = λ w i. i
    audit_login_of-Keeps true user request_id ip =
        Keeps-then P I _ _ (build_audit_event-Keeps P I _ _ _ _ _ _ _)
          λ event. ignored-Keeps P I _ (Keeps-transaction P I _ k.same (k.logs event))

    pub login-Keeps :
        (s : AuthService) (email password request_id ip : String)
        → Keeps P I (login P s email password request_id ip)
    unfolding login
    login-Keeps s email password request_id ip = Keeps-then P I _ _ (Keeps-query P I _ _) λ found.
        Keeps-then P I _ _ (Keeps-missing P I _ found) λ user.
          Keeps-then P I _ _ (Keeps-if user.is_active _ _ (λ w i. i) (λ w i. i)) λ _.
            Keeps-then P I _ _
              (Keeps-if (P.bcrypt_matches user.password password) _ _ (λ w i. i) (λ w i. i))
              λ _. Keeps-then P I _ _ (issue_for-Keeps s.token_service user) λ _.
                Keeps-then P I _ _ (audit_login_of-Keeps s.has_audit user request_id ip) λ _ w i. i

    audit_record-Retains :
        (b : Bool) (r : FinancialRecord P.Decimal) (action : String) (diff : Changes P.Decimal)
        → Retains P I (audit_record P b r action diff)
    unfolding audit_record
    audit_record-Retains false r action diff = Retains-of_Keeps P I _ (λ w i. i)
    audit_record-Retains true r action diff =
        Retains-after P I _ _ (build_audit_event-Keeps P I _ _ _ _ _ _ _) k.logs

    audit_user-Retains :
        (b : Bool) (user : User) (id action : String) (diff : Changes P.Decimal)
        → Retains P I (audit_user P b user id action diff)
    unfolding audit_user
    audit_user-Retains false user id action diff = Retains-of_Keeps P I _ (λ w i. i)
    audit_user-Retains true user id action diff =
        Retains-after P I _ _ (build_audit_event-Keeps P I _ _ _ _ _ _ _) k.logs

    pub create_record-Keeps :
        (b : Bool) (r : FinancialRecord P.Decimal) → Keeps P I (create_record P b r)
    unfolding create_record create_body
    create_record-Keeps b r = Keeps-then P I _ _ (check_record-Keeps r) λ checked.
        Keeps-transaction P I _ k.same (
          Retains-after P I _ _
            (Keeps-create P I records _ _ _ (λ x d e. k.inserts records x d e refl))
            λ stored.
              Retains-then P I _ _ (audit_record-Retains b stored _ _)
                λ _. Retains-of_Keeps P I _ (λ w i. i))

    pub update_record-Keeps :
        (b : Bool) (id : String) (m : Updates P.Decimal) → Keeps P I (update_record P b id m)
    unfolding update_record update_body
    update_record-Keeps b id m = Keeps-then P I _ _ (get_record_by_id-Keeps id) λ r.
        Keeps-then P I _ _ (check_updates-Keeps m) λ checked.
          Keeps-then P I _ _
            (Keeps-transaction P I _ k.same (
              Retains-after P I _ _ (Keeps-exec P I _ _ (λ d e. k.update_maps records _ _ d e refl))
                λ _. audit_record-Retains b _ _ _))
            λ _. Keeps-then P I _ _ (Keeps-query P I _ _) (Keeps-missing P I _)

    pub delete_record-Keeps : (b : Bool) (id : String) → Keeps P I (delete_record P b id)
    unfolding delete_record delete_body
    delete_record-Keeps b id = Keeps-transaction P I _ k.same (
        Retains-after P I _ _ (get_record_by_id-Keeps id) λ r.
          Retains-after P I _ _ (Keeps-clock P I) λ now.
            Retains-after P I _ _ (Keeps-exec P I _ _ (λ d e. k.updates records _ _ d e refl))
              λ _. audit_record-Retains b r _ _)

    pub update_user-Keeps :
        (b : Bool) (id : String) (m : Updates P.Decimal) → Keeps P I (update_user P b id m)
    unfolding update_user update_user_body
    update_user-Keeps b id m = Keeps-then P I _ _ (get_user_by_id-Keeps id) λ user.
        Keeps-then P I _ _ (λ w i. i)
          λ _.
            Keeps-then P I _ _
              (Keeps-transaction P I _ k.same (
                Retains-after P I _ _ (Keeps-exec P I _ _ (λ d e. k.update_maps users _ _ d e refl))
                  λ _. audit_user-Retains b _ _ _ _))
              λ _. Keeps-then P I _ _ (Keeps-query P I _ _) (Keeps-missing P I _)

    pub delete_user-Keeps : (b : Bool) (id : String) → Keeps P I (delete_user P b id)
    unfolding delete_user delete_user_body
    delete_user-Keeps b id = Keeps-transaction P I _ k.same (
        Retains-after P I _ _ (get_user_by_id-Keeps id) λ user.
          Retains-after P I _ _ (Keeps-exec P I _ _ (λ d e. k.deletes users _ d e refl))
            λ _. audit_user-Retains b user id _ _)
