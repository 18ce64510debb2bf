-- ===== src/Auth/Registration.antt =====
-- What a registration has done.
use finance_project.Prelude.{
  eq_iff, ◌⊎◌, ℕ, String, ◌≡◌, ◌≢◌, refl, sym, ap, ◌∙◌, subst, Bool, true, false, List, [], ◌∷◌,
  ◌++◌, All, All-of_members, Bool-cases, inl, inr, str_eq, arith,
}
use finance_project.Models.{
  Uuid, Account, User, Table, users, accounts, events, outbox, role_admin, nil_uuid,
}
use finance_project.Action.{ok, >>=-elim, pure-ok}
use finance_project.Platform.{Platform}
use finance_project.Platform.Reply.{done}
use finance_project.Session.{World}
use finance_project.Session.Laws.{SameRows, query-ok, create-elim, transaction-elim}
use finance_project.Audit.Atomic.{log_event-Logged, build_audit_event-ok}
use finance_project.Accounts.Defaults.{AccountsOpened, create_default_accounts-AccountsOpened}
use finance_project.Auth.{
  AuthService, is_valid_role, role_or_viewer, require_none, hash_password, open_accounts,
  audit_registration, register_body, register,
}

module _ (P : Platform) where
  -- An account of the user in INR, without a balance.
  abbrev pub opening : Uuid → String → String → Account P.Decimal
  opening user_id name account_type = record {
    id = nil_uuid;
    user_id = user_id;
    name = name;
    account_type = account_type;
    currency = "INR";
    balance = P.dec_zero;
  }

  -- The accounts of a new user: three if there is an account service.
  abbrev pub AccountsFor : Bool → User → P.Db → P.Db → Type 0
  AccountsFor false user d e = P.rows accounts e ≡ P.rows accounts d
  AccountsFor true user d e =
      (f g : P.Db) × AccountsOpened P
        (opening user.id "Cash" "asset"
          ∷ opening user.id "Revenue" "revenue"
          ∷ opening user.id "Expenses" "expense"
          ∷ [])
        f g
      × (P.rows accounts f ≡ P.rows accounts d)
      × (P.rows accounts e ≡ P.rows accounts g)

  -- Between `d` and `e` the user has been registered.
  pub record IsRegistered (s : AuthService) (name email password role : String) (user : User)
      (d e : P.Db) : Type 0 where
    pub salt : ℕ
    pub as_requested : user ≡ record {
      id = user.id;
      name = name;
      email = email;
      password = user.password;
      role = role;
      is_active = true;
    }
    pub identified : user.id ≢ nil_uuid
    pub hashed : P.bcrypt_hash salt password ≡ done user.password
    pub email_free : All (λ u. str_eq u.email email ≡ false) (P.rows users d)
    pub user_rows : P.rows users e ≡ P.rows users d ++ user ∷ []
    pub opened : AccountsFor s.has_accounts user d e
    pub others :
        (t : Table) → t ≢ users → t ≢ accounts → t ≢ events → t ≢ outbox → P.rows t e ≡ P.rows t d

  require_none-ok :
      (found : List User) (w : World P) {u : World P} {x : Unit {0}}
      → require_none P found w ≡ (ok x, u)
      → (found ≡ []) × (w ≡ u)
  require_none-ok [] w h = (refl, (pure-ok h).1)
  require_none-ok (r ∷ rs) w h = cc (ap (λ p. p.0) h)

  hash_password-ok :
      (password : String) (w : World P) {u : World P} {hash : String}
      → hash_password P password w ≡ (ok hash, u)
      → (P.bcrypt_hash w.calls password ≡ done hash) × (u.db ≡ w.db)
  unfolding hash_password
  hash_password-ok password w h = ground arith

  -- A query that finds no row has met none.
  none_selected :
      (email : String) (d : P.Db)
      → P.select users (λ u. str_eq u.email email) d ≡ done []
      → All (λ u. str_eq u.email email ≡ false) (P.rows users d)
  none_selected email d selected = All-of_members _ (P.rows users d) λ r m.
      elim (Bool-cases (str_eq r.email email)) [
        | inl hit ↦ elim (P.select_complete users _ d [] selected r m refl hit) [ ]
        | inr miss ↦ miss
      ]

  open_accounts-AccountsFor :
      (b : Bool) (user : User) (w : World P) {u : World P} {x : Unit {0}}
      → open_accounts P b user w ≡ (ok x, u)
      → AccountsFor b user w.db u.db × ((t : Table) → t ≢ accounts → P.rows t u.db ≡ P.rows t w.db)
  open_accounts-AccountsFor false user w h =
      let to_u = (pure-ok h).1 in (rw (← to_u) refl, λ t n. rw (← to_u) refl)
  open_accounts-AccountsFor true user w {u} h =
      let opened = create_default_accounts-AccountsOpened P user.id w h in
      ((w.db, u.db, opened, refl, refl), opened.others)

  audit_registration-others :
      (b : Bool) (user : User) (role : String) (w : World P) {u : World P} {x : Unit {0}}
      → audit_registration P b user role w ≡ (ok x, u)
      → (t : Table) → t ≢ events
      → t ≢ outbox
      → P.rows t u.db ≡ P.rows t w.db
  audit_registration-others false user role w h t n m = let to_u = (pure-ok h).1 in rw (← to_u) refl
  audit_registration-others true user role w h t n m = >>=-elim _ _ w h λ event w₁ built logged.
      let (_, _, _, _, _, same) = build_audit_event-ok P _ _ _ _ _ _ _ w built in
      (log_event-Logged P event w₁ logged).others t n m ∙ ap (P.rows t) same

  AccountsFor-congr :
      (b : Bool) (user : User) {d e : P.Db} (d' e' : P.Db)
      → P.rows accounts d ≡ P.rows accounts d'
      → P.rows accounts e' ≡ P.rows accounts e
      → AccountsFor b user d e
      → AccountsFor b user d' e'
  AccountsFor-congr false user d' e' p q h = q ∙ h ∙ p
  AccountsFor-congr true user d' e' p q (f, g, opened, r, r') = (f, g, opened, r ∙ p, q ∙ r')

  register_body-IsRegistered :
      (s : AuthService) (name email password role : String) (w : World P) {u : World P}
      {user : User}
      → register_body P s name email password role w ≡ (ok user, u)
      → IsRegistered s name email password role user w.db u.db
  unfolding register_body
  register_body-IsRegistered s name email password role w {u} {user} h =
      >>=-elim _ _ w h λ same w₁ queried r₁. >>=-elim _ _ w₁ r₁ λ _ w₂ free r₂.
        >>=-elim _ _ w₂ r₂ λ hash w₃ made r₃. >>=-elim _ _ w₃ r₃ λ row w₄ stored r₄.
          >>=-elim _ _ w₄ r₄ λ _ w₅ accounts_ok r₅. >>=-elim _ _ w₅ r₅ λ _ w₆ audited returned.
            create-elim P users _ nil_uuid _ w₃ stored λ id is_row identified _ added kept.
              let (selected, to_w₁) = query-ok P _ _ w queried in
              let (empty, to_w₂) = require_none-ok same w₁ free in
              let (hashed, to_w₃) = hash_password-ok password w₂ made in
              let (opened, opened_others) = open_accounts-AccountsFor _ row w₄ accounts_ok in
              let audit_others = audit_registration-others _ row role w₅ audited in
              let (is_user, to_u) = pure-ok returned in
              let from_w : w₃.db ≡ w.db = to_w₃ ∙ ap (λ v. v.db) (sym to_w₂ ∙ to_w₁) in
              record {
                salt = w₂.calls;
                as_requested = rw (← is_user, ← is_row) refl;
                identified = rw (← is_user, ← is_row) identified;
                hashed = rw (← is_user, ← is_row) hashed;
                email_free = none_selected email w.db (selected ∙ ap done empty);
                user_rows =
                    rw
                      (
                        ← to_u,
                        audit_others users (λ q. cc) (λ q. cc),
                        opened_others users (λ q. cc),
                        ← is_user,
                        ← from_w,
                      )
                      added;
                opened =
                    subst (λ r. AccountsFor s.has_accounts r w.db u.db) is_user
                      (AccountsFor-congr s.has_accounts row w.db u.db
                        (kept accounts (λ q. cc) ∙ ap (P.rows accounts) from_w)
                        (ap (λ v. P.rows accounts v.db) (sym to_u)
                          ∙ audit_others accounts (λ q. cc) (λ q. cc))
                        opened);
                others = λ t n n₁ n₂ n₃.
                    ap (λ v. P.rows t v.db) (sym to_u)
                    ∙ audit_others t n₂ n₃
                    ∙ opened_others t n₁
                    ∙ kept t n
                    ∙ ap (P.rows t) from_w;
              }

  -- A registration depends on the rows of the databases only.
  IsRegistered-congr :
      (s : AuthService) (name email password role : String) {user : User} {d e d' e' : P.Db}
      → SameRows P d' d
      → SameRows P e e'
      → IsRegistered s name email password role user d e
      → IsRegistered s name email password role user d' e'
  IsRegistered-congr s name email password role {user} {d} {e} {d'} {e'} before after r = record {
    salt = r.salt;
    as_requested = r.as_requested;
    identified = r.identified;
    hashed = r.hashed;
    email_free = subst (All (λ u. str_eq u.email email ≡ false)) (before users) r.email_free;
    user_rows = after users ∙ r.user_rows ∙ ap (λ rs. rs ++ user ∷ []) (before users);
    opened =
        AccountsFor-congr s.has_accounts user d' e' (before accounts) (after accounts) r.opened;
    others = λ t n n₁ n₂ n₃. after t ∙ r.others t n n₁ n₂ n₃ ∙ before t;
  }

  -- The roles that a registration grants: viewer, by default, and analyst.
  abbrev pub IsGranted : String → String → Type 0
  IsGranted role granted =
      ((granted ≡ "viewer") × ((role ≡ "") ⊎ (role ≡ "viewer")))
      ⊎ ((granted ≡ "analyst") × (role ≡ "analyst"))

  role_or_viewer-IsGranted :
      (role : String)
      → str_eq (role_or_viewer role) role_admin ≡ false
      → is_valid_role (role_or_viewer role) ≡ true
      → IsGranted role (role_or_viewer role)
  role_or_viewer-IsGranted role other valid = elim (Bool-cases (str_eq role "")) [
    | inl empty ↦ inl (rw empty refl, inl ((eq_iff role "").0 empty))
    | inr given ↦
        let same : role_or_viewer role ≡ role = rw given refl in
        elim (Bool-cases (str_eq role "viewer")) [
          | inl viewer ↦
              let is_viewer = (eq_iff role "viewer").0 viewer in
              inl (same ∙ is_viewer, inr is_viewer)
          | inr no_viewer ↦ elim (Bool-cases (str_eq role "analyst")) [
            | inl analyst ↦
                let is_analyst = (eq_iff role "analyst").0 analyst in
                inr (same ∙ is_analyst, is_analyst)
            | inr no_analyst ↦
                absurd (ground (arith, rw same at other, rw same at valid, no_viewer, no_analyst))
          ]
        ]
  ]

  -- A user whom Register returns has the role that was asked for, viewer or analyst, or is a viewer if
  -- none was: no request makes an admin. No stored user had the email; the user has been added, active, with a hash of the password, and
  -- so have the three default accounts if there is an account service, which have
  -- no balance; and nothing else has changed but the audit trail.
  pub register-IsRegistered :
      (s : AuthService) (name email password role : String) (w : World P) {u : World P}
      {user : User}
      → register P s name email password role w ≡ (ok user, u)
      → (granted : String) × IsGranted role granted
        × IsRegistered s name email password granted user w.db u.db
  unfolding register
  register-IsRegistered s name email password role w {u} {user} h =
      elim (Bool-cases (str_eq (role_or_viewer role) role_admin)) [
        | inl admin ↦ cc (ap (λ p. p.0) (rw admin at h))
        | inr other ↦ elim (Bool-cases (is_valid_role (role_or_viewer role))) [
          | inr invalid ↦ cc (ap (λ p. p.0) (rw other at (rw invalid at h)))
          | inl valid ↦
              transaction-elim P (register_body P s name email password (role_or_viewer role)) w
                (rw other at (rw valid at h))
                λ d v begun returned committed. (
                  role_or_viewer role,
                  role_or_viewer-IsGranted role other valid,
                  IsRegistered-congr s name email password (role_or_viewer role) begun committed (
                      register_body-IsRegistered s name email password (role_or_viewer role)
                        (record w { db = d }) returned),
                )
        ]
      ]
