-- ===== src/Users/Safety.antt =====
-- What `UpdateUser` keeps, however it ends.
use finance_project.Prelude.{
  str_eq, eq_iff, String, Bool, true, false, Option, none, some, All, map, ◌≡◌, ◌≢◌, ◌⊎◌, inl, inr,
  refl, sym, ap, ◌∙◌, subst, Bool-cases, ◌==◌,
}
use finance_project.Models.{User, users, events, outbox, Table}
use finance_project.Action.{Result, ok, err, >>=-elim, pure-ok, from_result-ok}
use finance_project.Platform.{Platform}
use finance_project.Platform.Reply.{done}
use finance_project.Platform.Updates.{Value, text, Updates, lookup, OnlyUnder, without}
use finance_project.Platform.Updates.Lookup.{lookup-without, lookup-without_self}
use finance_project.Platform.Runtime.{Changes}
use finance_project.Session.{World}
use finance_project.Session.Laws.{exec-ok}
use finance_project.Session.Keeps.{
  Keeps, Keeps-bind, Keeps-then, Keeps-query, Keeps-missing, Keeps-transaction,
}
use finance_project.Session.Rows.{All-update_where, map-update_where}
use finance_project.Audit.Atomic.{log_event-Logged, build_audit_event-ok}
use finance_project.Auth.{is_valid_role, invalid_role}
use finance_project.Users.{
  without_password, get_user_by_id, check_role_value, audit_user, update_user_body, update_user,
}

module _ (P : Platform) where
  pub audit_user-others :
      (audited : Bool) (user : User) (id action : String) (diff : Changes P.Decimal) (w : World P)
      {u : World P} {x : Unit {0}}
      → audit_user P audited user id action diff w ≡ (ok x, u)
      → (t : Table) → t ≢ events
      → t ≢ outbox
      → P.rows t u.db ≡ P.rows t w.db
  unfolding audit_user
  audit_user-others false user id action diff w h t n m =
      let to_u = (pure-ok h).1 in rw (← to_u) refl
  audit_user-others true user id action diff w h t n m = >>=-elim _ _ w h λ event w₁ built logged.
      let (_, _, _, _, _, same) = build_audit_event-ok P _ _ _ _ _ _ _ w built in
      (log_event-Logged P event w₁ logged).others t n m ∙ ap (P.rows t) same

  get_user_by_id-Keeps : (I : P.Db → Type 0) (id : String) → Keeps P I (get_user_by_id P id)
  unfolding get_user_by_id
  get_user_by_id-Keeps I id = Keeps-then P I _ _ (Keeps-query P I _ _) (Keeps-missing P I _)

  -- What the new values keep in each row of the users, the whole operation keeps.
  update_user-Keeps :
      (I : P.Db → Type 0) (audited : Bool) (id : String) (m : Updates P.Decimal)
      → ((d e : P.Db) → P.rows users e ≡ P.rows users d → I d → I e)
      → (check_role_value P (lookup "role" (without_password m)) ≡ ok tt
          → (user : User) (d e : P.Db)
          → P.update_map users (λ u. u.id == user.id) (without_password m) d ≡ done e
          → I d
          → I e)
      → Keeps P I (update_user P audited id m)
  unfolding update_user update_user_body
  update_user-Keeps I audited id m stable step =
      Keeps-then P I _ _ (get_user_by_id-Keeps I id) λ user.
        Keeps-bind P I _ _ (λ w i. i)
          λ _ w u checked i.
            Keeps-then P I _ _
              (Keeps-transaction P I (update_user_body P audited user id (without_password m))
                (λ d e same. stable d e (same users))
                (λ x w₁ u₁ h i₁. body user w₁ u₁ (from_result-ok _ w checked).0 h i₁))
              (λ _. Keeps-then P I _ _ (Keeps-query P I _ _) (Keeps-missing P I _)) u i
    where
      body :
          (user : User) (w u : World P) {x : Unit {0}}
          → check_role_value P (lookup "role" (without_password m)) ≡ ok tt
          → update_user_body P audited user id (without_password m) w ≡ (ok x, u)
          → I w.db
          → I u.db
      body user w u checked h i = >>=-elim _ _ w h λ _ w₁ updated logged.
          let (accepted, _) = exec-ok P _ _ w updated in
          stable w₁.db u.db (audit_user-others audited _ _ _ _ w₁ logged users (λ q. cc) (λ q. cc))
            (step checked user w.db w₁.db accepted i)

  checked_role :
      (o : Option (Value P.Decimal))
      → check_role_value P o ≡ ok tt
      → (o ≡ none) ⊎ ((r : String) × (o ≡ some (text r)) × (is_valid_role r ≡ true))
  checked_role none h = inl refl
  checked_role (some (text r)) h = elim (Bool-cases (is_valid_role r)) [
    | inl known ↦ inr (r, refl, known)
    | inr unknown ↦ absurd (refused (rw unknown at h))
  ]
    where
      refused : ◌≡◌ {A = Result (Unit {0})} (err invalid_role) (ok tt) → ⊥
      refused e = cc
  checked_role (some (Value.number _)) h = cc
  checked_role (some (Value.decimal _)) h = cc
  checked_role (some (Value.flag _)) h = cc
  checked_role (some Value.null) h = cc
  checked_role (some Value.compound) h = cc

  -- No key but the two that the code deletes names the password.
  abbrev pub NoOtherPassword : Updates P.Decimal → Type 0
  NoOtherPassword m =
      (k : String)
      → str_eq k "password" ≡ false
      → str_eq k "Password" ≡ false
      → P.columns.field_of users k ≡ "password"
      → lookup k m ≡ none

  -- Any other key keeps its value.
  others_kept :
      (k : String) (m : Updates P.Decimal)
      → str_eq k "password" ≡ false
      → str_eq k "Password" ≡ false
      → lookup k (without_password m) ≡ lookup k m
  others_kept k m lower upper =
      lookup-without k "Password" (without "password" m) upper ∙ lookup-without k "password" m lower

  no_password :
      (m : Updates P.Decimal)
      → NoOtherPassword m
      → (lookup "password" (without_password m) ≡ none)
        × OnlyUnder (P.columns.field_of users) "password" (without_password m)
  no_password m no_other = (
    lookup-without "password" "Password" (without "password" m) refl
        ∙ lookup-without_self "password" m,
    λ k other names. elim (Bool-cases (str_eq k "Password")) [
      | inl upper ↦
          ap (λ j. lookup j (without_password m)) ((eq_iff k "Password").0 upper)
          ∙ lookup-without_self "Password" (without "password" m)
      | inr neither ↦ others_kept k m other neither ∙ no_other k other neither names
    ],
  )

  -- The deletion of the password leaves the role under its own key.
  only_role :
      (m : Updates P.Decimal)
      → OnlyUnder (P.columns.field_of users) "role" m
      → OnlyUnder (P.columns.field_of users) "role" (without_password m)
  only_role m only k other names = elim (Bool-cases (str_eq k "password")) [
    | inl lower ↦
        ap (λ j. lookup j (without_password m)) ((eq_iff k "password").0 lower)
        ∙ lookup-without "password" "Password" (without "password" m) refl
        ∙ lookup-without_self "password" m
    | inr not_lower ↦ elim (Bool-cases (str_eq k "Password")) [
      | inl upper ↦
          ap (λ j. lookup j (without_password m)) ((eq_iff k "Password").0 upper)
          ∙ lookup-without_self "Password" (without "password" m)
      | inr neither ↦ others_kept k m not_lower neither ∙ only k other names
    ]
  ]

  new_role :
      (m : Updates P.Decimal) (u : User)
      → check_role_value P (lookup "role" (without_password m)) ≡ ok tt
      → OnlyUnder (P.columns.field_of users) "role" (without_password m)
      → is_valid_role u.role ≡ true
      → is_valid_role (P.columns.assign users (without_password m) u).role ≡ true
  new_role m u checked named known = elim (checked_role _ checked) [
    | inl absent ↦ rw (P.columns.keep_role (without_password m) u absent named) known
    | inr (r, given, valid) ↦ rw (P.columns.assign_role (without_password m) u r given named) valid
  ]

  -- However UpdateUser ends and whatever it is asked to change, the password hashes of the users are
  -- as they were, in order, if no key of the request but password and Password, which the code
  -- deletes, names that column; and if all users have a known role and no key of the request but role
  -- names that column, they still have.
  pub update_user-keeps_passwords :
      (audited : Bool) (id : String) (m : Updates P.Decimal) (w : World P)
      → NoOtherPassword m
      → (map (λ u. u.password) (P.rows users (update_user P audited id m w).1.db)
          ≡ map (λ u. u.password) (P.rows users w.db))
        × (OnlyUnder (P.columns.field_of users) "role" m
            → All (λ u. is_valid_role u.role ≡ true) (P.rows users w.db)
            → All
                (λ u. is_valid_role u.role ≡ true)
                (P.rows users (update_user P audited id m w).1.db))
  update_user-keeps_passwords audited id m w no_other =
      let (lower, upper) = no_password m no_other in
      let rows = λ (user : User) (d e : P.Db).
        P.update_map_rows users (λ u. u.id == user.id) (without_password m) d e in
      (
        update_user-Keeps
            (λ d.
              map (λ u. u.password) (P.rows users d) ≡ map (λ u. u.password) (P.rows users w.db))
            audited id m (λ d e same i. ap (map (λ u. u.password)) same ∙ i)
            (λ checked user d e h i.
              ap (map (λ u. u.password)) (rows user d e h)
              ∙ map-update_where (λ u. u.password) _ (P.columns.assign users (without_password m))
                  (λ u. P.columns.keep_password (without_password m) u lower upper) (P.rows users d)
              ∙ i)
            w refl,
        λ plain valid.
            let named = only_role m plain in
            update_user-Keeps (λ d. All (λ u. is_valid_role u.role ≡ true) (P.rows users d)) audited
              id m (λ d e same i. subst (All _) (sym same) i)
              (λ checked user d e h i. subst (All _) (sym (rows user d e h)) (
                All-update_where (λ u. is_valid_role u.role ≡ true) _
                  (P.columns.assign users (without_password m))
                  (λ u known. new_role m u checked named known) (P.rows users d) i))
              w valid,
      )
