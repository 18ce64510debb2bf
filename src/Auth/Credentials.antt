-- ===== src/Auth/Credentials.antt =====
-- Who can log in, and what a login leaves behind.
use finance_project.Prelude.{
  String, ◌≡◌, ◌≢◌, refl, sym, ap, ◌∙◌, Bool, true, false, Option, none, some, Bool-cases, inl, inr,
  str_eq, not, if◌then◌else◌,
}
use mathlib.Core.List.{Memᴰ}
use finance_project.Models.{User, AuditEvent, Table, users, events, outbox}
use finance_project.Action.{Result, ok, err, panic, >>=-elim, pure-ok, ◌>>=◌}
use finance_project.Platform.{Platform}
use finance_project.Platform.Reply.{done}
use finance_project.Session.{World, transaction, query}
use finance_project.Session.Laws.{query-ok, transaction-elim, transaction_atomic}
use finance_project.Errors.{GoError}
use finance_project.Audit.{log_event}
use finance_project.Audit.Atomic.{log_event-Logged, build_audit_event-ok}
use finance_project.Tokens.{TokenService, ignored}
use finance_project.Tokens.Issue.{IsIssued, issue_token_pair-IsIssued}
use finance_project.Tokens.Rotation.{or_missing-ok}
use finance_project.Auth.{
  AuthService, require_enabled, check_password, issue_for, audit_login_of, login, bad_credentials,
  account_deactivated,
}

module _ (P : Platform) where
  -- Between `d` and `e` the user has logged in with these credentials.
  pub record IsLoggedIn (s : AuthService) (email password : String) (pair : String × String)
      (user : User) (d e : P.Db) : Type 0 where
    pub known : Memᴰ user (P.rows users d)
    pub has_email : str_eq user.email email ≡ true
    pub active : user.is_active ≡ true
    pub authentic : P.bcrypt_matches user.password password ≡ true
    pub service : TokenService
    pub configured : s.token_service ≡ some service
    pub issued_db : P.Db
    pub issued : IsIssued P service user pair d issued_db
    pub others : (t : Table) → t ≢ events → t ≢ outbox → P.rows t e ≡ P.rows t issued_db

  require_enabled-ok :
      (user : User) (w : World P) {u : World P} {x : Unit {0}}
      → require_enabled P user w ≡ (ok x, u)
      → (user.is_active ≡ true) × (w ≡ u)
  require_enabled-ok user w h = elim (Bool-cases user.is_active) [
    | inl active ↦ (active, (pure-ok (rw active at h)).1)
    | inr idle ↦ cc (ap (λ p. p.0) (rw idle at h))
  ]

  check_password-ok :
      (user : User) (password : String) (w : World P) {u : World P} {x : Unit {0}}
      → check_password P user password w ≡ (ok x, u)
      → (P.bcrypt_matches user.password password ≡ true) × (w ≡ u)
  check_password-ok user password w h =
      elim (Bool-cases (P.bcrypt_matches user.password password)) [
        | inl match ↦ (match, (pure-ok (rw match at h)).1)
        | inr wrong ↦ cc (ap (λ p. p.0) (rw wrong at h))
      ]

  issue_for-IsIssued :
      (o : Option TokenService) (user : User) (w : World P) {u : World P} {pair : String × String}
      → issue_for P o user w ≡ (ok pair, u)
      → (s : TokenService) × (o ≡ some s) × IsIssued P s user pair w.db u.db
  issue_for-IsIssued none user w h = cc (ap (λ p. p.0) h)
  issue_for-IsIssued (some s) user w h = (s, refl, issue_token_pair-IsIssued P s user w h)

  -- Whether or not the event of a login is stored, the other tables stay as they were.
  logged_or_not :
      (event : AuditEvent) (w : World P) (t : Table)
      → t ≢ events
      → t ≢ outbox
      → P.rows t (transaction P (log_event P event) w).1.db ≡ P.rows t w.db
  logged_or_not event w t n m = go (transaction P (log_event P event) w) refl
    where
      atomic :
          ((a : Unit {0}) → (transaction P (log_event P event) w).0 ≢ ok a)
          → P.rows t (transaction P (log_event P event) w).1.db ≡ P.rows t w.db
      atomic failed = transaction_atomic P (log_event P event) w failed t

      go :
          (x : Result (Unit {0}) × World P)
          → transaction P (log_event P event) w ≡ x
          → P.rows t (transaction P (log_event P event) w).1.db ≡ P.rows t w.db
      go (ok a, u) e = transaction-elim P (log_event P event) w e λ d v begun logged committed.
          ap (λ p. P.rows t p.1.db) e
          ∙ committed t
          ∙ (log_event-Logged P event (record w { db = d }) logged).others t n m
          ∙ begun t
      go (err c, u) e = atomic (λ a h. cc (ap (λ p. p.0) e, h))
      go (panic, u) e = atomic (λ a h. cc (ap (λ p. p.0) e, h))

  audit_login_of-others :
      (b : Bool) (user : User) (request_id ip_address : String) (w : World P) {u : World P}
      {x : Unit {0}}
      → audit_login_of P b user request_id ip_address w ≡ (ok x, u)
      → (t : Table) → t ≢ events
      → t ≢ outbox
      → P.rows t u.db ≡ P.rows t w.db
  unfolding ignored
  audit_login_of-others false user request_id ip_address w h t n m =
      let to_u = (pure-ok h).1 in rw (← to_u) refl
  audit_login_of-others true user request_id ip_address w h t n m =
      >>=-elim _ _ w h λ event w₁ built dropped.
        let (_, _, _, _, _, same) = build_audit_event-ok P _ _ _ _ _ _ _ w built in
        ap (λ p. P.rows t p.1.db) (sym dropped) ∙ logged_or_not event w₁ t n m ∙ ap (P.rows t) same

  -- When Login returns, the returned user is stored under the email, is active, and has a password
  -- hash that matches the password; a pair of tokens has been issued to that user; and nothing
  -- else has changed but the audit trail, whether or not the event of the login could be stored.
  pub login-IsLoggedIn :
      (s : AuthService) (email password request_id ip_address : String) (w : World P) {u : World P}
      {access refresh : String} {user : User}
      → login P s email password request_id ip_address w ≡ (ok (access, refresh, user), u)
      → IsLoggedIn s email password (access, refresh) user w.db u.db
  unfolding login
  login-IsLoggedIn s email password request_id ip_address w {u} {access} {refresh} {user} h =
      >>=-elim _ _ w h λ found w₁ queried r₁. >>=-elim _ _ w₁ r₁ λ row w₂ there r₂.
        >>=-elim _ _ w₂ r₂ λ _ w₃ enabled r₃. >>=-elim _ _ w₃ r₃ λ _ w₄ checked r₄.
          >>=-elim _ _ w₄ r₄ λ pair w₅ issued r₅. >>=-elim _ _ w₅ r₅ λ _ w₆ audited returned.
            let (selected, to_w₁) = query-ok P _ _ w queried in
            let (is_row, to_w₂) = or_missing-ok P _ found w₁ there in
            let (active, to_w₃) = require_enabled-ok row w₂ enabled in
            let (authentic, to_w₄) = check_password-ok row password w₃ checked in
            let (service, configured, is_issued) =
              issue_for-IsIssued s.token_service row w₄ issued in
            let (is_result, to_u) = pure-ok returned in
            let is_user : row ≡ user = ap (λ p. p.2) is_result in
            let is_pair : pair ≡ (access, refresh) = ap (λ p. (p.0, p.1)) is_result in
            let stored = P.first_some users _ w.db row (selected ∙ ap done is_row) in
            let same : w₄.db ≡ w.db = ap (λ v. v.db) (sym to_w₄ ∙ sym to_w₃ ∙ sym to_w₂ ∙ to_w₁) in
            record {
              known = rw (← is_user) stored.0;
              has_email = rw (← is_user) stored.2;
              active = rw (← is_user) active;
              authentic = rw (← is_user) authentic;
              service = service;
              configured = configured;
              issued_db = w₅.db;
              issued = rw (← is_user, ← is_pair, ← same) is_issued;
              others = λ t n m.
                  ap (λ v. P.rows t v.db) (sym to_u)
                  ∙ audit_login_of-others s.has_audit row request_id ip_address w₅ audited t n m;
            }

  -- How a login under a password is refused, by the user that the email has.
  abbrev pub refusal_of : String → Option User → Option GoError
  refusal_of password none = some bad_credentials
  refusal_of password (some user) =
      if not user.is_active
      then some account_deactivated
      else if P.bcrypt_matches user.password password
      then none
      else some bad_credentials

  -- If the database answers the look-up of the email, Login refuses an email that no user has and a
  -- wrong password with the same error, and a user who is not active with another one, whatever the
  -- password; then nothing changes, and no event is logged.
  pub login_refusals :
      (s : AuthService) (email password request_id ip_address : String) (w : World P)
      (found : Option User) (e : GoError)
      → P.first users (λ u. str_eq u.email email) w.db ≡ done found
      → refusal_of password found ≡ some e
      → login P s email password request_id ip_address w ≡ (err e, w)
  unfolding login ◌>>=◌ query
  login_refusals s email password request_id ip_address w none e answered refused =
      let same : bad_credentials ≡ e = cc (refused) in
      rw (answered, login, ◌>>=◌, query) (ap (λ x. (err x, w)) same)
  login_refusals s email password request_id ip_address w (some user) e answered refused =
      elim (Bool-cases user.is_active) [
        | inr idle ↦
            let same : account_deactivated ≡ e = cc (rw idle at refused) in
            rw (answered, idle, login, ◌>>=◌, query) (ap (λ x. (err x, w)) same)
        | inl active ↦ elim (Bool-cases (P.bcrypt_matches user.password password)) [
          | inl right ↦ cc (rw (active, right) at refused)
          | inr wrong ↦
              let same : bad_credentials ≡ e = cc (rw (active, wrong) at refused) in
              rw (answered, active, wrong, login, ◌>>=◌, query) (ap (λ x. (err x, w)) same)
        ]
      ]
