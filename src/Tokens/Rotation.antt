-- ===== src/Tokens/Rotation.antt =====
-- What a refresh has done when it returns a new pair.
use finance_project.Prelude.{
  ℕ, String, ◌≡◌, ◌≢◌, refl, sym, ap, ◌∙◌, Bool, true, false, Option, none, some, List, str_eq,
  ◌==◌, ==_iff, Bool-cases, inl, inr, if◌then◌else◌,
}
use mathlib.Core.List.{Memᴰ}
use finance_project.Errors.{GoError}
use finance_project.Models.{User, RefreshToken, Table, users, tokens, is_revoked, is_expired}
use finance_project.Action.{ok, ◌>>=◌, >>=-elim, pure-ok}
use finance_project.Platform.{Platform}
use finance_project.Platform.Reply.{done, failed}
use finance_project.Platform.Database.{update_where}
use finance_project.Session.{or_missing, World, attempt, read_clock}
use finance_project.Session.Laws.{query-ok, Reply-cases}
use finance_project.Tokens.{
  TokenService, hash_token, set_family, replace_by, link_tokens, rotate, refuse_reuse,
  refresh_tokens, require_unexpired, require_active,
}
use finance_project.Tokens.Issue.{IsIssued, issue_token_pair-IsIssued}

-- An update that the database may have refused.
abbrev pub applied {ℓ} : {A : Type ℓ} → Bool → (A → Bool) → (A → A) → List A → List A
applied accepted p f rs = if accepted then update_where p f rs else rs

module _ (P : Platform) where
  -- The token was presented by its text, and is neither revoked nor expired; its user is active.
  pub record MayRefresh (raw : String) (existing : RefreshToken) (user : User) (d : P.Db)
      : Type 0 where
    pub known : Memᴰ existing (P.rows tokens d)
    pub presented : str_eq existing.token_hash (hash_token P raw) ≡ true
    pub live : is_revoked existing ≡ false
    pub checked_at : ℕ
    pub unexpired : is_expired (P.time_now checked_at) existing ≡ false
    pub user_known : Memᴰ user (P.rows users d)
    pub owner : user.id ≡ existing.user_id
    pub active : user.is_active ≡ true

  -- Between `d` and `e` the tokens have been linked, by two updates that may have been refused.
  pub record IsLinked (existing : RefreshToken) (refresh : String) (d e : P.Db) : Type 0 where
    pub fresh : RefreshToken
    pub fresh_known : Memᴰ fresh (P.rows tokens d)
    pub fresh_presented : str_eq fresh.token_hash (hash_token P refresh) ≡ true
    pub now : ℕ
    pub linked : Bool
    pub retired : Bool
    pub token_rows :
        P.rows tokens e
        ≡ applied retired
            (λ t. t.id == existing.id)
            (replace_by now fresh.id)
            (applied linked
              (λ t. t.id == fresh.id)
              (set_family existing.family_id)
              (P.rows tokens d))
    pub others : (t : Table) → t ≢ tokens → P.rows t e ≡ P.rows t d
    -- an update was refused only by the database
    pub unlinked :
        linked ≡ false
        → (f : P.Db) × (c : String) × (P.update tokens
              (λ t. t.id == fresh.id)
              (set_family existing.family_id)
              f
            ≡ failed c)
    pub refused :
        retired ≡ false
        → (f : P.Db) × (c : String) × (P.update tokens
              (λ t. t.id == existing.id)
              (replace_by now fresh.id)
              f
            ≡ failed c)

  attempt-ok :
      (p : RefreshToken → Bool) (f : RefreshToken → RefreshToken) (w : World P) {u : World P}
      {x : Unit {0}}
      → attempt P (P.update tokens p f) w ≡ (ok x, u)
      → (accepted : Bool) × (P.rows tokens u.db ≡ applied accepted p f (P.rows tokens w.db))
        × ((t : Table) → t ≢ tokens → P.rows t u.db ≡ P.rows t w.db)
        × (accepted ≡ false → (c : String) × (P.update tokens p f w.db ≡ failed c))
  unfolding attempt
  attempt-ok p f w {u} h = elim (Reply-cases (P.update tokens p f w.db)) [
    | inl (e, accepted) ↦
        let to_u = (pure-ok (rw (accepted, attempt) at h)).1 in
        (
          true,
          rw (← to_u) (P.update_rows tokens p f w.db e accepted),
          λ t n. rw (← to_u) (P.update_others tokens t p f w.db e n accepted),
          λ k. cc,
        )
    | inr (c, refused) ↦
        let to_u = (pure-ok (rw (refused, attempt) at h)).1 in
        (false, rw (← to_u) refl, λ t n. rw (← to_u) refl, λ k. (c, refused))
  ]

  pub or_missing-ok :
      {A : Type 0} (error : GoError) (o : Option A) (w : World P) {u : World P} {a : A}
      → or_missing P error o w ≡ (ok a, u)
      → (o ≡ some a) × (w ≡ u)
  or_missing-ok error none w h = cc (ap (λ p. p.0) h)
  or_missing-ok error (some a) w h = let (e, q) = pure-ok h in (ap some e, q)

  link_tokens-IsLinked :
      (existing : RefreshToken) (refresh : String) (w : World P) {u : World P} {x : Unit {0}}
      → link_tokens P existing refresh w ≡ (ok x, u)
      → IsLinked existing refresh w.db u.db
  unfolding link_tokens read_clock
  link_tokens-IsLinked existing refresh w {u} h = >>=-elim _ _ w h λ now w₁ read r₁.
      >>=-elim _ _ w₁ r₁ λ found w₂ queried r₂. >>=-elim _ _ w₂ r₂ λ fresh w₃ there r₃.
        >>=-elim _ _ w₃ r₃ λ _ w₄ first second.
          let (_, ticked) = pure-ok read in
          let (selected, to_w₁) = query-ok P _ _ w₁ queried in
          let (is_fresh, to_w₃) = or_missing-ok _ found w₂ there in
          let (linked, rows₁, others₁, unlinked) = attempt-ok _ _ w₃ first in
          let (retired, rows₂, others₂, refused) = attempt-ok _ _ w₄ second in
          let same : w₃.db ≡ w.db = ap (λ v. v.db) (sym to_w₃ ∙ to_w₁ ∙ sym ticked) in
          let known = P.first_some tokens _ w₁.db fresh (selected ∙ ap done is_fresh) in
          record {
            fresh = fresh;
            fresh_known = rw (ap (λ v. v.db) ticked) known.0;
            fresh_presented = known.2;
            now = now;
            linked = linked;
            retired = retired;
            token_rows = rw (rows₂, rows₁, same) refl;
            others = λ t n. others₂ t n ∙ others₁ t n ∙ ap (P.rows t) same;
            unlinked = λ k. let (c, e) = unlinked k in (w₃.db, c, e);
            refused = λ k. let (c, e) = refused k in (w₄.db, c, e);
          }

  require_unexpired-ok :
      (token : RefreshToken) (w : World P) {u : World P} {x : Unit {0}}
      → require_unexpired P token w ≡ (ok x, u)
      → (is_expired (P.time_now w.calls) token ≡ false) × (u.db ≡ w.db)
  unfolding read_clock ◌>>=◌
  require_unexpired-ok token w h = elim (Bool-cases (is_expired (P.time_now w.calls) token)) [
    | inl late ↦ cc (ap (λ p. p.0) (rw late at h))
    | inr early ↦ (early, ap (λ v. v.db) (sym (pure-ok (rw early at h)).1))
  ]

  require_active-ok :
      (user : User) (w : World P) {u : World P} {x : Unit {0}}
      → require_active P user w ≡ (ok x, u)
      → (user.is_active ≡ true) × (w ≡ u)
  require_active-ok user w h = elim (Bool-cases user.is_active) [
    | inl active ↦ (active, (pure-ok (rw active at h)).1)
    | inr idle ↦ cc (ap (λ p. p.0) (rw idle at h))
  ]

  -- A refresh from `d` to `e` that gave the pair: who it was for, the new pair, and the links.
  pub record IsRefreshed (s : TokenService) (raw : String) (pair : String × String) (d e : P.Db)
      : Type 0 where
    pub existing : RefreshToken
    pub user : User
    pub may_refresh : MayRefresh raw existing user d
    pub issued_db : P.Db
    pub issued : IsIssued P s user pair d issued_db
    pub linked : IsLinked existing pair.1 issued_db e

  refuse_reuse-ne-ok :
      (existing : RefreshToken) (w : World P) {u : World P} {pair : String × String}
      → refuse_reuse P existing w ≢ (ok pair, u)
  unfolding refuse_reuse
  refuse_reuse-ne-ok existing w h = >>=-elim _ _ w h λ _ w₁ _ failed. cc (ap (λ p. p.0) failed)

  rotate-IsRefreshed :
      (s : TokenService) (raw : String) (existing : RefreshToken) (w : World P) {u : World P}
      {pair : String × String}
      → Memᴰ existing (P.rows tokens w.db)
      → str_eq existing.token_hash (hash_token P raw) ≡ true
      → is_revoked existing ≡ false
      → rotate P s existing w ≡ (ok pair, u)
      → IsRefreshed s raw pair w.db u.db
  unfolding rotate
  rotate-IsRefreshed s raw existing w {u} {pair} known presented live h =
      >>=-elim _ _ w h λ _ w₁ in_time r₁. >>=-elim _ _ w₁ r₁ λ found w₂ queried r₂.
        >>=-elim _ _ w₂ r₂ λ user w₃ there r₃. >>=-elim _ _ w₃ r₃ λ _ w₄ enabled r₄.
          >>=-elim _ _ w₄ r₄ λ issued_pair w₅ issued r₅. >>=-elim _ _ w₅ r₅ λ _ w₆ linked returned.
            let (unexpired, to_w₁) = require_unexpired-ok existing w in_time in
            let (selected, to_w₂) = query-ok P _ _ w₁ queried in
            let (is_user, to_w₃) = or_missing-ok _ found w₂ there in
            let (active, to_w₄) = require_active-ok user w₃ enabled in
            let (is_pair, to_u) = pure-ok returned in
            let user_row = P.first_some users _ w₁.db user (selected ∙ ap done is_user) in
            let same : w₄.db ≡ w.db = ap (λ v. v.db) (sym to_w₄ ∙ sym to_w₃ ∙ to_w₂) ∙ to_w₁ in
            record {
              existing = existing;
              user = user;
              may_refresh = record {
                known = known;
                presented = presented;
                live = live;
                checked_at = w.calls;
                unexpired = unexpired;
                user_known = rw (← to_w₁) user_row.0;
                owner = (==_iff user.id existing.user_id).0 user_row.2;
                active = active;
              };
              issued_db = w₅.db;
              issued = rw (← is_pair, ← same) (issue_token_pair-IsIssued P s user w₄ issued);
              linked =
                  rw (← is_pair, ← to_u) (link_tokens-IsLinked existing issued_pair.1 w₅ linked);
            }

  pub refresh_tokens-IsRefreshed :
      (s : TokenService) (raw : String) (w : World P) {u : World P} {pair : String × String}
      → refresh_tokens P s raw w ≡ (ok pair, u)
      → IsRefreshed s raw pair w.db u.db
  unfolding refresh_tokens
  refresh_tokens-IsRefreshed s raw w {u} {pair} h = >>=-elim _ _ w h λ found w₁ queried r₁.
      >>=-elim _ _ w₁ r₁ λ existing w₂ there rest.
        let (selected, to_w₁) = query-ok P _ _ w queried in
        let (is_existing, to_w₂) = or_missing-ok _ found w₁ there in
        let row = P.first_some tokens _ w.db existing (selected ∙ ap done is_existing) in
        let rest_from_w = rw (sym to_w₂ ∙ to_w₁) at rest in
        elim (Bool-cases (is_revoked existing)) [
          | inl revoked ↦ absurd (refuse_reuse-ne-ok existing w (rw revoked at rest_from_w))
          | inr live ↦ rotate-IsRefreshed s raw existing w row.0 row.2 live (rw live at rest_from_w)
        ]
