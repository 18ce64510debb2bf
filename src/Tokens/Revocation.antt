-- ===== src/Tokens/Revocation.antt =====
-- Revocation of the tokens of a user or a family, and of a family whose token is used twice.
use finance_project.Prelude.{
  ℕ, String, ◌≡◌, ◌≢◌, refl, sym, ap, ◌∙◌, subst, Bool, true, ◌&&◌, not, some, List, [], ◌∷◌, All,
  str_eq, ◌==◌, spared, Bool-cases, ◌⊎◌, inl, inr,
}
use finance_project.Models.{Uuid, RefreshToken, Table, tokens, is_revoked}
use finance_project.Action.{ok, err, ◌>>=◌, >>=-elim, >>=_of_ok, pure-ok}
use finance_project.Platform.{Platform}
use finance_project.Platform.Reply.{done}
use finance_project.Platform.Database.{update_where}
use finance_project.Session.{World, exec, read_clock}
use finance_project.Session.Laws.{exec-ok, Reply-cases, query_of_done}
use finance_project.Tokens.{
  TokenService, hash_token, is_live_of_family, revoke_at, ignored, revoke_all_user_tokens,
  revoke_token_family, refuse_reuse, refresh_tokens, token_reused,
}

-- Every token under the test has been revoked.
abbrev pub AllRevoked : (RefreshToken → Bool) → List RefreshToken → Type 0
AllRevoked p ts = All (λ t. p t ≡ true → is_revoked t ≡ true) ts

-- Revoking the live tokens under a test leaves none of them live.
revoke-AllRevoked :
    (p : RefreshToken → Bool) (now : ℕ)
    → ((t : RefreshToken) → p (revoke_at now t) ≡ p t)
    → (ts : List RefreshToken)
    → AllRevoked p (update_where (λ t. p t && not (is_revoked t)) (revoke_at now) ts)
revoke-AllRevoked p now stays [] = tt
revoke-AllRevoked p now stays (t ∷ ts) = (
  elim (Bool-cases (p t && not (is_revoked t))) [
    | inl live ↦ rw live (λ _. refl)
    | inr miss ↦ rw miss (spared (p t) (is_revoked t) miss)
  ],
  revoke-AllRevoked p now stays ts,
)

module _ (P : Platform) where
  -- From `d` to `e` the live tokens under a test have been revoked: none of them is left, and
  -- nothing else has changed.
  pub record IsRevokedIn (p : RefreshToken → Bool) (now : ℕ) (d e : P.Db) : Type 0 where
    pub all_revoked : AllRevoked p (P.rows tokens e)
    pub token_rows :
        P.rows tokens e
        ≡ update_where (λ t. p t && not (is_revoked t)) (revoke_at now) (P.rows tokens d)
    pub others : (t : Table) → t ≢ tokens → P.rows t e ≡ P.rows t d

  update-IsRevokedIn :
      (p : RefreshToken → Bool) (now : ℕ) (d e : P.Db)
      → ((t : RefreshToken) → p (revoke_at now t) ≡ p t)
      → P.update tokens (λ t. p t && not (is_revoked t)) (revoke_at now) d ≡ done e
      → IsRevokedIn p now d e
  update-IsRevokedIn p now d e stays h =
      let rows = P.update_rows tokens _ (revoke_at now) d e h in
      record {
        all_revoked =
            subst (AllRevoked p) (sym rows) (revoke-AllRevoked p now stays (P.rows tokens d));
        token_rows = rows;
        others = λ t n. P.update_others tokens t _ (revoke_at now) d e n h;
      }

  -- When RevokeAllUserTokens returns, every refresh token of the user is revoked: those that were
  -- live are revoked now, and no other token and no other table has changed.
  pub revoke_all_user_tokens-IsRevokedIn :
      (user_id : Uuid) (w : World P) {u : World P} {x : Unit {0}}
      → revoke_all_user_tokens P user_id w ≡ (ok x, u)
      → IsRevokedIn (λ t. t.user_id == user_id) (P.time_now w.calls) w.db u.db
  unfolding revoke_all_user_tokens read_clock
  revoke_all_user_tokens-IsRevokedIn user_id w {u} h = >>=-elim _ _ w h λ now w₁ read updated.
      let (is_now, ticked) = pure-ok read in
      let (e, _) = exec-ok P _ _ w₁ updated in
      update-IsRevokedIn (λ t. t.user_id == user_id) (P.time_now w.calls) w.db u.db (λ t. refl)
        (rw (is_now, ap (λ v. v.db) ticked) e)

  refresh_tokens_of_revoked :
      (s : TokenService) (raw : String) (w : World P) (existing : RefreshToken)
      → P.first tokens (λ t. str_eq t.token_hash (hash_token P raw)) w.db ≡ done (some existing)
      → is_revoked existing ≡ true
      → refresh_tokens P s raw w ≡ refuse_reuse P existing w
  unfolding refresh_tokens
  refresh_tokens_of_revoked s raw w existing found revoked =
      >>=_of_ok _ _ w (query_of_done P _ _ w found) ∙ >>=_of_ok _ _ w refl ∙ rw revoked refl

  -- A refresh token that has been revoked is refused, whatever the database answers to the
  -- revocation of its family, and no token is issued: no row is added. If the database accepts the
  -- update, every token of the family is revoked, and nothing else has changed.
  pub refresh_tokens_reuse :
      (s : TokenService) (raw : String) (w : World P) (existing : RefreshToken)
      → P.first tokens (λ t. str_eq t.token_hash (hash_token P raw)) w.db ≡ done (some existing)
      → is_revoked existing ≡ true
      → ((refresh_tokens P s raw w).0 ≡ err token_reused)
        × (((refresh_tokens P s raw w).1.db ≡ w.db)
            ⊎ IsRevokedIn
                (λ t. t.family_id == existing.family_id)
                (P.time_now w.calls)
                w.db
                (refresh_tokens P s raw w).1.db)
        × ((e : P.Db)
            → P.update tokens
                (is_live_of_family existing.family_id)
                (revoke_at (P.time_now w.calls))
                w.db
              ≡ done e
            → IsRevokedIn
                (λ t. t.family_id == existing.family_id)
                (P.time_now w.calls)
                w.db
                (refresh_tokens P s raw w).1.db)
  unfolding ◌>>=◌ refuse_reuse ignored revoke_token_family read_clock exec
  refresh_tokens_reuse s raw w existing found revoked =
      rw (refresh_tokens_of_revoked s raw w existing found revoked)
        (elim (Reply-cases (
          P.update tokens (is_live_of_family existing.family_id) (revoke_at (P.time_now w.calls))
            w.db)) [
              | inl (e, accepted) ↦
                  let done_so =
                    update-IsRevokedIn (λ t. t.family_id == existing.family_id) (P.time_now w.calls)
                      w.db e (λ t. refl) accepted in
                  rw (accepted, exec) (refl, inr done_so, λ _ _. done_so)
              | inr (c, refused) ↦ rw (refused, exec) (refl, inl refl, λ e h. cc)
            ])
