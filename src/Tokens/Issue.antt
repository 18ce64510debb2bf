-- ===== src/Tokens/Issue.antt =====
-- What an issued pair of tokens has left in the database.
use finance_project.Prelude.{
  ℕ, ◌+◌, ◌*◌, String, ◌≡◌, ◌≢◌, refl, sym, ap, ◌∙◌, subst, [], ◌∷◌, ◌++◌, arith, str_eq, false,
}
use finance_project.Models.{Uuid, nil_uuid, User, RefreshToken, Table, tokens}
use finance_project.Action.{Action, Result, ok, err, panic, >>=-elim, pure-ok}
use finance_project.Platform.{Platform}
use finance_project.Platform.Reply.{done}
use finance_project.Session.{World, read_clock}
use finance_project.Session.Laws.{create-elim, fresh_uuid-ok}
use finance_project.Jwt.{new_claims, generate_token}
use finance_project.Jwt.RoundTrip.{generate_token-ok}
use finance_project.Tokens.{
  TokenService, or_default, minute, day, new_token, generate_secure_token, wrapped, wrap_result,
  issue_token_pair,
}

-- Between `d` and `e` a pair of tokens has been issued to the user: the access token is signed with
-- the user's claims, and the table of refresh tokens has one more row, a live one of this user that
-- holds the hash of the refresh token.
pub record IsIssued (P : Platform) (s : TokenService) (user : User) (pair : String × String)
    (d e : P.Db) : Type 0 where
  pub row : RefreshToken
  pub family : Uuid
  pub signed_at : ℕ
  pub stored_at : ℕ
  pub has_secret : str_eq s.jwt_secret "" ≡ false
  pub signed :
      P.sign_claims
        (new_claims P
          (P.uuid_string user.id)
          user.email
          user.role
          (P.time_now signed_at)
          (or_default s.access_token_expiry_mins 15 * minute))
        s.jwt_secret
      ≡ done pair.0
  pub is_row :
      row
      ≡ record (new_token P user pair.1 family
          (P.time_now stored_at + or_default s.refresh_token_expiry_days 7 * day)) { id = row.id }
  pub identified : row.id ≢ nil_uuid
  pub family_fresh : family ≢ nil_uuid
  pub token_rows : P.rows tokens e ≡ P.rows tokens d ++ row ∷ []
  pub others : (t : Table) → t ≢ tokens → P.rows t e ≡ P.rows t d

module _ (P : Platform) where
  wrapped-ok :
      {A : Type 0} (message : String) (m : Action (World P) A) (w : World P) {u : World P} {a : A}
      → wrapped P message m w ≡ (ok a, u)
      → m w ≡ (ok a, u)
  unfolding wrapped
  wrapped-ok {A} message m w {u} {a} h = go (m w) h
    where
      go :
          (x : Result A × World P)
          → ◌≡◌ {A = Result A × World P} (wrap_result P message x.0, x.1) (ok a, u)
          → x ≡ (ok a, u)
      go (ok b, v) h = h
      go (err e, v) h = cc
      go (panic, v) h = cc

  generate_secure_token-ok :
      (w : World P) {u : World P} {token : String}
      → generate_secure_token P w ≡ (ok token, u)
      → u.db ≡ w.db
  unfolding generate_secure_token
  generate_secure_token-ok w h = ground arith

  pub issue_token_pair-IsIssued :
      (s : TokenService) (user : User) (w : World P) {u : World P} {pair : String × String}
      → issue_token_pair P s user w ≡ (ok pair, u)
      → IsIssued P s user pair w.db u.db
  unfolding issue_token_pair read_clock
  issue_token_pair-IsIssued s user w {u} {pair} h = >>=-elim _ _ w h λ access w₁ m₁ r₁.
      >>=-elim _ _ w₁ r₁ λ refresh w₂ m₂ r₂. >>=-elim _ _ w₂ r₂ λ family w₃ m₃ r₃.
        >>=-elim _ _ w₃ r₃ λ now w₄ m₄ r₄. >>=-elim _ _ w₄ r₄ λ row w₅ m₅ r₅.
          create-elim P tokens _ nil_uuid _ w₄ m₅ λ id is_row identified _ added others.
            let (has_secret, signed, to_w₁) =
              generate_token-ok P _ _ _ _ _ w (wrapped-ok _ (generate_token P _ _ _ _ _) w m₁) in
            let to_w₂ =
              generate_secure_token-ok w₁ (wrapped-ok _ (generate_secure_token P) w₁ m₂) in
            let (_, family_fresh, to_w₃) = fresh_uuid-ok P w₂ m₃ in
            let (is_now, to_w₄) = pure-ok m₄ in
            let (is_pair, to_u) = pure-ok r₅ in
            let same : w₄.db ≡ w.db =
              ap (λ v. v.db) (sym to_w₄) ∙ to_w₃ ∙ to_w₂ ∙ ap (λ v. v.db) to_w₁ in
            record {
              row = row;
              family = family;
              signed_at = w.calls;
              stored_at = w₃.calls;
              has_secret = has_secret;
              signed = signed ∙ ap (λ p. done p.0) is_pair;
              is_row = rw (← is_row, ← is_pair, is_now) refl;
              identified = subst (λ r. r.id ≢ nil_uuid) is_row identified;
              family_fresh = family_fresh;
              token_rows = rw (← to_u, ← same) added;
              others = λ t n. rw (← to_u, ← same) (others t n);
            }
