-- ===== src/Kept/Tokens.antt =====
-- The operations of the token service keep what their statements keep.
use finance_project.Prelude.{ℕ, Bool, String, inl, inr, Bool-cases, str_eq, refl}
use finance_project.Models.{Uuid, User, RefreshToken, tokens, is_revoked, is_expired}
use finance_project.Action.{Action, ◌>>=◌}
use finance_project.Platform.{Platform}
use finance_project.Platform.Reply.{Reply, done, failed}
use finance_project.Session.{World, read_clock, exec}
use finance_project.Session.Laws.{Reply-cases}
use finance_project.Session.Keeps.{
  Keeps, Keeps-then, Keeps-create, Keeps-fresh_uuid, Keeps-clock, Keeps-exec, Keeps-query,
  Keeps-missing, Keeps-attempt, Keeps-of_same_db,
}
use finance_project.Jwt.{generate_token, from_reply}
use finance_project.Tokens.{
  TokenService, generate_secure_token, wrapped, issue_token_pair, revoke_all_user_tokens,
  revoke_token_family, ignored, require_unexpired, require_active, link_tokens, rotate,
  refuse_reuse, refresh_tokens, revoke_at,
}
use finance_project.Kept.{KeptByStatements}

module _ (P : Platform) (I : P.Db → Type 0) where
  wrapped-Keeps :
      {A : Type 0} (message : String) (m : Action (World P) A)
      → Keeps P I m
      → Keeps P I (wrapped P message m)
  unfolding wrapped
  wrapped-Keeps message m kept = kept

  pub ignored-Keeps : (m : Action (World P) (Unit {0})) → Keeps P I m → Keeps P I (ignored P m)
  unfolding ignored
  ignored-Keeps m kept = kept

  generate_secure_token-Keeps : Keeps P I (generate_secure_token P)
  unfolding generate_secure_token
  generate_secure_token-Keeps = Keeps-of_same_db P I (generate_secure_token P) λ w.
      elim (Reply-cases (P.rand_read w.calls)) [
        | inl (a, e) ↦ rw (e, generate_secure_token) refl
        | inr (c, e) ↦ rw (e, generate_secure_token) refl
      ]

  from_reply-Keeps : {A : Type 0} (r : Reply A) → Keeps P I (from_reply P r)
  from_reply-Keeps (done a) w i = i
  from_reply-Keeps (failed c) w i = i

  generate_token-Keeps :
      (user_id email role secret : String) (expiry : ℕ)
      → Keeps P I (generate_token P user_id email role secret expiry)
  unfolding generate_token
  generate_token-Keeps user_id email role secret expiry = elim (Bool-cases (str_eq secret "")) [
    | inl empty ↦ rw empty (λ w i. i)
    | inr given ↦ rw given (Keeps-then P I _ _ (Keeps-clock P I) λ now. from_reply-Keeps _)
  ]

  require_unexpired-Keeps : (token : RefreshToken) → Keeps P I (require_unexpired P token)
  require_unexpired-Keeps token = Keeps-then P I _ _ (Keeps-clock P I) λ now.
      elim (Bool-cases (is_expired now token)) [
        | inl expired ↦ rw expired (λ w i. i)
        | inr live ↦ rw live (λ w i. i)
      ]

  require_active-Keeps : (user : User) → Keeps P I (require_active P user)
  require_active-Keeps user = elim (Bool-cases user.is_active) [
    | inl active ↦ rw active (λ w i. i)
    | inr inactive ↦ rw inactive (λ w i. i)
  ]

  module _ (k : KeptByStatements P I) where
    pub issue_token_pair-Keeps :
        (s : TokenService) (user : User) → Keeps P I (issue_token_pair P s user)
    unfolding issue_token_pair
    issue_token_pair-Keeps s user =
        Keeps-then P I _ _ (wrapped-Keeps _ _ (generate_token-Keeps _ _ _ _ _)) λ _.
          Keeps-then P I _ _ (wrapped-Keeps _ _ generate_secure_token-Keeps) λ _.
            Keeps-then P I _ _ (Keeps-fresh_uuid P I) λ _. Keeps-then P I _ _ (Keeps-clock P I) λ _.
              Keeps-then P I _ _
                (Keeps-create P I tokens _ _ _ (λ r d e. k.inserts tokens r d e refl)) λ _ w i. i

    -- A reading of the clock, and then an update of the tokens at that time.
    revoke-Keeps :
        (message : String) (p : RefreshToken → Bool)
        → Keeps P I (read_clock P >>= λ now. exec P message (P.update tokens p (revoke_at now)))
    revoke-Keeps message p =
        Keeps-then P I _ _ (Keeps-clock P I)
          λ now. Keeps-exec P I _ _ (λ d e. k.updates tokens _ _ d e refl)

    pub revoke_all_user_tokens-Keeps : (id : Uuid) → Keeps P I (revoke_all_user_tokens P id)
    unfolding revoke_all_user_tokens
    revoke_all_user_tokens-Keeps id = revoke-Keeps _ _

    refuse_reuse-Keeps : (token : RefreshToken) → Keeps P I (refuse_reuse P token)
    unfolding refuse_reuse revoke_token_family
    refuse_reuse-Keeps token = Keeps-then P I _ _ (ignored-Keeps _ (revoke-Keeps _ _)) λ _ w i. i

    link_tokens-Keeps :
        (existing : RefreshToken) (refresh : String) → Keeps P I (link_tokens P existing refresh)
    unfolding link_tokens
    link_tokens-Keeps existing refresh = Keeps-then P I _ _ (Keeps-clock P I) λ now.
        Keeps-then P I _ _ (Keeps-query P I _ _) λ found.
          Keeps-then P I _ _ (Keeps-missing P I _ found) λ fresh.
            Keeps-then P I _ _ (Keeps-attempt P I _ (λ d e. k.updates tokens _ _ d e refl))
              λ _. Keeps-attempt P I _ (λ d e. k.updates tokens _ _ d e refl)

    rotate-Keeps : (s : TokenService) (token : RefreshToken) → Keeps P I (rotate P s token)
    unfolding rotate
    rotate-Keeps s token = Keeps-then P I _ _ (require_unexpired-Keeps token) λ _.
        Keeps-then P I _ _ (Keeps-query P I _ _) λ found.
          Keeps-then P I _ _ (Keeps-missing P I _ found) λ user.
            Keeps-then P I _ _ (require_active-Keeps user) λ _.
              Keeps-then P I _ _ (issue_token_pair-Keeps s user)
                λ pair. Keeps-then P I _ _ (link_tokens-Keeps token pair.1) λ _ w i. i

    pub refresh_tokens-Keeps :
        (s : TokenService) (raw : String) → Keeps P I (refresh_tokens P s raw)
    unfolding refresh_tokens
    refresh_tokens-Keeps s raw = Keeps-then P I _ _ (Keeps-query P I _ _) λ found.
        Keeps-then P I _ _ (Keeps-missing P I _ found) λ existing.
          elim (Bool-cases (is_revoked existing)) [
            | inl revoked ↦ rw revoked (refuse_reuse-Keeps existing)
            | inr live ↦ rw live (rotate-Keeps s existing)
          ]
