-- ===== src/Jwt/RoundTrip.antt =====
-- A generated token is valid until it expires.
use finance_project.Prelude.{
  ℕ, suc, ◌+◌, ◌<◌, String, ◌≡◌, refl, sym, ap, ◌∙◌, subst, false, str_eq, Bool-cases, inl, inr,
  arith,
}
use finance_project.Action.{ok, >>=-elim, pure-ok, ◌>>=◌}
use finance_project.Platform.{Platform}
use finance_project.Platform.Reply.{Reply, done, failed}
use finance_project.Session.{World, read_clock}
use finance_project.Jwt.{from_reply, new_claims, generate_token, validate_token, signing_key}

module _ (P : Platform) where
  pub from_reply-ok :
      {A : Type 0} (r : Reply A) (w : World P) {u : World P} {a : A}
      → from_reply P r w ≡ (ok a, u)
      → (r ≡ done a) × (w ≡ u)
  from_reply-ok (done a) w h = ground arith
  from_reply-ok (failed c) w h = cc (ap (λ p. p.0) h)

  pub generate_token-ok :
      (user_id email role secret : String) (expiry : ℕ) (w : World P) {u : World P} {token : String}
      → generate_token P user_id email role secret expiry w ≡ (ok token, u)
      → (str_eq secret "" ≡ false)
        × (P.sign_claims (new_claims P user_id email role (P.time_now w.calls) expiry) secret
            ≡ done token)
        × (u ≡ record w { calls = suc w.calls })
  unfolding generate_token read_clock
  generate_token-ok user_id email role secret expiry w {u} {token} h =
      elim (Bool-cases (str_eq secret "")) [
        | inl empty ↦ cc (ap (λ p. p.0) (rw empty at h))
        | inr set ↦ >>=-elim _ _ w (rw set at h) λ now w₁ read signed.
            let (e, to_u) = from_reply-ok _ w₁ signed in
            let (is_now, ticked) = pure-ok read in
            (
              set,
              subst
                  (λ n.
                    P.sign_claims (new_claims P user_id email role n expiry) secret ≡ done token)
                  (sym is_now) e,
              sym to_u ∙ sym ticked,
            )
      ]

  -- A token that GenerateToken has returned is accepted by ValidateToken under the same secret at
  -- any later state of the run whose clock is still before its expiry, and the claims are those
  -- that were signed: the user's id, email and role, this service's issuer and audience, and the
  -- dates, at the precision of the JWT library.
  pub validate_token-generate_token :
      (user_id email role secret : String) (expiry : ℕ) (w v : World P) {u : World P}
      {token : String}
      → generate_token P user_id email role secret expiry w ≡ (ok token, u)
      → P.time_now v.calls < P.numeric_date (P.time_now w.calls + expiry)
      → validate_token P token secret v ≡ (
        ok (record {
          user_id = user_id;
          email = email;
          role = role;
          issuer = "immutablecore";
          audience = "immutablecore-api";
          issued_at = P.numeric_date (P.time_now w.calls);
          expires_at = P.numeric_date (P.time_now w.calls + expiry);
        }),
        record v { calls = suc v.calls },
      )
  unfolding validate_token read_clock ◌>>=◌
  validate_token-generate_token user_id email role secret expiry w v {u} {token} h live =
      let (set, signed, _) = generate_token-ok user_id email role secret expiry w h in
      let parsed =
        P.parse_claims-sign_claims (new_claims P user_id email role (P.time_now w.calls) expiry)
          secret token (signing_key secret) (P.time_now v.calls) (P.numeric_date_idempotent _)
          (P.numeric_date_idempotent _) signed refl live in
      rw (set, parsed) refl
