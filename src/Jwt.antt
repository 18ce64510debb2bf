-- ===== src/Jwt.antt =====
-- utils/jwt.go: `GenerateToken` and `ValidateToken`.
pub mod RoundTrip
use finance_project.Prelude.{ℕ, ◌+◌, String, Bool, true, false, str_eq, if◌then◌else◌}
use finance_project.Errors.{GoError, other}
use finance_project.Action.{Action, pure, fail, ◌>>=◌, ◌>>◌}
use finance_project.Platform.{Platform}
use finance_project.Platform.Reply.{Reply, done, failed}
use finance_project.Platform.Runtime.{Claims}
use finance_project.Session.{World, read_clock}

abbrev pub jwt_issuer : String
jwt_issuer = "immutablecore"

abbrev pub jwt_audience : String
jwt_audience = "immutablecore-api"

abbrev pub secret_missing : GoError
secret_missing = other "JWT secret must not be empty"

-- The function that gives the key to a token of an HMAC method, or of another one.
abbrev pub signing_key : String → Bool → Reply String
signing_key secret true = done secret
signing_key secret false = failed "unexpected signing method"

module _ (P : Platform) where
  -- A call outside the repository, with its error as it is.
  abbrev pub from_reply : {A : Type 0} → Reply A → Action (World P) A
  from_reply (done a) = pure a
  from_reply (failed cause) = fail (other cause)

  abbrev pub new_claims : String → String → String → ℕ → ℕ → Claims
  new_claims user_id email role now expiry = record {
    user_id = user_id;
    email = email;
    role = role;
    issuer = jwt_issuer;
    audience = jwt_audience;
    issued_at = P.numeric_date now;
    expires_at = P.numeric_date (now + expiry);
  }

  unfoldable pub generate_token : String → String → String → String → ℕ → Action (World P) String
  generate_token user_id email role secret expiry =
      if str_eq secret "" then fail secret_missing else (do
        now ← read_clock P
        from_reply (P.sign_claims (new_claims user_id email role now expiry) secret))

  abbrev pub check_valid : Claims × Bool → Action (World P) Claims
  check_valid (claims, true) = pure claims
  check_valid (claims, false) = fail (other "invalid token claims")

  -- The library reads the time of the check.
  unfoldable pub validate_token : String → String → Action (World P) Claims
  validate_token token secret = if str_eq secret "" then fail secret_missing else (do
    now ← read_clock P
    parsed ← from_reply (P.parse_claims token (signing_key secret) jwt_issuer jwt_audience now)
    check_valid parsed)
