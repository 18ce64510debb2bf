-- ===== src/Tokens.antt =====
-- services/token_service.go: the token pairs, their rotation on refresh, and revocation.
pub mod Issue
pub mod Revocation
pub mod Rotation
pub mod SingleUse
use finance_project.Prelude.{
  ℕ, zero, suc, ◌+◌, ◌*◌, ℤ, pos, negsuc, String, Bool, true, false, ◌&&◌, not, Option, none, some,
  str_eq, ◌==◌, if◌then◌else◌,
}
use finance_project.Errors.{GoError, app, other, error_text, internal, unauthorized}
use finance_project.Models.{
  Uuid, nil_uuid, User, RefreshToken, Table, users, tokens, is_revoked, is_expired,
}
use finance_project.Action.{Action, Result, ok, err, panic, pure, fail, ◌>>=◌, ◌>>◌}
use finance_project.Platform.{Platform}
use finance_project.Platform.Reply.{Reply, done, failed}
use finance_project.Session.{
  or_missing, World, exec, query, attempt, create, fresh_uuid, read_clock,
}
use finance_project.Jwt.{generate_token}

-- `TokenService`, without its database.
pub record TokenService : Type 0 where
  pub jwt_secret : String
  pub access_token_expiry_mins : ℤ
  pub refresh_token_expiry_days : ℤ

-- A setting that is not positive gives way to its default.
abbrev pub or_default : ℤ → ℕ → ℕ
or_default (pos zero) default = default
or_default (pos (suc n)) default = suc n
or_default (negsuc n) default = default

-- In nanoseconds
abbrev pub minute : ℕ
minute = 60000000000

abbrev pub day : ℕ
day = 86400000000000

-- The text that `Error()` gives for any error.
abbrev pub text_of : GoError → String
text_of (app e) = error_text e
text_of (other text) = text

abbrev pub invalid_token : GoError
invalid_token = unauthorized "invalid refresh token"

abbrev pub token_reused : GoError
token_reused = unauthorized "refresh token reuse detected — all sessions revoked for security"

abbrev pub token_expired : GoError
token_expired = unauthorized "refresh token has expired"

abbrev pub deactivated : GoError
deactivated = unauthorized "account is deactivated"

-- `revoked_at IS NULL` together with a match of the user or the family
abbrev pub is_live_of_user : Uuid → RefreshToken → Bool
is_live_of_user id t = t.user_id == id && not (is_revoked t)

abbrev pub is_live_of_family : Uuid → RefreshToken → Bool
is_live_of_family id t = t.family_id == id && not (is_revoked t)

abbrev pub revoke_at : ℕ → RefreshToken → RefreshToken
revoke_at now t = record t { revoked_at = some now }

abbrev pub set_family : Uuid → RefreshToken → RefreshToken
set_family family t = record t { family_id = family }

abbrev pub replace_by : ℕ → Uuid → RefreshToken → RefreshToken
replace_by now id t = record t { revoked_at = some now; replaced_by = some id }

module _ (P : Platform) where
  abbrev pub hash_token : String → String
  hash_token token = P.hex_encode (P.sha256_sum token)

  -- Randomness changes from call to call, as time does.
  unfoldable pub generate_secure_token : Action (World P) String
  generate_secure_token w = elim (P.rand_read w.calls) [
    | done bytes ↦ (ok (P.hex_encode bytes), record w { calls = suc w.calls })
    | failed cause ↦ (err (other cause), record w { calls = suc w.calls })
  ]

  -- An error that comes back as the cause of an internal one.
  abbrev pub wrap_result : {A : Type 0} → String → Result A → Result A
  wrap_result message (ok a) = ok a
  wrap_result message (err e) = err (internal message (some (text_of e)))
  wrap_result message panic = panic

  unfoldable pub wrapped : {A : Type 0} → String → Action (World P) A → Action (World P) A
  wrapped message m w = let (r, u) = m w in (wrap_result message r, u)

  abbrev pub new_token : User → String → Uuid → ℕ → RefreshToken
  new_token user refresh family expires_at = record {
    id = nil_uuid;
    user_id = user.id;
    token_hash = hash_token refresh;
    family_id = family;
    expires_at = expires_at;
    revoked_at = none;
    replaced_by = none;
  }

  abbrev create_token : RefreshToken → Action (World P) RefreshToken
  create_token token =
      create P tokens "failed to store refresh token" token.id (λ id. record token { id = id })

  unfoldable pub issue_token_pair : TokenService → User → Action (World P) (String × String)
  issue_token_pair s user = do
    access ← wrapped "failed to generate access token" (
        generate_token P (P.uuid_string user.id) user.email user.role s.jwt_secret
          (or_default s.access_token_expiry_mins 15 * minute))
    refresh ← wrapped "failed to generate refresh token" generate_secure_token
    family ← fresh_uuid P
    now ← read_clock P
    create_token
        (new_token user refresh family (now + or_default s.refresh_token_expiry_days 7 * day))
    pure (access, refresh)

  unfoldable pub revoke_all_user_tokens : Uuid → Action (World P) (Unit {0})
  revoke_all_user_tokens user_id = do
    now ← read_clock P
    exec P "failed to revoke user tokens"
        (P.update tokens (is_live_of_user user_id) (revoke_at now))

  unfoldable pub revoke_token_family : Uuid → Action (World P) (Unit {0})
  revoke_token_family family_id = do
    now ← read_clock P
    exec P "failed to revoke token family"
        (P.update tokens (is_live_of_family family_id) (revoke_at now))

  -- `_ = ` in front of a call
  abbrev ignore_result : Result (Unit {0}) → Result (Unit {0})
  ignore_result (err e) = ok tt
  ignore_result r = r

  unfoldable pub ignored : Action (World P) (Unit {0}) → Action (World P) (Unit {0})
  ignored m w = let (r, u) = m w in (ignore_result r, u)

  abbrev pub user_missing : GoError
  user_missing = internal "failed to look up user for token refresh" (some "record not found")

  abbrev pub new_token_missing : GoError
  new_token_missing = internal "failed to find new refresh token" (some "record not found")

  abbrev pub require_unexpired : RefreshToken → Action (World P) (Unit {0})
  require_unexpired token = do
    now ← read_clock P
    if is_expired now token then fail token_expired else pure tt

  abbrev pub require_active : User → Action (World P) (Unit {0})
  require_active user = if user.is_active then pure tt else fail deactivated

  -- After the new pair is stored: the old token is revoked and linked to the new one, which
  -- inherits its family. The errors of both updates are dropped.
  unfoldable pub link_tokens : RefreshToken → String → Action (World P) (Unit {0})
  link_tokens existing refresh = do
    now ← read_clock P
    found ←
        query P "failed to find new refresh token"
          (P.first tokens (λ t. str_eq t.token_hash (hash_token refresh)))
    fresh ← or_missing P new_token_missing found
    attempt P (P.update tokens (λ t. t.id == fresh.id) (set_family existing.family_id))
    attempt P (P.update tokens (λ t. t.id == existing.id) (replace_by now fresh.id))

  -- The rest of `RefreshTokens` for a token that is not revoked.
  unfoldable pub rotate : TokenService → RefreshToken → Action (World P) (String × String)
  rotate s existing = do
    require_unexpired existing
    found ←
        query P "failed to look up user for token refresh"
          (P.first users (λ u. u.id == existing.user_id))
    user ← or_missing P user_missing found
    require_active user
    pair ← issue_token_pair s user
    link_tokens existing pair.1
    pure pair

  unfoldable pub refuse_reuse : RefreshToken → Action (World P) (String × String)
  refuse_reuse existing = do ignored (revoke_token_family existing.family_id); fail token_reused

  unfoldable pub refresh_tokens : TokenService → String → Action (World P) (String × String)
  refresh_tokens s raw = do
    found ←
        query P "failed to look up refresh token"
          (P.first tokens (λ t. str_eq t.token_hash (hash_token raw)))
    existing ← or_missing P invalid_token found
    if is_revoked existing then refuse_reuse existing else rotate s existing
