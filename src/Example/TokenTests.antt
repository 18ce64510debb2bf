-- ===== src/Example/TokenTests.antt =====
-- The theorems on tokens at one user with one refresh token.
use finance_project.Prelude.{
  ◌≡◌, ◌≢◌, refl, true, String, ℤ, pos, negsuc, [], ◌∷◌, none, some, arith, ◌⊎◌, ◌==◌,
}
use finance_project.Models.{User, RefreshToken, tokens}
use finance_project.Action.{ok, err, ◌>>=◌}
use finance_project.Platform.Reply.{done}
use finance_project.Session.{
  World, exec, query, attempt, fresh_uuid, read_clock, before_create, create,
}
use finance_project.Jwt.{generate_token, validate_token, new_claims}
use finance_project.Jwt.RoundTrip.{validate_token-generate_token}
use finance_project.Tokens.{
  TokenService, generate_secure_token, wrapped, issue_token_pair, revoke_all_user_tokens,
  revoke_token_family, link_tokens, rotate, refuse_reuse, refresh_tokens, ignored, token_reused,
  is_live_of_family, revoke_at,
}
use finance_project.Tokens.Revocation.{
  IsRevokedIn, revoke_all_user_tokens-IsRevokedIn, refresh_tokens_reuse,
}
use finance_project.Tokens.SingleUse.{refresh_tokens_once}
use finance_project.Example.Tables.{Tables}
use finance_project.Example.Machine.{machine}
use finance_project.Example.Accepting.{retiring_accepted}

abbrev pub service : TokenService
service = record {
  jwt_secret = "k";
  access_token_expiry_mins = negsuc 0;
  refresh_token_expiry_days = pos 1;
}

abbrev pub ann : User
ann = record { id = 1; name = "Ann"; email = "a"; password = ""; role = "admin"; is_active = true }

abbrev pub old_token : RefreshToken
old_token = record {
  id = 9;
  user_id = 1;
  token_hash = "old";
  family_id = 4;
  expires_at = 10;
  revoked_at = none;
  replaced_by = none;
}

abbrev pub spent_token : RefreshToken
spent_token = record old_token { id = 8; token_hash = "spent"; revoked_at = some 0 }

abbrev pub token_tables : Tables ℤ
token_tables = record {
  user_rows = ann ∷ [];
  account_rows = [];
  record_rows = [];
  entry_rows = [];
  event_rows = [];
  outbox_rows = [];
  token_rows = spent_token ∷ old_token ∷ [];
  key_rows = [];
}

abbrev pub signed_in : World machine
signed_in = record { db = record { tables = token_tables; keyed = refl }; calls = 0 }

abbrev access_token : String
access_token = elim (generate_token machine "u" "a" "admin" "k" 5 signed_in).0 [
  | ok token ↦ token
  | _ ↦ ""
]

abbrev after_signing : World machine
after_signing = record signed_in { calls = 1 }

signs : generate_token machine "u" "a" "admin" "k" 5 signed_in ≡ (ok access_token, after_signing)
unfolding generate_token read_clock ◌>>=◌
signs = refl

validate_token-generate_token_example :
    validate_token machine access_token "k" after_signing
    ≡ (ok (new_claims machine "u" "a" "admin" 0 5), record after_signing { calls = 2 })
validate_token-generate_token_example =
    validate_token-generate_token machine "u" "a" "admin" "k" 5 signed_in after_signing signs
      (omega arith)

abbrev refreshed : World machine
refreshed = (refresh_tokens machine service "old" signed_in).1

abbrev new_pair : String × String
new_pair = elim (refresh_tokens machine service "old" signed_in).0 [ ok pair ↦ pair | _ ↦ ("", "") ]

refreshes : refresh_tokens machine service "old" signed_in ≡ (ok new_pair, refreshed)
unfolding refresh_tokens rotate refuse_reuse link_tokens issue_token_pair wrapped ignored
    revoke_token_family generate_secure_token generate_token exec query attempt fresh_uuid
    read_clock before_create create ◌>>=◌
refreshes = refl

refresh_tokens_once_example : (refresh_tokens machine service "old" refreshed).0 ≢ ok new_pair
refresh_tokens_once_example =
    refresh_tokens_once machine service "old" signed_in refreshes retiring_accepted service
      refreshed refl new_pair

abbrev after_reuse : World machine
after_reuse = (refresh_tokens machine service "spent" signed_in).1

refresh_tokens_reuse_example :
    ((refresh_tokens machine service "spent" signed_in).0 ≡ err token_reused)
    × ((after_reuse.db ≡ signed_in.db)
        ⊎ IsRevokedIn machine (λ t. t.family_id == 4) 0 signed_in.db after_reuse.db)
    × ((e : machine.Db)
        → machine.update tokens (is_live_of_family 4) (revoke_at 0) signed_in.db ≡ done e
        → IsRevokedIn machine (λ t. t.family_id == 4) 0 signed_in.db after_reuse.db)
refresh_tokens_reuse_example =
    refresh_tokens_reuse machine service "spent" signed_in spent_token refl refl

abbrev signed_out : World machine
signed_out = (revoke_all_user_tokens machine 1 signed_in).1

signs_out : revoke_all_user_tokens machine 1 signed_in ≡ (ok tt, signed_out)
unfolding revoke_all_user_tokens read_clock exec ◌>>=◌
signs_out = refl

revoke_all_user_tokens-IsRevokedIn_example :
    IsRevokedIn machine (λ t. t.user_id == 1) 0 signed_in.db signed_out.db
revoke_all_user_tokens-IsRevokedIn_example =
    revoke_all_user_tokens-IsRevokedIn machine 1 signed_in signs_out
