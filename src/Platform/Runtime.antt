-- ===== src/Platform/Runtime.antt =====
-- What the services call outside the repository, apart from the database and decimals: time, UUIDs,
-- randomness, hashes, tokens and JSON. A call whose answer changes takes the number of such calls
-- made so far.
use finance_project.Prelude.{ℕ, String, Bool, true, ◌≡◌, ◌≢◌, ◌<◌, Option, some}
use finance_project.Platform.Reply.{Reply, done}
use finance_project.Platform.Updates.{Updates}
use finance_project.Models.{Uuid, nil_uuid, AuditEvent, FinancialRecord}

-- The values that the services hand to `json.Marshal` as an event's changes.
pub data Changes (Decimal : Type 0) : Type 0 where
  no_changes : Changes Decimal
  posted : String → ℕ → Changes Decimal
  given_role : String → Changes Decimal
  new_record : FinancialRecord Decimal → Changes Decimal
  assigned : Updates Decimal → Changes Decimal

-- utils/jwt.go, `Claims`, with the registered claims that the code sets.
pub record Claims : Type 0 where
  pub user_id : String
  pub email : String
  pub role : String
  pub issuer : String
  pub audience : String
  pub issued_at : ℕ
  pub expires_at : ℕ

pub record Host (Decimal : Type 0) : Type 0 where
  -- time.Now, uuid.New
  pub time_now : ℕ → ℕ
  pub new_uuid : ℕ → Uuid
  pub new_uuid-ne-nil : (i : ℕ) → new_uuid i ≢ nil_uuid
  pub new_uuid_distinct : (i j : ℕ) → i ≢ j → new_uuid i ≢ new_uuid j
  -- UUID.String, uuid.Parse, and Postgres' reading of a text as a uuid, which takes other forms
  pub uuid_string : Uuid → String
  pub parse_uuid : String → Option Uuid
  pub parse_uuid-uuid_string : (u : Uuid) → parse_uuid (uuid_string u) ≡ some u
  pub uuid_input : String → Option Uuid
  pub uuid_input-uuid_string : (u : Uuid) → uuid_input (uuid_string u) ≡ some u
  -- Postgres' TO_CHAR of a time with the format YYYY-MM
  pub to_char_month : ℕ → String
  -- json.Marshal
  pub marshal_event : AuditEvent → Reply String
  pub marshal_changes : Changes Decimal → Reply String
  -- rand.Read of 32 bytes, hex.EncodeToString, sha256.Sum256
  pub rand_read : ℕ → Reply String
  pub hex_encode : String → String
  pub sha256_sum : String → String
  -- bcrypt: a hash, which is salted, and the comparison with a password
  pub bcrypt_hash : ℕ → String → Reply String
  pub bcrypt_matches : String → String → Bool
  pub bcrypt_matches-bcrypt_hash :
      (i : ℕ) (password hash : String)
      → bcrypt_hash i password ≡ done hash
      → bcrypt_matches hash password ≡ true
  -- golang-jwt: the precision of its dates, signing with HS256, and parsing. A parse is given the
  -- key for a method that is or is not HMAC, the issuer, the audience and the time; it answers
  -- with the claims and the token's field `Valid`.
  pub numeric_date : ℕ → ℕ
  pub numeric_date_idempotent : (t : ℕ) → numeric_date (numeric_date t) ≡ numeric_date t
  pub sign_claims : Claims → String → Reply String
  pub parse_claims : String → (Bool → Reply String) → String → String → ℕ → Reply (Claims × Bool)
  pub parse_claims-sign_claims :
      (c : Claims) (secret token : String) (key : Bool → Reply String) (now : ℕ)
      → numeric_date c.issued_at ≡ c.issued_at
      → numeric_date c.expires_at ≡ c.expires_at
      → sign_claims c secret ≡ done token
      → key true ≡ done secret
      → now < c.expires_at
      → parse_claims token key c.issuer c.audience now ≡ done (c, true)
