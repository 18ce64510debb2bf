-- ===== src/Models.antt =====
-- models/*.go: the rows of the tables.
-- A `uuid.UUID` is the number that its 16 bytes write, `uuid.Nil` is 0. A `time.Time` is a number
-- of nanoseconds since Go's zero time, and a nil pointer is `none`. The columns `created_at` and
-- `updated_at`, which gorm fills and no line of the program reads back, and the preloaded
-- associations (`User`, `Account`, `AuditEvent`) are left out.
use finance_project.Prelude.{ℕ, String, Bool, true, false, Option, none, some, ltb}

abbrev pub Uuid : Type 0
Uuid = ℕ

abbrev pub nil_uuid : Uuid
nil_uuid = 0

pub record User : Type 0 where
  pub id : Uuid
  pub name : String
  pub email : String
  pub password : String
  pub role : String
  pub is_active : Bool

pub record Account (Decimal : Type 0) : Type 0 where
  pub id : Uuid
  pub user_id : Uuid
  pub name : String
  pub account_type : String
  pub currency : String
  pub balance : Decimal

pub record FinancialRecord (Decimal : Type 0) : Type 0 where
  pub id : Uuid
  pub user_id : Uuid
  pub amount : Decimal
  pub currency : String
  pub record_type : String
  pub category : String
  pub date : ℕ
  pub notes : String
  pub deleted_at : Option ℕ

pub record LedgerEntry (Decimal : Type 0) : Type 0 where
  pub id : Uuid
  pub transaction_id : Uuid
  pub account_id : Uuid
  pub entry_type : String
  pub amount : Decimal
  pub currency : String
  pub description : String

pub record AuditEvent : Type 0 where
  pub id : Uuid
  pub entity_type : String
  pub entity_id : String
  pub action : String
  pub actor_id : String
  pub changes : String
  pub request_id : String
  pub ip_address : String

pub record OutboxEntry : Type 0 where
  pub id : Uuid
  pub event_id : Uuid
  pub event_type : String
  pub payload : String
  pub published_at : Option ℕ

pub record RefreshToken : Type 0 where
  pub id : Uuid
  pub user_id : Uuid
  pub token_hash : String
  pub family_id : Uuid
  pub expires_at : ℕ
  pub revoked_at : Option ℕ
  pub replaced_by : Option Uuid

pub record IdempotencyKey : Type 0 where
  pub key : String
  pub user_id : Uuid
  pub request_hash : String
  pub response_code : ℕ
  pub response_body : String
  pub expires_at : ℕ

-- models/account.go, the constants of `AccountType`
abbrev pub account_asset : String
account_asset = "asset"

abbrev pub account_liability : String
account_liability = "liability"

abbrev pub account_equity : String
account_equity = "equity"

abbrev pub account_revenue : String
account_revenue = "revenue"

abbrev pub account_expense : String
account_expense = "expense"

-- models/ledger_entry.go
abbrev pub debit : String
debit = "debit"

abbrev pub credit : String
credit = "credit"

-- models/user.go
abbrev pub role_viewer : String
role_viewer = "viewer"

abbrev pub role_analyst : String
role_analyst = "analyst"

abbrev pub role_admin : String
role_admin = "admin"

-- models/financial_record.go
abbrev pub record_income : String
record_income = "income"

abbrev pub record_expense : String
record_expense = "expense"

-- models/audit_event.go
abbrev pub audit_create : String
audit_create = "create"

abbrev pub audit_update : String
audit_update = "update"

abbrev pub audit_delete : String
audit_delete = "delete"

abbrev pub audit_login : String
audit_login = "login"

-- `IsRevoked`
abbrev pub is_revoked : RefreshToken → Bool
is_revoked t = elim t.revoked_at [ none ↦ false | some _ ↦ true ]

-- `IsExpired`, at the time that `time.Now` reads
abbrev pub is_expired : ℕ → RefreshToken → Bool
is_expired now t = ltb t.expires_at now

-- The tables of the database. A row of `t` has the type `Row Decimal t`.
pub data Table : Type 0 where
  users accounts records entries events outbox tokens keys : Table

abbrev pub Row : Type 0 → Table → Type 0
Row D users = User
Row D accounts = Account D
Row D records = FinancialRecord D
Row D entries = LedgerEntry D
Row D events = AuditEvent
Row D outbox = OutboxEntry
Row D tokens = RefreshToken
Row D keys = IdempotencyKey
