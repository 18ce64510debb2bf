-- ===== src/Http.antt =====
-- The requests and responses of gin as the program reads and writes them: utils/response.go, and
-- handlers/error_handler.go.
pub mod Requests
use finance_project.Prelude.{ℕ, ℤ, String, Bool, true, false, Option, none, some, List}
use finance_project.Errors.{GoError, app, other}
use finance_project.Models.{Uuid, User, Account, FinancialRecord, LedgerEntry, AuditEvent}
use finance_project.Dashboard.{SummaryRow, TrendRow, CategoryRow}
use finance_project.Action.{Action, Result, ok, err, panic}
use finance_project.Platform.{Platform}
use finance_project.Platform.Reply.{Reply}
use finance_project.Session.{World}

-- A request in gin's context. The options are what the middlewares set, none before they do.
pub record Context : Type 0 where
  pub method : String
  pub path : String
  pub get_header : String → String
  pub query : String → String
  pub param_id : String
  pub body : Reply String
  pub client_ip : String
  pub request_id : Option String
  pub user_id : Option String
  pub user_email : Option String
  pub user_role : Option String

-- `c.GetString`
abbrev pub get_string : Option String → String
get_string none = ""
get_string (some s) = s

-- The values that the handlers send as `data`.
pub data Payload (D : Type 0) : Type 0 where
  no_data : Payload D
  detail : String → Payload D
  required : List String → Payload D
  user : User → Payload D
  all_users : List User → Payload D
  login : String → Option String → User → Payload D
  token_pair : String → String → Payload D
  account : Account D → Payload D
  all_accounts : List (Account D) → Payload D
  one_record : FinancialRecord D → Payload D
  record_page : List (FinancialRecord D) → ℕ → ℤ → ℤ → Payload D
  posted_entries : Uuid → List (LedgerEntry D) → Payload D
  entry_page : List (LedgerEntry D) → ℕ → ℤ → ℤ → Payload D
  event_page : List AuditEvent → ℕ → ℤ → ℤ → Payload D
  summary : List (SummaryRow D) → Payload D
  trends : List (TrendRow D) → Payload D
  categories : List (CategoryRow D) → Payload D
  healthy : String → ℕ → Payload D

-- `APIResponse`
pub record ApiResponse (D : Type 0) : Type 0 where
  pub success : Bool
  pub message : String
  pub payload : Payload D

-- What is sent: a status with an envelope, or with a text that is already written.
pub data Response (D : Type 0) : Type 0 where
  json : ℕ → ApiResponse D → Response D
  raw : ℕ → String → Response D

module _ {D : Type 0} where
  abbrev pub success_response : ℕ → String → Payload D → Response D
  success_response status message payload =
      json status (record { success = true; message = message; payload = payload })

  abbrev pub error_response : ℕ → String → Response D
  error_response status message =
      json status (record { success = false; message = message; payload = no_data })

  abbrev pub validation_error : String → Payload D → Response D
  validation_error message details =
      json 422 (record { success = false; message = message; payload = details })

  abbrev pub handle_service_error : GoError → Response D
  handle_service_error (app e) = error_response e.status_code e.message
  handle_service_error (other text) = error_response 500 "internal server error"

  abbrev pub status_of : Response D → ℕ
  status_of (json status _) = status
  status_of (raw status _) = status

module _ (P : Platform) where
  abbrev pub Handler : Type 0
  Handler = Context → Action (World P) (Response P.Decimal)

  abbrev pub respond : Response P.Decimal → Action (World P) (Response P.Decimal)
  respond r w = (ok r, w)

  abbrev pub answer :
      {A : Type 0}
      → (A → Response P.Decimal)
      → Result A × World P
      → Result (Response P.Decimal) × World P
  answer k (ok a, u) = (ok (k a), u)
  answer k (err e, u) = (ok (handle_service_error e), u)
  answer k (panic, u) = (panic, u)

  -- A call of a service: its value goes into the response, and its error is handled.
  unfoldable pub serve :
      {A : Type 0}
      → Action (World P) A
      → (A → Response P.Decimal)
      → Action (World P) (Response P.Decimal)
  serve m k w = answer k (m w)
