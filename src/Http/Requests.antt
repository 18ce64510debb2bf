-- ===== src/Http/Requests.antt =====
-- What the handlers bind from a JSON body, and the packages that read it: encoding/json and gin's
-- rendering of a response, and net/mail.
use finance_project.Prelude.{String, Bool}
use finance_project.Models.{Account, FinancialRecord}
use finance_project.Platform.Reply.{Reply}
use finance_project.Platform.Updates.{Updates}
use finance_project.Ledger.{PostTransactionRequest}
use finance_project.Http.{ApiResponse}

pub record RegisterRequest : Type 0 where
  pub name : String
  pub email : String
  pub password : String
  pub role : String

pub record LoginRequest : Type 0 where
  pub email : String
  pub password : String

pub record RefreshRequest : Type 0 where
  pub refresh_token : String

-- `ShouldBindJSON` of a body into each type, `c.JSON`, and `mail.ParseAddress`
pub record Json (D : Type 0) : Type 0 where
  pub bind_transaction : String → Reply (PostTransactionRequest D)
  pub bind_account : String → Reply (Account D)
  pub bind_record : String → Reply (FinancialRecord D)
  pub bind_updates : String → Reply (Updates D)
  pub bind_register : String → Reply RegisterRequest
  pub bind_login : String → Reply LoginRequest
  pub bind_refresh : String → Reply RefreshRequest
  pub render : ApiResponse D → String
  pub is_address : String → Bool
