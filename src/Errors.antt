-- ===== src/Errors.antt =====
-- errors/apperrors.go: the typed errors of the services, and the value of type `error` that a
-- service hands to its handler.
use Prim.Native.String.{◌++◌ as join}
use finance_project.Prelude.{ℕ, String, Option, none, some}

pub record AppError : Type 0 where
  pub code : String
  pub message : String
  pub status_code : ℕ
  pub cause : Option String

-- A Go `error`: an `*AppError`, or an error of another package known by its text.
pub data GoError : Type 0 where
  app : AppError → GoError
  other : String → GoError

abbrev pub app_error : String → ℕ → String → AppError
app_error code status message = record {
  code = code;
  message = message;
  status_code = status;
  cause = none;
}

-- `Error()`
pub error_text : AppError → String
error_text e = elim e.cause [
  | none ↦ join e.code (join ": " e.message)
  | some cause ↦ join e.code (join ": " (join e.message (join " (" (join cause ")"))))
]

abbrev pub not_found_message : String → String → String
not_found_message resource id = join resource (join " with id " (join id " not found"))

abbrev pub not_found : String → String → GoError
not_found resource id = app (app_error "NOT_FOUND" 404 (not_found_message resource id))

abbrev pub conflict : String → GoError
conflict message = app (app_error "CONFLICT" 409 message)

abbrev pub validation : String → GoError
validation message = app (app_error "VALIDATION_ERROR" 400 message)

abbrev pub unauthorized : String → GoError
unauthorized message = app (app_error "UNAUTHORIZED" 401 message)

abbrev pub forbidden : String → GoError
forbidden message = app (app_error "FORBIDDEN" 403 message)

abbrev pub internal : String → Option String → GoError
internal message cause =
    app (record { code = "INTERNAL_ERROR"; message = message; status_code = 500; cause = cause })

abbrev pub unprocessable_entity : String → GoError
unprocessable_entity message = app (app_error "UNPROCESSABLE_ENTITY" 422 message)

abbrev pub too_many_requests : String → GoError
too_many_requests message = app (app_error "RATE_LIMITED" 429 message)
