-- ===== src/Records.antt =====
-- services/record_service.go: financial records, their validation, updates and soft deletion.
pub mod Validity
pub mod Updating
pub mod Invariant
pub mod Filters
pub mod Listing
pub mod Deletion
use Prim.Native.String.{◌++◌ as join}
use finance_project.Prelude.{
  ℕ, ◌+◌, ◌-◌, String, Bool, true, false, not, ◌&&◌, ◌||◌, Option, none, some, List, [], ◌∷◌,
  str_eq, leb, ◌==◌, if◌then◌else◌, ℤ, pos, negsuc,
}
use finance_project.Errors.{GoError, internal, validation, not_found}
use finance_project.Models.{
  Uuid, FinancialRecord, records, record_income, record_expense, audit_create, audit_update,
  audit_delete,
}
use finance_project.Text.{to_upper, trim_space}
use finance_project.Dates.{parse_date, day}
use finance_project.Action.{
  Action, Result, ok, err, pure, fail, from_result, refuse_if, ◌>>=◌, ◌>>◌,
}
use finance_project.Platform.{Platform}
use finance_project.Platform.Reply.{Reply, done, failed}
use finance_project.Platform.Updates.{
  Value, text, number, decimal, flag, null, compound, Updates, lookup, with_value,
}
use finance_project.Platform.Runtime.{Changes, new_record, assigned, no_changes}
use finance_project.Session.{or_missing, World, exec, query, create, read_clock, transaction}
use finance_project.Audit.{build_audit_event, log_event}
use finance_project.Pages.{page_number, page_length, find_page}

abbrev pub is_valid_record_type : String → Bool
is_valid_record_type t = str_eq t record_income || str_eq t record_expense

abbrev pub is_valid_currency : String → Bool
is_valid_currency c = str_eq c "INR" || (str_eq c "USD" || (str_eq c "EUR" || str_eq c "GBP"))

-- The messages of the checks.
abbrev pub invalid_record_type : GoError
invalid_record_type = validation "invalid type: must be one of income, expense"

abbrev pub record_amount_not_positive : GoError
record_amount_not_positive = validation "amount must be greater than zero"

abbrev pub invalid_currency : GoError
invalid_currency = validation "invalid currency"

abbrev pub missing_record : String → GoError
missing_record id = not_found "financial record" id

-- The currency that is stored: INR if none is given.
abbrev pub record_currency : String → String
record_currency c = to_upper (if str_eq c "" then "INR" else c)

module _ (P : Platform) where
  unfoldable pub check_record :
      FinancialRecord P.Decimal → Action (World P) (FinancialRecord P.Decimal)
  check_record r = do
    refuse_if (not (is_valid_record_type r.record_type)) invalid_record_type
    refuse_if (P.less_or_equal r.amount P.dec_zero) record_amount_not_positive
    refuse_if (not (str_eq r.currency "") && not (is_valid_currency (to_upper r.currency)))
        invalid_currency
    refuse_if (str_eq (trim_space r.category) "") (validation "category is required")
    refuse_if (r.date == 0) (validation "date is required and must be a valid date")
    pure (record r { currency = record_currency r.currency })

  -- The audit event of an operation on a record, logged in its transaction; the actor is the owner.
  unfoldable pub audit_record :
      Bool → FinancialRecord P.Decimal → String → Changes P.Decimal → Action (World P) (Unit {0})
  audit_record audited r action diff = elim audited [
    | false ↦ pure tt
    | true ↦ do
      event ←
          build_audit_event P "record" (P.uuid_string r.id) action (P.uuid_string r.user_id) "" ""
            diff
      log_event P event
  ]

  abbrev store_record : FinancialRecord P.Decimal → Action (World P) (FinancialRecord P.Decimal)
  store_record r =
      create P records "failed to create financial record" r.id (λ id. record r { id = id })

  unfoldable pub create_body :
      Bool → FinancialRecord P.Decimal → Action (World P) (FinancialRecord P.Decimal)
  create_body audited r = do
    stored ← store_record r
    audit_record audited stored audit_create (new_record stored)
    pure stored

  unfoldable pub create_record :
      Bool → FinancialRecord P.Decimal → Action (World P) (FinancialRecord P.Decimal)
  create_record audited r = do checked ← check_record r; transaction P (create_body audited checked)

  -- A text that is no uuid makes the statement fail.
  abbrev pub record_by : Option Uuid → P.Db → Reply (Option (FinancialRecord P.Decimal))
  record_by (some id) d = P.first records (λ r. r.id == id) d
  record_by none d = failed "invalid input syntax for type uuid"

  unfoldable pub get_record_by_id : String → Action (World P) (FinancialRecord P.Decimal)
  get_record_by_id id = do
    found ← query P "failed to retrieve financial record" (record_by (P.uuid_input id))
    or_missing P (missing_record id) found

  abbrev pub check_type_value : Option (Value P.Decimal) → Result (Unit {0})
  check_type_value none = ok tt
  check_type_value (some (text t)) =
      if is_valid_record_type t then ok tt else err invalid_record_type
  check_type_value (some _) = err (validation "type must be a string")

  abbrev positive_amount : P.Decimal → Result P.Decimal
  positive_amount x = if P.less_or_equal x P.dec_zero then err record_amount_not_positive else ok x

  abbrev read_amount : Reply P.Decimal → Result P.Decimal
  read_amount (done x) = positive_amount x
  read_amount (failed _) = err (validation "amount must be a valid number string")

  abbrev pub amount_of : Value P.Decimal → Result P.Decimal
  amount_of (number n) = positive_amount (P.parse_float n)
  amount_of (text t) = read_amount (P.parse_decimal t)
  amount_of (decimal x) = err (validation "amount must be a number or numeric string")
  amount_of (flag _) = err (validation "amount must be a number or numeric string")
  amount_of null = err (validation "amount must be a number or numeric string")
  amount_of compound = err (validation "amount must be a number or numeric string")

  abbrev put_amount : Updates P.Decimal → Result P.Decimal → Result (Updates P.Decimal)
  put_amount m (ok x) = ok (with_value "amount" (decimal x) m)
  put_amount m (err e) = err e
  put_amount m Result.panic = Result.panic

  abbrev pub check_amount_value : Updates P.Decimal → Result (Updates P.Decimal)
  check_amount_value m = elim (lookup "amount" m) [
    | none ↦ ok m
    | some v ↦ put_amount m (amount_of v)
  ]

  abbrev currency_update : Updates P.Decimal → Value P.Decimal → Result (Updates P.Decimal)
  currency_update m (text c) =
      if is_valid_currency (to_upper c)
      then ok (with_value "currency" (text (to_upper c)) m)
      else err invalid_currency
  currency_update m _ = err (validation "currency must be a string")

  abbrev pub check_currency_value : Updates P.Decimal → Result (Updates P.Decimal)
  check_currency_value m = elim (lookup "currency" m) [ none ↦ ok m | some v ↦ currency_update m v ]

  -- The updates as they are stored, if the values under the three keys are in order.
  unfoldable pub check_updates : Updates P.Decimal → Action (World P) (Updates P.Decimal)
  check_updates m = do
    from_result (check_type_value (lookup "type" m))
    with_amount ← from_result (check_amount_value m)
    from_result (check_currency_value with_amount)

  -- gorm also assigns the new values to the row in memory, which the audit event then names.
  unfoldable pub update_body :
      Bool → FinancialRecord P.Decimal → Updates P.Decimal → Action (World P) (Unit {0})
  update_body audited r m = do
    exec P "failed to update financial record" (P.update_map records (λ x. x.id == r.id) m)
    audit_record audited (P.columns.assign records m r) audit_update (assigned m)

  abbrev pub updated_missing : GoError
  updated_missing = internal "failed to retrieve updated record" (some "record not found")

  unfoldable pub update_record :
      Bool → String → Updates P.Decimal → Action (World P) (FinancialRecord P.Decimal)
  update_record audited id m = do
    r ← get_record_by_id id
    checked ← check_updates m
    transaction P (update_body audited r checked)
    found ← query P "failed to retrieve updated record" (record_by (P.uuid_input id))
    or_missing P updated_missing found

  abbrev pub mark_deleted : ℕ → FinancialRecord P.Decimal → FinancialRecord P.Decimal
  mark_deleted now r = record r { deleted_at = some now }

  -- gorm reads the time of a soft deletion, which is an update.
  unfoldable pub delete_body : Bool → String → Action (World P) (Unit {0})
  delete_body audited id = do
    r ← get_record_by_id id
    now ← read_clock P
    exec P (join "failed to delete financial record " id)
        (P.update records (λ x. x.id == r.id) (mark_deleted now))
    audit_record audited r audit_delete no_changes

  unfoldable pub delete_record : Bool → String → Action (World P) (Unit {0})
  delete_record audited id = transaction P (delete_body audited id)

-- The filters of a list of records: those that are present and not empty.
pub record RecordFilters : Type 0 where
  pub record_type : Option String
  pub category : Option String
  pub start_date : Option String
  pub end_date : Option String
  pub user_id : Option String

-- `v, ok := filters[key]; ok && v != ""`
abbrev pub present : Option String → Option String
present none = none
present (some s) = if str_eq s "" then none else some s

abbrev pub is_text : Option String → String → Bool
is_text none s = true
is_text (some t) s = str_eq s t

abbrev pub from_time : Option ℤ → ℕ → Bool
from_time none date = true
from_time (some (pos t)) date = leb t date
from_time (some (negsuc t)) date = true

abbrev pub day_end : ℤ → ℤ
day_end (pos t) = pos (t + day - 1)
day_end (negsuc t) = if leb (day - 1) t then negsuc (t + 1 - day) else pos (day - t - 2)

abbrev pub to_time : Option ℤ → ℕ → Bool
to_time none date = true
to_time (some t) date = elim (day_end t) [ pos n ↦ leb date n | negsuc n ↦ false ]

abbrev pub date_of : Option String → Option ℤ
date_of none = none
date_of (some s) = parse_date s

module _ (P : Platform) where
  abbrev pub is_owner : Option Uuid → Uuid → Bool
  is_owner none id = true
  is_owner (some u) id = id == u

  abbrev pub record_matches : RecordFilters → Option Uuid → FinancialRecord P.Decimal → Bool
  record_matches f owner r =
      is_text (present f.record_type) r.record_type
      && (is_text (present f.category) r.category
          && (from_time (date_of (present f.start_date)) r.date
              && (to_time (date_of (present f.end_date)) r.date && is_owner owner r.user_id)))

  abbrev pub owner_condition :
      RecordFilters → Option Uuid → Reply (FinancialRecord P.Decimal → Bool)
  owner_condition f none = failed "invalid input syntax for type uuid"
  owner_condition f (some u) = done (record_matches f (some u))

  abbrev pub record_condition : RecordFilters → Reply (FinancialRecord P.Decimal → Bool)
  record_condition f = elim (present f.user_id) [
    | none ↦ done (record_matches f none)
    | some id ↦ owner_condition f (P.uuid_input id)
  ]

  unfoldable pub get_records :
      RecordFilters → ℤ → ℤ → Action (World P) (List (FinancialRecord P.Decimal) × ℕ)
  get_records f page size =
      find_page P records (record_condition f) "date DESC" "failed to count financial records"
        "failed to retrieve financial records" (page_number page) (page_length 10 size)
