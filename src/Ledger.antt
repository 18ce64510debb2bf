-- ===== src/Ledger.antt =====
-- services/ledger_service.go: `PostTransaction`, with its checks, its locking query, the loop that
-- inserts entries and moves balances, and the loop that stores the balances; `GetTransactions`.
pub mod Validation
pub mod Entries
pub mod Applied
pub mod Balances
pub mod Exact
pub mod Movement
pub mod Posted
pub mod Refinement
pub mod Conservation
use finance_project.Prelude.{
  ℕ, ℤ, String, Bool, true, false, not, ◌&&◌, ◌||◌, Option, none, some, List, [], ◌∷◌, ◌++◌, map,
  ltb, ◌==◌, if◌then◌else◌, length, contains, str_eq,
}
use finance_project.Errors.{GoError, validation}
use finance_project.Models.{
  Uuid, nil_uuid, Account, LedgerEntry, accounts, entries, debit, credit, account_asset,
  account_expense, account_liability, account_revenue, account_equity, audit_create,
}
use finance_project.Action.{Action, Result, ok, err, pure, fail, crash, from_result, ◌>>=◌, ◌>>◌}
use finance_project.Platform.{Platform}
use finance_project.Platform.Reply.{Reply, done, failed}
use finance_project.Platform.Runtime.{posted}
use finance_project.Pages.{page_number, page_length, find_page}
use finance_project.Session.{World, exec, query, create, fresh_uuid, transaction}
use finance_project.Audit.{build_audit_event, log_event}

pub record LedgerEntryRequest (Decimal : Type 0) : Type 0 where
  pub account_id : Uuid
  pub entry_type : String
  pub amount : Decimal
  pub currency : String

pub record PostTransactionRequest (Decimal : Type 0) : Type 0 where
  pub description : String
  pub entries : List (LedgerEntryRequest Decimal)

-- The messages of the checks.
abbrev pub too_few_entries : GoError
too_few_entries = validation "a transaction must have at least 2 entries (one debit, one credit)"

abbrev pub amount_not_positive : GoError
amount_not_positive = validation "all entry amounts must be greater than zero"

abbrev pub unknown_entry_type : GoError
unknown_entry_type = validation "entry_type must be 'debit' or 'credit'"

abbrev pub unbalanced : GoError
unbalanced = validation "transaction is unbalanced: sum of debits must equal sum of credits"

abbrev pub unknown_account : GoError
unknown_account = validation "one or more account IDs are invalid"

-- The collection of unique account ids; `seen` holds what `accountIDs` does.
abbrev pub account_ids : {D : Type 0} → List Uuid → List (LedgerEntryRequest D) → List Uuid
account_ids seen [] = seen
account_ids seen (e ∷ es) =
    account_ids (if contains seen e.account_id then seen else seen ++ e.account_id ∷ []) es

module _ (P : Platform) where
  -- The first check of the loop that an entry fails.
  abbrev pub entry_error : LedgerEntryRequest P.Decimal → Option GoError
  entry_error e =
      if P.less_or_equal e.amount P.dec_zero
      then some amount_not_positive
      else if not (str_eq e.entry_type debit) && not (str_eq e.entry_type credit)
      then some unknown_entry_type
      else none

  -- One round's addition to the debits and the credits.
  abbrev pub tally : LedgerEntryRequest P.Decimal → P.Decimal × P.Decimal → P.Decimal × P.Decimal
  tally e (debits, credits) =
      if str_eq e.entry_type debit
      then (P.dec_add debits e.amount, credits)
      else (debits, P.dec_add credits e.amount)

  unfoldable pub total_entries :
      List (LedgerEntryRequest P.Decimal) → P.Decimal × P.Decimal → Result (P.Decimal × P.Decimal)
  total_entries [] totals = ok totals
  total_entries (e ∷ es) totals = elim (entry_error e) [
    | some error ↦ err error
    | none ↦ total_entries es (tally e totals)
  ]

  abbrev check_totals : Result (P.Decimal × P.Decimal) → Result (Unit {0})
  check_totals (ok (debits, credits)) = if P.dec_equal debits credits then ok tt else err unbalanced
  check_totals (err e) = err e
  check_totals Result.panic = Result.panic

  unfoldable pub validate : PostTransactionRequest P.Decimal → Result (Unit {0})
  unfolding total_entries
  validate req =
      if ltb (length req.entries) 2
      then err too_few_entries
      else check_totals (total_entries req.entries (P.dec_zero, P.dec_zero))

  -- The `switch` on the type of the account.
  unfoldable pub new_balance : String → String → P.Decimal → P.Decimal → P.Decimal
  new_balance account_type entry_type balance amount =
      if str_eq account_type account_asset || str_eq account_type account_expense
      then (if str_eq entry_type debit then P.dec_add balance amount else P.dec_sub balance amount)
      else if str_eq account_type account_liability
          || (str_eq account_type account_revenue || str_eq account_type account_equity)
      then (if str_eq entry_type credit then P.dec_add balance amount else P.dec_sub balance amount)
      else balance

  abbrev pub apply_entry : LedgerEntryRequest P.Decimal → Account P.Decimal → Account P.Decimal
  apply_entry e a = record a {
    balance = new_balance a.account_type e.entry_type a.balance e.amount;
  }

  -- The write through the pointer in `accountMap`: it reaches the account with that id.
  abbrev pub post_entry : LedgerEntryRequest P.Decimal → Account P.Decimal → Account P.Decimal
  post_entry e a = if a.id == e.account_id then apply_entry e a else a

  abbrev pub new_entry : Uuid → String → LedgerEntryRequest P.Decimal → LedgerEntry P.Decimal
  new_entry transaction_id description e = record {
    id = nil_uuid;
    transaction_id = transaction_id;
    account_id = e.account_id;
    entry_type = e.entry_type;
    amount = e.amount;
    currency = if str_eq e.currency "" then "INR" else e.currency;
    description = description;
  }

  abbrev create_entry : LedgerEntry P.Decimal → Action (World P) (LedgerEntry P.Decimal)
  create_entry entry =
      create P entries "failed to create ledger entry" entry.id (λ id. record entry { id = id })

  -- `accountMap[e.AccountID]` is nil for an account that was not found, and its use panics.
  abbrev require_account : List (Account P.Decimal) → Uuid → Action (World P) (Unit {0})
  require_account found id = if contains (map (λ a. a.id) found) id then pure tt else crash

  -- The loop over the entries: those created so far, and the accounts as they stand in memory.
  unfoldable pub post_entries :
      Uuid
      → String
      → List (LedgerEntryRequest P.Decimal)
      → List (LedgerEntry P.Decimal)
      → List (Account P.Decimal)
      → Action (World P) (List (LedgerEntry P.Decimal) × List (Account P.Decimal))
  post_entries transaction_id description [] created found = pure (created, found)
  post_entries transaction_id description (e ∷ es) created found = do
    entry ← create_entry (new_entry transaction_id description e)
    require_account found e.account_id
    post_entries transaction_id description es (created ++ entry ∷ []) (map (post_entry e) found)

  abbrev pub set_balance : Account P.Decimal → Account P.Decimal → Account P.Decimal
  set_balance a r = record r { balance = a.balance }

  -- The loop over `accountMap`. Go's order there is arbitrary, and here that of the query.
  unfoldable pub persist_balances : List (Account P.Decimal) → Action (World P) (Unit {0})
  persist_balances [] = pure tt
  persist_balances (a ∷ more) = do
    exec P "failed to update account balance"
        (P.update accounts (λ r. r.id == a.id) (set_balance a))
    persist_balances more

  abbrev check_found : List (Account P.Decimal) → List Uuid → Action (World P) (Unit {0})
  check_found found ids = if length found == length ids then pure tt else fail unknown_account

  -- `s.AuditService != nil`
  abbrev audit_transaction :
      Bool → Uuid → PostTransactionRequest P.Decimal → Action (World P) (Unit {0})
  audit_transaction false id req = pure tt
  audit_transaction true id req = do
    event ←
        build_audit_event P "ledger_transaction" (P.uuid_string id) audit_create "" "" ""
          (posted req.description (length req.entries))
    log_event P event

  -- The function that the database transaction runs.
  unfoldable pub post_body :
      Bool
      → PostTransactionRequest P.Decimal
      → Uuid
      → Action (World P) (List (LedgerEntry P.Decimal))
  post_body audited req id = do
    found ←
        query P "failed to lock accounts"
          (P.select accounts (λ a. contains (account_ids [] req.entries) a.id))
    check_found found (account_ids [] req.entries)
    outcome ← post_entries id req.description req.entries [] found
    persist_balances outcome.1
    audit_transaction audited id req
    pure outcome.0

  unfoldable pub post_transaction :
      Bool → PostTransactionRequest P.Decimal → Action (World P) (List (LedgerEntry P.Decimal))
  post_transaction audited req = do
    from_result (validate req)
    id ← fresh_uuid P
    transaction P (post_body audited req id)

  -- A text that is no uuid makes the statement fail.
  abbrev account_condition : Option Uuid → Reply (LedgerEntry P.Decimal → Bool)
  account_condition none = failed "invalid input syntax for type uuid"
  account_condition (some id) = done (λ e. e.account_id == id)

  abbrev entry_condition : String → Reply (LedgerEntry P.Decimal → Bool)
  entry_condition account_id =
      if str_eq account_id "" then done (λ e. true) else account_condition (P.uuid_input account_id)

  unfoldable pub get_transactions :
      String → ℤ → ℤ → Action (World P) (List (LedgerEntry P.Decimal) × ℕ)
  get_transactions account_id page size =
      find_page P entries (entry_condition account_id) "created_at DESC"
        "failed to count ledger entries" "failed to retrieve ledger entries" (page_number page)
        (page_length 10 size)
