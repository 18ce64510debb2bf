-- ===== src/Example/LedgerTests.antt =====
-- The ledger's theorems at a salary of 50 paid into a cash account.
use finance_project.Prelude.{
  ℤ, pos, ◌≡◌, ◌≢◌, refl, true, List, [], ◌∷◌, inl, inr, ◌↔◌, arith, ℕ, String,
}
use finance_project.Models.{Account, LedgerEntry, AuditEvent, accounts}
use finance_project.Action.{ok, err, ◌>>=◌}
use finance_project.Session.{World, exec, query, fresh_uuid, before_create, create, transaction}
use finance_project.Session.Laws.{SameRows}
use finance_project.Audit.{build_audit_event, log_event}
use finance_project.Audit.Atomic.{Logged, log_event-Logged}
use finance_project.Ledger.{
  PostTransactionRequest, post_transaction, validate, total_entries, new_balance, post_entries,
  persist_balances, post_body, unbalanced,
}
use finance_project.Ledger.Validation.{IsBalanced, sum_of, validate-iff-IsBalanced}
use finance_project.Ledger.Movement.{AreMoved}
use finance_project.Ledger.Posted.{IsPosted, post_transaction-IsPosted}
use finance_project.Ledger.Refinement.{post_transaction_atomic}
use finance_project.Ledger.Conservation.{trial_balance, post_transaction-trial_balance}
use finance_project.Example.Int.{◌+ℤ◌, ◌-ℤ◌}
use finance_project.Example.Tables.{Tables}
use finance_project.Example.Machine.{machine}

abbrev cash : Account ℤ
cash = record {
  id = 101;
  user_id = 7;
  name = "Cash";
  account_type = "asset";
  currency = "INR";
  balance = pos 10;
}

abbrev revenue : Account ℤ
revenue = record {
  id = 102;
  user_id = 7;
  name = "Revenue";
  account_type = "revenue";
  currency = "INR";
  balance = pos 3;
}

abbrev no_rows : Tables ℤ
no_rows = record {
  user_rows = [];
  account_rows = cash ∷ revenue ∷ [];
  record_rows = [];
  entry_rows = [];
  event_rows = [];
  outbox_rows = [];
  token_rows = [];
  key_rows = [];
}

abbrev pub start : World machine
start = record { db = record { tables = no_rows; keyed = refl }; calls = 0 }

abbrev pub salary : PostTransactionRequest ℤ
salary = record {
  description = "Salary";
  entries =
      record { account_id = 101; entry_type = "debit"; amount = pos 50; currency = "" }
      ∷ record { account_id = 102; entry_type = "credit"; amount = pos 50; currency = "INR" }
      ∷ [];
}

abbrev half_salary : PostTransactionRequest ℤ
half_salary = record {
  description = "Half";
  entries =
      record { account_id = 101; entry_type = "debit"; amount = pos 50; currency = "" }
      ∷ record { account_id = 102; entry_type = "credit"; amount = pos 25; currency = "INR" }
      ∷ [];
}

abbrev posted_entry : ℕ → ℕ → String → LedgerEntry ℤ
posted_entry id account_id entry_type = record {
  id = id;
  transaction_id = 1;
  account_id = account_id;
  entry_type = entry_type;
  amount = pos 50;
  currency = "INR";
  description = "Salary";
}

abbrev salary_entries : List (LedgerEntry ℤ)
salary_entries = posted_entry 2 101 "debit" ∷ posted_entry 3 102 "credit" ∷ []

abbrev paid : World machine
paid = (post_transaction machine true salary start).1

salary_posts : post_transaction machine true salary start ≡ (ok salary_entries, paid)
unfolding post_transaction validate total_entries post_body post_entries persist_balances
    new_balance build_audit_event log_event exec query fresh_uuid before_create create transaction
    ◌>>=◌ ◌+ℤ◌ ◌-ℤ◌
salary_posts = refl

salary-IsBalanced : IsBalanced machine salary
unfolding sum_of ◌+ℤ◌
salary-IsBalanced = record {
  enough = omega arith;
  well_formed = ((refl, inl refl), ((refl, inr refl), tt));
  balanced = refl;
}

half_salary_refused : (post_transaction machine true half_salary start).0 ≡ err unbalanced
unfolding post_transaction validate total_entries exec query fresh_uuid before_create create
    transaction ◌>>=◌ ◌+ℤ◌
half_salary_refused = refl

abbrev login : AuditEvent
login = record {
  id = 9;
  entity_type = "user";
  entity_id = "u";
  action = "login";
  actor_id = "u";
  changes = "";
  request_id = "r";
  ip_address = "localhost";
}

abbrev logged : World machine
logged = (log_event machine login start).1

login_is_logged : log_event machine login start ≡ (ok tt, logged)
unfolding log_event exec fresh_uuid before_create create ◌>>=◌
login_is_logged = refl

log_event-Logged_example : Logged machine login start.db logged.db
log_event-Logged_example = log_event-Logged machine login start login_is_logged

validate-iff-IsBalanced_example : (validate machine salary ≡ ok tt) ↔ IsBalanced machine salary
validate-iff-IsBalanced_example = validate-iff-IsBalanced machine salary

post_transaction-IsPosted_example :
    IsBalanced machine salary × IsPosted machine true salary salary_entries start.db paid.db
post_transaction-IsPosted_example =
    post_transaction-IsPosted machine true salary start (refl, (refl, tt))
      (inl refl, (inr (inr (inr (inl refl))), tt)) salary_posts

half_salary_fails :
    (result : List (LedgerEntry ℤ))
    → (post_transaction machine true half_salary start).0 ≢ ok result
half_salary_fails result h = cc (half_salary_refused, h)

post_transaction_atomic_example :
    SameRows machine start.db (post_transaction machine true half_salary start).1.db
post_transaction_atomic_example =
    post_transaction_atomic machine true half_salary start half_salary_fails

post_transaction-trial_balance_example :
    (trial_balance machine (machine.rows accounts paid.db)
      ≡ trial_balance machine (machine.rows accounts start.db))
    × AreMoved machine salary.entries
        (machine.rows accounts start.db)
        (machine.rows accounts paid.db)
post_transaction-trial_balance_example =
    post_transaction-trial_balance machine true salary start (refl, (refl, tt))
      (inl refl, (inr (inr (inr (inl refl))), tt)) salary_posts
