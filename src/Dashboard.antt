-- ===== src/Dashboard.antt =====
-- services/dashboard_service.go: sums of the records that are not deleted, in groups.
pub mod Groups
pub mod Rows
pub mod Reports
use finance_project.Prelude.{
  ℕ, String, Bool, true, ◌&&◌, Option, none, some, List, [], ◌∷◌, map, length, str_eq,
  if◌then◌else◌,
}
use finance_project.Models.{FinancialRecord, records, record_income, record_expense}
use finance_project.Action.{Action, pure, ◌>>=◌}
use finance_project.Platform.{Platform}
use finance_project.Session.{World, query}

-- What a query groups by: the currency, and a second text, which is empty if there is none.
abbrev pub GroupKey : Type 0
GroupKey = String × String

abbrev pub same_key : GroupKey → GroupKey → Bool
same_key (a, b) (c, d) = str_eq a c && str_eq b d

-- `GROUP BY`: the rows of each group, in their order.
module _ {A : Type 0} (key : A → GroupKey) where
  abbrev pub add_row : A → List (GroupKey × List A) → List (GroupKey × List A)
  add_row r [] = (key r, r ∷ []) ∷ []
  add_row r ((k, ms) ∷ gs) = if same_key (key r) k then (k, r ∷ ms) ∷ gs else (k, ms) ∷ add_row r gs

  abbrev pub group_by : List A → List (GroupKey × List A)
  group_by [] = []
  group_by (r ∷ rs) = add_row r (group_by rs)

pub record SummaryRow (D : Type 0) : Type 0 where
  pub currency : String
  pub total_income : D
  pub total_expenses : D
  pub net_balance : D
  pub total_records : ℕ

pub record TrendRow (D : Type 0) : Type 0 where
  pub currency : String
  pub month : String
  pub income : D
  pub expense : D
  pub net : D

pub record CategoryRow (D : Type 0) : Type 0 where
  pub currency : String
  pub category : String
  pub total_income : D
  pub total_expense : D
  pub total : D
  pub number : ℕ

module _ (P : Platform) where
  abbrev Records : Type 0
  Records = List (FinancialRecord P.Decimal)

  -- `CASE WHEN type = … THEN amount ELSE 0 END`
  abbrev pub amount_if : String → FinancialRecord P.Decimal → P.Decimal
  amount_if t r = if str_eq r.record_type t then r.amount else P.dec_zero

  -- `COALESCE(SUM(…), 0)`
  abbrev pub sum_by : (FinancialRecord P.Decimal → P.Decimal) → Records → P.Decimal
  sum_by f [] = P.dec_zero
  sum_by f (r ∷ rs) = P.dec_add (f r) (sum_by f rs)

  abbrev pub income : Records → P.Decimal
  income = sum_by (amount_if record_income)

  abbrev pub expenses : Records → P.Decimal
  expenses = sum_by (amount_if record_expense)

  abbrev pub by_currency : FinancialRecord P.Decimal → GroupKey
  by_currency r = (r.currency, "")

  abbrev pub by_month : FinancialRecord P.Decimal → GroupKey
  by_month r = (r.currency, P.to_char_month r.date)

  abbrev pub by_category : FinancialRecord P.Decimal → GroupKey
  by_category r = (r.currency, r.category)

  -- The row of a group in each report.
  abbrev pub summary_row : GroupKey × Records → SummaryRow P.Decimal
  summary_row (k, rs) = record {
    currency = k.0;
    total_income = income rs;
    total_expenses = expenses rs;
    net_balance = P.dec_sub (income rs) (expenses rs);
    total_records = length rs;
  }

  abbrev pub trend_row : GroupKey × Records → TrendRow P.Decimal
  trend_row (k, rs) = record {
    currency = k.0;
    month = k.1;
    income = income rs;
    expense = expenses rs;
    net = P.dec_sub (income rs) (expenses rs);
  }

  abbrev pub category_row : GroupKey × Records → CategoryRow P.Decimal
  category_row (k, rs) = record {
    currency = k.0;
    category = k.1;
    total_income = income rs;
    total_expense = expenses rs;
    total = sum_by (λ r. r.amount) rs;
    number = length rs;
  }

  -- The rows that a query with these groups returns, in the order of its clause.
  abbrev pub report :
      {R : Type 0}
      → (FinancialRecord P.Decimal → GroupKey)
      → (GroupKey × Records → R)
      → String
      → String
      → Action (World P) (List R)
  report key row order message = do
    rs ← query P message (P.select records (λ r. true))
    pure (P.order_by order (map row (group_by key rs)))

  -- The rows go into a map under their currency, which forgets their order.
  unfoldable pub get_summary : Action (World P) (List (SummaryRow P.Decimal))
  get_summary = report by_currency summary_row "" "failed to retrieve dashboard summary"

  unfoldable pub get_trends : Action (World P) (List (TrendRow P.Decimal))
  get_trends = report by_month trend_row "month ASC" "failed to retrieve trend data"

  unfoldable pub get_category_breakdown : Action (World P) (List (CategoryRow P.Decimal))
  get_category_breakdown =
      report by_category category_row "total DESC" "failed to retrieve category breakdown"
