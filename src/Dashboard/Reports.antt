-- ===== src/Dashboard/Reports.antt =====
-- The reports against their meaning: one row for each group of the stored records.
use finance_project.Prelude.{
  String, if◌then◌else◌, str_eq, length, true, String, true, List, [], ◌∷◌, map, length-perm, ◌≡◌,
  refl, sym, ap, ap₂, ◌∙◌, subst, Bool-cases, inl, inr,
}
use mathlib.Core.List.{Permᴰ}
use finance_project.Models.{FinancialRecord, records, record_income, record_expense}
use finance_project.Action.{ok, >>=-elim, pure-ok}
use finance_project.Platform.{Platform}
use finance_project.Platform.Amounts.{zero_add}
use finance_project.Platform.Database.{matching}
use finance_project.Session.{World, query}
use finance_project.Session.Laws.{query-ok}
use finance_project.Dashboard.{
  GroupKey, group_by, SummaryRow, TrendRow, CategoryRow, sum_by, amount_if, by_currency, by_month,
  by_category, summary_row, trend_row, category_row, report, get_summary, get_trends,
  get_category_breakdown,
}
use finance_project.Dashboard.Rows.{IsReport, groups-IsReport, IsReport-says}

module _ (P : Platform) where
  sum_by-perm :
      (f : FinancialRecord P.Decimal → P.Decimal) (xs ys : List (FinancialRecord P.Decimal))
      → Permᴰ xs ys
      → sum_by P f xs ≡ sum_by P f ys
  sum_by-perm f _ _ Permᴰ.nil = refl
  sum_by-perm f _ _ (Permᴰ.cons e d) = ap₂ P.dec_add (ap f e) (sum_by-perm f _ _ d)
  sum_by-perm f _ _ (Permᴰ.swap {a = a} {b = b} {l = l} e g) =
      sym (P.dec_add_assoc (f a) (f b) (sum_by P f l))
      ∙ ap (λ s. P.dec_add s (sum_by P f l)) (P.dec_add_comm (f a) (f b))
      ∙ P.dec_add_assoc (f b) (f a) (sum_by P f l)
      ∙ ap₂ (λ x y. P.dec_add x (P.dec_add y (sum_by P f l))) (ap f g) (ap f e)
  sum_by-perm f _ _ (Permᴰ.trans c d) = sum_by-perm f _ _ c ∙ sum_by-perm f _ _ d

  -- The records that the reports are about.
  abbrev pub live_records : P.Db → List (FinancialRecord P.Decimal)
  live_records d = matching P.Decimal records (λ r. true) (P.rows records d)

  -- The amounts of a type, added up.
  unfoldable pub sum_of_type : String → List (FinancialRecord P.Decimal) → P.Decimal
  sum_of_type t [] = P.dec_zero
  sum_of_type t (r ∷ rs) =
      if str_eq r.record_type t then P.dec_add r.amount (sum_of_type t rs) else sum_of_type t rs

  sum_by-sum_of_type :
      (t : String) (rs : List (FinancialRecord P.Decimal))
      → sum_by P (amount_if P t) rs ≡ sum_of_type t rs
  unfolding sum_of_type
  sum_by-sum_of_type t [] = refl
  sum_by-sum_of_type t (r ∷ rs) = elim (Bool-cases (str_eq r.record_type t)) [
    | inl counts ↦
        let paid : amount_if P t r ≡ r.amount = rw counts refl in
        let total : sum_of_type t (r ∷ rs) ≡ P.dec_add r.amount (sum_of_type t rs) =
          rw counts refl in
        ap₂ P.dec_add paid (sum_by-sum_of_type t rs) ∙ sym total
    | inr passed ↦
        let nothing : amount_if P t r ≡ P.dec_zero = rw passed refl in
        let total : sum_of_type t (r ∷ rs) ≡ sum_of_type t rs = rw passed refl in
        ap₂ P.dec_add nothing (sum_by-sum_of_type t rs) ∙ zero_add P.decimals _ ∙ sym total
  ]

  unfoldable pub sum_of_amounts : List (FinancialRecord P.Decimal) → P.Decimal
  sum_of_amounts [] = P.dec_zero
  sum_of_amounts (r ∷ rs) = P.dec_add r.amount (sum_of_amounts rs)

  sum_by-sum_of_amounts :
      (rs : List (FinancialRecord P.Decimal)) → sum_by P (λ r. r.amount) rs ≡ sum_of_amounts rs
  unfolding sum_of_amounts
  sum_by-sum_of_amounts [] = refl
  sum_by-sum_of_amounts (r ∷ rs) = ap (P.dec_add r.amount) (sum_by-sum_of_amounts rs)

  -- What the rows of the reports are to say of a group.
  abbrev pub summary_of : GroupKey × List (FinancialRecord P.Decimal) → SummaryRow P.Decimal
  summary_of ((currency, rest), rs) = record {
    currency = currency;
    total_income = sum_of_type "income" rs;
    total_expenses = sum_of_type "expense" rs;
    net_balance = P.dec_sub (sum_of_type "income" rs) (sum_of_type "expense" rs);
    total_records = length rs;
  }

  abbrev pub trend_of : GroupKey × List (FinancialRecord P.Decimal) → TrendRow P.Decimal
  trend_of ((currency, month), rs) = record {
    currency = currency;
    month = month;
    income = sum_of_type "income" rs;
    expense = sum_of_type "expense" rs;
    net = P.dec_sub (sum_of_type "income" rs) (sum_of_type "expense" rs);
  }

  abbrev pub category_of : GroupKey × List (FinancialRecord P.Decimal) → CategoryRow P.Decimal
  category_of ((currency, category), rs) = record {
    currency = currency;
    category = category;
    total_income = sum_of_type "income" rs;
    total_expense = sum_of_type "expense" rs;
    total = sum_of_amounts rs;
    number = length rs;
  }

  report-IsReport :
      {R : Type 0} (key : FinancialRecord P.Decimal → GroupKey)
      (row spec : GroupKey × List (FinancialRecord P.Decimal) → R) (order message : String)
      (w : World P) {u : World P} {out : List R}
      → ((k : GroupKey) (xs ys : List (FinancialRecord P.Decimal))
          → Permᴰ xs ys
          → row (k, xs) ≡ row (k, ys))
      → ((g : GroupKey × List (FinancialRecord P.Decimal)) → row g ≡ spec g)
      → report P key row order message w ≡ (ok out, u)
      → IsReport key spec (live_records w.db) out
  report-IsReport key row spec order message w {u} {out} blind says h =
      >>=-elim (query P message (P.select records (λ r. true))) _ w h λ rs w₁ selected returned.
        let (found, _) = query-ok P _ _ w selected in
        subst (IsReport key spec (live_records w.db)) ((pure-ok returned).0) (
          IsReport-says key row spec says _ _ (
            groups-IsReport key row blind rs (live_records w.db) _
              (P.select_rows records (λ r. true) w.db rs found)
              (P.order_by_rows order (map row (group_by key rs)))))

  -- The three reports of the dashboard have exactly one row for each group of the records that are not
  -- deleted, by currency, by currency and month, and by currency and category, and no other rows: the
  -- income and the expenses of all records in the group, their difference or their total, and in the
  -- first and the last their number.
  pub dashboard-IsReport :
      (w : World P) {u v x : World P} {summary : List (SummaryRow P.Decimal)}
      {trends : List (TrendRow P.Decimal)} {breakdown : List (CategoryRow P.Decimal)}
      → get_summary P w ≡ (ok summary, u)
      → get_trends P w ≡ (ok trends, v)
      → get_category_breakdown P w ≡ (ok breakdown, x)
      → IsReport (λ r. (r.currency, "")) summary_of (live_records w.db) summary
        × IsReport (λ r. (r.currency, P.to_char_month r.date)) trend_of (live_records w.db) trends
        × IsReport (λ r. (r.currency, r.category)) category_of (live_records w.db) breakdown
  unfolding get_summary get_trends get_category_breakdown
  dashboard-IsReport w s t c = (
    report-IsReport (by_currency P) (summary_row P) summary_of _ _ w
        (λ k xs ys p.
          let i = sum_by-perm (amount_if P record_income) xs ys p in
          let e = sum_by-perm (amount_if P record_expense) xs ys p in
          let n = length-perm xs ys p in cc)
        (λ (k, rs).
          let i = sum_by-sum_of_type record_income rs in
          let e = sum_by-sum_of_type record_expense rs in rw (i, e) refl)
        s,
    report-IsReport (by_month P) (trend_row P) trend_of _ _ w
        (λ k xs ys p.
          let i = sum_by-perm (amount_if P record_income) xs ys p in
          let e = sum_by-perm (amount_if P record_expense) xs ys p in cc)
        (λ (k, rs).
          let i = sum_by-sum_of_type record_income rs in
          let e = sum_by-sum_of_type record_expense rs in rw (i, e) refl)
        t,
    report-IsReport (by_category P) (category_row P) category_of _ _ w
        (λ k xs ys p.
          let i = sum_by-perm (amount_if P record_income) xs ys p in
          let e = sum_by-perm (amount_if P record_expense) xs ys p in
          let a = sum_by-perm (λ r. r.amount) xs ys p in let n = length-perm xs ys p in cc)
        (λ (k, rs).
          let i = sum_by-sum_of_type record_income rs in
          let e = sum_by-sum_of_type record_expense rs in rw (i, e, sum_by-sum_of_amounts rs) refl)
        c,
  )
