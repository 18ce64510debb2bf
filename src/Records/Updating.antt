-- ===== src/Records/Updating.antt =====
-- What the checks of `UpdateRecord` guarantee of the updates that they let through.
use finance_project.Prelude.{
  sym, ap, ◌∙◌, eq_iff, String, ◌≡◌, refl, ◌∙◌, subst, true, false, Option, none, some, Bool-cases,
  Option-cases, ◌⊎◌, inl, inr, str_eq,
}
use finance_project.Models.{FinancialRecord, records}
use finance_project.Text.{to_upper}
use finance_project.Action.{Result, ok, err, panic, >>=-elim, from_result-ok}
use finance_project.Platform.{Platform}
use finance_project.Platform.Database.{in_columns}
use finance_project.Platform.Reply.{Reply, done, failed}
use finance_project.Platform.Updates.{
  Value, text, number, decimal, flag, null, compound, Updates, lookup, OnlyUnder, with_value,
}
use finance_project.Platform.Updates.Lookup.{lookup-with_value_ne}
use finance_project.Session.{World}
use finance_project.Records.{
  is_valid_record_type, is_valid_currency, check_type_value, check_amount_value,
  check_currency_value, positive_amount, amount_of, put_amount, read_amount, currency_update,
  check_updates,
}
use finance_project.Records.Validity.{IsValidRecord}

module _ (P : Platform) where
  -- A value under a key is absent, or of the right kind and in order.
  abbrev pub AbsentOr :
      {A : Type 0} → (A → Value P.Decimal) → (A → Type 0) → Option (Value P.Decimal) → Type 0
  AbsentOr {A} kind Q o = (o ≡ none) ⊎ ((a : A) × (o ≡ some (kind a)) × Q a)

  abbrev pub GoodType : Option (Value P.Decimal) → Type 0
  GoodType = AbsentOr text (λ t. is_valid_record_type t ≡ true)

  -- A positive amount that the column holds as it is.
  abbrev pub IsGoodAmount : P.Decimal → Type 0
  IsGoodAmount x = (P.less_or_equal x P.dec_zero ≡ false) × (P.round x ≡ x)

  abbrev pub GoodAmount : Option (Value P.Decimal) → Type 0
  GoodAmount = AbsentOr decimal IsGoodAmount

  -- An amount that the map gives has no more than the four decimals of the column.
  abbrev pub GivesExact : Updates P.Decimal → Type 0
  GivesExact m =
      (v : Value P.Decimal) (x : P.Decimal)
      → lookup "amount" m ≡ some v
      → amount_of P v ≡ ok x
      → P.round x ≡ x

  abbrev pub GoodCurrency : Option (Value P.Decimal) → Type 0
  GoodCurrency = AbsentOr text (λ c. is_valid_currency c ≡ true)

  check_type_value-ok :
      (o : Option (Value P.Decimal)) {x : Unit {0}} → check_type_value P o ≡ ok x → GoodType o
  check_type_value-ok none h = inl refl
  check_type_value-ok (some (text t)) h = elim (Bool-cases (is_valid_record_type t)) [
    | inl valid ↦ inr (t, refl, valid)
    | inr invalid ↦ cc (rw invalid at h)
  ]
  check_type_value-ok (some (number _)) h = cc
  check_type_value-ok (some (decimal _)) h = cc
  check_type_value-ok (some (flag _)) h = cc
  check_type_value-ok (some null) h = cc
  check_type_value-ok (some compound) h = cc

  positive_amount-ok :
      (y : P.Decimal) {x : P.Decimal}
      → positive_amount P y ≡ ok x
      → P.less_or_equal x P.dec_zero ≡ false
  positive_amount-ok y {x} h = elim (Bool-cases (P.less_or_equal y P.dec_zero)) [
    | inl small ↦ cc (rw small at h)
    | inr positive ↦
        let same : y ≡ x = cc (rw positive at h) in
        subst (λ z. P.less_or_equal z P.dec_zero ≡ false) same positive
  ]

  read_amount-ok :
      (r : Reply P.Decimal) {x : P.Decimal}
      → read_amount P r ≡ ok x
      → P.less_or_equal x P.dec_zero ≡ false
  read_amount-ok (done y) h = positive_amount-ok y h
  read_amount-ok (failed c) h = cc

  amount_of-ok :
      (v : Value P.Decimal) {x : P.Decimal}
      → amount_of P v ≡ ok x
      → P.less_or_equal x P.dec_zero ≡ false
  amount_of-ok (number n) h = positive_amount-ok (P.parse_float n) h
  amount_of-ok (text t) h = read_amount-ok (P.parse_decimal t) h
  amount_of-ok (decimal y) h = cc
  amount_of-ok (flag _) h = cc
  amount_of-ok null h = cc
  amount_of-ok compound h = cc

  -- The map after a check: the key is in order, and the others are as they were.
  abbrev pub Kept : String → Updates P.Decimal → Updates P.Decimal → Type 0
  Kept k m m' = (j : String) → str_eq j k ≡ false → lookup j m' ≡ lookup j m

  put_amount-ok :
      (m : Updates P.Decimal) (r : Result P.Decimal) {m' : Updates P.Decimal}
      → ((x : P.Decimal) → r ≡ ok x → IsGoodAmount x)
      → put_amount P m r ≡ ok m'
      → GoodAmount (lookup "amount" m') × Kept "amount" m m'
  put_amount-ok m (ok x) {m'} positive h =
      let same : with_value "amount" (decimal x) m ≡ m' = cc in
      subst (λ n. GoodAmount (lookup "amount" n) × Kept "amount" m n) same
        (inr (x, refl, positive x refl), λ j n. lookup-with_value_ne j "amount" (decimal x) m n)
  put_amount-ok m (err e) positive h = cc
  put_amount-ok m panic positive h = cc

  check_amount_value-ok :
      (m : Updates P.Decimal) {m' : Updates P.Decimal}
      → GivesExact m
      → check_amount_value P m ≡ ok m'
      → GoodAmount (lookup "amount" m') × Kept "amount" m m'
  check_amount_value-ok m {m'} exact h = elim (Option-cases (lookup "amount" m)) [
    | inl absent ↦
        let same : m ≡ m' = cc (rw (absent, check_amount_value) at h) in
        subst (λ n. GoodAmount (lookup "amount" n) × Kept "amount" m n) same
          (inl absent, λ j _. refl)
    | inr (v, there) ↦
        put_amount-ok m (amount_of P v) (λ x e. (amount_of-ok v e, exact v x there e))
          (rw (there, check_amount_value) at h)
  ]

  currency_update-ok :
      (m : Updates P.Decimal) (v : Value P.Decimal) {m' : Updates P.Decimal}
      → currency_update P m v ≡ ok m'
      → GoodCurrency (lookup "currency" m') × Kept "currency" m m'
  currency_update-ok m (text c) {m'} h = elim (Bool-cases (is_valid_currency (to_upper c))) [
    | inl valid ↦
        let same : with_value "currency" (text (to_upper c)) m ≡ m' = cc (rw valid at h) in
        subst (λ n. GoodCurrency (lookup "currency" n) × Kept "currency" m n) same
          (
            inr (to_upper c, refl, valid),
            λ j n. lookup-with_value_ne j "currency" (text (to_upper c)) m n,
          )
    | inr invalid ↦ cc (rw invalid at h)
  ]
  currency_update-ok m (number _) h = cc
  currency_update-ok m (decimal _) h = cc
  currency_update-ok m (flag _) h = cc
  currency_update-ok m null h = cc
  currency_update-ok m compound h = cc

  check_currency_value-ok :
      (m : Updates P.Decimal) {m' : Updates P.Decimal}
      → check_currency_value P m ≡ ok m'
      → GoodCurrency (lookup "currency" m') × Kept "currency" m m'
  check_currency_value-ok m {m'} h = elim (Option-cases (lookup "currency" m)) [
    | inl absent ↦
        let same : m ≡ m' = cc (rw (absent, check_currency_value) at h) in
        subst (λ n. GoodCurrency (lookup "currency" n) × Kept "currency" m n) same
          (inl absent, λ j _. refl)
    | inr (v, there) ↦ currency_update-ok m v (rw (there, check_currency_value) at h)
  ]

  -- The map gives the three columns under no other key than their own.
  abbrev pub NamesNoField : Updates P.Decimal → Type 0
  NamesNoField m =
      OnlyUnder (P.columns.field_of records) "type" m
      × OnlyUnder (P.columns.field_of records) "amount" m
      × OnlyUnder (P.columns.field_of records) "currency" m

  -- A column other than the one that a check may have written.
  OnlyUnder-Kept :
      (column k : String) (m m' : Updates P.Decimal)
      → P.columns.field_of records k ≡ k
      → str_eq k column ≡ false
      → Kept k m m'
      → OnlyUnder (P.columns.field_of records) column m
      → OnlyUnder (P.columns.field_of records) column m'
  OnlyUnder-Kept column k m m' own apart kept only j other names = elim (Bool-cases (str_eq j k)) [
    | inl same ↦
        let j_is_k = (eq_iff j k).0 same in
        let k_is_column : k ≡ column =
          sym own ∙ ap (P.columns.field_of records) (sym j_is_k) ∙ names in
        cc (apart, (eq_iff k column).1 k_is_column)
    | inr differ ↦ kept j differ ∙ only j other names
  ]

  -- A column that a check has written.
  OnlyUnder-written :
      (column : String) (m m' : Updates P.Decimal)
      → Kept column m m'
      → OnlyUnder (P.columns.field_of records) column m
      → OnlyUnder (P.columns.field_of records) column m'
  OnlyUnder-written column m m' kept only j other names = kept j other ∙ only j other names

  pub record IsChecked (m : Updates P.Decimal) : Type 0 where
    pub good_type : GoodType (lookup "type" m)
    pub good_amount : GoodAmount (lookup "amount" m)
    pub good_currency : GoodCurrency (lookup "currency" m)
    pub names_no_field : NamesNoField m

  pub check_updates-IsChecked :
      (m : Updates P.Decimal) (w : World P) {u : World P} {m' : Updates P.Decimal}
      → NamesNoField m
      → GivesExact m
      → check_updates P m w ≡ (ok m', u)
      → IsChecked m' × (w ≡ u)
  unfolding check_updates
  check_updates-IsChecked m w {u} {m'} (no_type, no_amount, no_currency) exact h =
      >>=-elim _ _ w h λ _ w₁ typed r₁. >>=-elim _ _ w₁ r₁ λ m₁ w₂ amounts currencies.
        let (type_ok, to_w₁) = from_result-ok _ w typed in
        let (amount_ok, to_w₂) = from_result-ok _ w₁ amounts in
        let (currency_ok, to_u) = from_result-ok _ w₂ currencies in
        let good = check_type_value-ok (lookup "type" m) type_ok in
        let (amount, kept₁) = check_amount_value-ok m exact amount_ok in
        let (currency, kept₂) = check_currency_value-ok m₁ currency_ok in
        (
          record {
            good_type = rw (kept₂ "type" refl, kept₁ "type" refl) good;
            good_amount = rw (kept₂ "amount" refl) amount;
            good_currency = currency;
            names_no_field = (
              OnlyUnder-Kept "type" "currency" m₁ m' P.columns.field_of_currency refl kept₂ (
                  OnlyUnder-Kept "type" "amount" m m₁ P.columns.field_of_amount refl kept₁ no_type),
              OnlyUnder-Kept "amount" "currency" m₁ m' P.columns.field_of_currency refl kept₂
                  (OnlyUnder-written "amount" m m₁ kept₁ no_amount),
              OnlyUnder-written "currency" m₁ m' kept₂ (
                  OnlyUnder-Kept "currency" "amount" m m₁ P.columns.field_of_amount refl kept₁
                    no_currency),
            );
          },
          to_w₁ ∙ to_w₂ ∙ to_u,
        )

  -- Checked updates keep a record valid.
  pub assign-IsValidRecord :
      (m : Updates P.Decimal) (r : FinancialRecord P.Decimal)
      → IsChecked m
      → P.round r.amount ≡ r.amount
      → IsValidRecord P r
      → IsValidRecord P (in_columns P.Decimal P.round records (P.columns.assign records m r))
  assign-IsValidRecord m r c exact v =
      let (no_type, no_amount, no_currency) = c.names_no_field in
      record {
        known_type = elim c.good_type [
          | inl absent ↦ rw (P.columns.keep_type m r absent no_type) v.known_type
          | inr (t, there, valid) ↦ rw (P.columns.assign_type m r t there no_type) valid
        ];
        positive = elim c.good_amount [
          | inl absent ↦ rw (P.columns.keep_amount m r absent no_amount, exact) v.positive
          | inr (x, there, (positive, fits)) ↦
              rw (P.columns.assign_amount m r x there no_amount, fits) positive
        ];
        known_currency = elim c.good_currency [
          | inl absent ↦ rw (P.columns.keep_currency m r absent no_currency) v.known_currency
          | inr (s, there, valid) ↦ rw (P.columns.assign_currency m r s there no_currency) valid
        ];
      }
