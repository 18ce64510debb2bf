-- ===== src/Records/Filters.antt =====
-- What the filters of a list of records ask for.
use finance_project.Prelude.{
  ==_iff, negsuc, subst, sym, pos, pos_part, neg_part, ◌+◌, ◌<◌, ◌≢◌, ◌↔◌, true, str_eq, eq_iff,
  Bool-cases, ℕ, ℤ, ◌≤◌, String, Option, none, some, ◌≡◌, inl, inr, refl, ap, ◌∙◌, arith,
}
use finance_project.Models.{Uuid, FinancialRecord}
use finance_project.Platform.{Platform}
use finance_project.Dates.{parse_date, day}
use finance_project.Records.{
  is_owner, from_time, to_time, date_of, is_text, RecordFilters, present, record_matches,
}

module _ (P : Platform) where
  -- A filter that is given and not empty asks for its text.
  abbrev pub Asks : Option String → String → Type 0
  Asks filter text = (s : String) → filter ≡ some s → s ≢ "" → text ≡ s

  -- The first and the last day that are asked for, where the texts are dates. A date before the year 1
  -- is before every record.
  abbrev pub NotBefore : Option String → ℕ → Type 0
  NotBefore filter date =
      (s : String) (t : ℕ) → filter ≡ some s → s ≢ "" → parse_date s ≡ some (pos t) → t ≤ date

  abbrev pub NotAfter : Option String → ℕ → Type 0
  NotAfter filter date =
      (s : String) (t : ℤ)
      → filter ≡ some s
      → s ≢ ""
      → parse_date s ≡ some t
      → date + neg_part t < pos_part t + day

  -- What the filters ask of a record.
  pub record Matches (f : RecordFilters) (owner : Option Uuid) (r : FinancialRecord P.Decimal)
      : Type 0 where
    pub of_type : Asks f.record_type r.record_type
    pub of_category : Asks f.category r.category
    pub not_before : NotBefore f.start_date r.date
    pub not_after : NotAfter f.end_date r.date
    pub of_owner : (u : Uuid) → owner ≡ some u → r.user_id ≡ u

  is_text-Asks : (o : Option String) (s : String) → (is_text (present o) s ≡ true) ↔ Asks o s
  is_text-Asks none s = (λ _ t e. cc, λ _. refl)
  is_text-Asks (some t) s = elim (Bool-cases (str_eq t "")) [
    | inl empty ↦
        let none_asked = (eq_iff t "").0 empty in (λ _ x e n. absurd (n (cc)), λ _. rw empty refl)
    | inr given ↦ (
      λ h x e n. (eq_iff s t).0 (rw given at h) ∙ cc,
      λ asks. rw given ((eq_iff s t).1 (asks t refl (λ e. cc (given, (eq_iff t "").1 e)))),
    )
  ]

  -- The day that a filter gives.
  asked_day :
      (o : Option String) (t : ℤ)
      → (date_of (present o) ≡ some t)
        ↔ ((s : String) × (o ≡ some s) × (s ≢ "") × (parse_date s ≡ some t))
  asked_day none t = (λ h. cc, λ (s, e, _, _). cc)
  asked_day (some x) t = elim (Bool-cases (str_eq x "")) [
    | inl empty ↦ (
      λ h. cc (rw empty at h),
      λ (s, e, n, _). let x_is_s : x ≡ s = cc in absurd (n (sym x_is_s ∙ (eq_iff x "").0 empty)),
    )
    | inr given ↦ (
      λ h. (x, refl, (λ e. cc (given, (eq_iff x "").1 e)), rw given at h),
      λ (s, e, _, d). let x_is_s : x ≡ s = cc in rw given (ap parse_date x_is_s ∙ d),
    )
  ]

  day_from : (d : Option ℤ) (n : ℕ) → (from_time d n ≡ true) ↔ ((t : ℕ) → d ≡ some (pos t) → t ≤ n)
  day_from none n = (λ _ t e. cc, λ _. refl)
  day_from (some (pos t)) n = (
    λ h x e. let same : t ≡ x = cc in subst (λ y. y ≤ n) same (ground (arith, h)),
    λ b. ground (arith, b t refl),
  )
  day_from (some (negsuc t)) n = (λ _ x e. cc, λ _. refl)

  day_to :
      (d : Option ℤ) (n : ℕ)
      → (to_time d n ≡ true) ↔ ((t : ℤ) → d ≡ some t → n + neg_part t < pos_part t + day)
  day_to none n = (λ _ t e. cc, λ _. refl)
  day_to (some (pos t)) n = (
    λ h x e.
        let same : pos t ≡ x = cc in
        subst (λ y. n + neg_part y < pos_part y + day) same (ground (arith, h)),
    λ b. ground (arith, b (pos t) refl),
  )
  day_to (some (negsuc t)) n = (
    λ h x e.
        let same : negsuc t ≡ x = cc in
        subst (λ y. n + neg_part y < pos_part y + day) same (ground (arith, h)),
    λ b. ground (arith, b (negsuc t) refl),
  )

  owner-asks :
      (owner : Option Uuid) (id : Uuid)
      → (is_owner P owner id ≡ true) ↔ ((u : Uuid) → owner ≡ some u → id ≡ u)
  owner-asks none id = (λ _ u e. cc, λ _. refl)
  owner-asks (some v) id = (λ h u e. (==_iff id v).0 h ∙ cc, λ same. (==_iff id v).1 (same v refl))

  -- The condition of the query says what the filters ask.
  pub record_matches-iff-Matches :
      (f : RecordFilters) (owner : Option Uuid) (r : FinancialRecord P.Decimal)
      → (record_matches P f owner r ≡ true) ↔ Matches f owner r
  record_matches-iff-Matches f owner r = (
    λ h. record {
      of_type = (is_text-Asks f.record_type r.record_type).0 (ground (arith, h));
      of_category = (is_text-Asks f.category r.category).0 (ground (arith, h));
      not_before = λ s t e n d.
          (day_from (date_of (present f.start_date)) r.date).0 (ground (arith, h)) t
            ((asked_day f.start_date (pos t)).1 (s, e, n, d));
      not_after = λ s t e n d.
          (day_to (date_of (present f.end_date)) r.date).0 (ground (arith, h)) t
            ((asked_day f.end_date t).1 (s, e, n, d));
      of_owner = (owner-asks owner r.user_id).0 (ground (arith, h));
    },
    λ m.
        let a = (is_text-Asks f.record_type r.record_type).1 m.of_type in
        let b = (is_text-Asks f.category r.category).1 m.of_category in
        let c = (day_from (date_of (present f.start_date)) r.date).1 λ t e.
          let (s, is, n, d) = (asked_day f.start_date (pos t)).0 e in m.not_before s t is n d in
        let d =
          (day_to (date_of (present f.end_date)) r.date).1
            λ t e. let (s, is, n, d) = (asked_day f.end_date t).0 e in m.not_after s t is n d in
        let o = (owner-asks owner r.user_id).1 m.of_owner in rw (a, b, c, d, o) refl,
  )
