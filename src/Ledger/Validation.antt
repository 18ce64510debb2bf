-- ===== src/Ledger/Validation.antt =====
-- The checks of `PostTransaction` against an independent description of a balanced transaction.
use finance_project.Prelude.{
  ◌≤◌, String, true, false, none, List, [], ◌∷◌, ltb, ◌≡◌, refl, sym, ap, ◌∙◌, ◌⊎◌, inl, inr, ◌↔◌,
  if◌then◌else◌, length, All, str_eq, eq_iff, arith, Bool-cases, Option-cases,
}
use finance_project.Models.{debit, credit}
use finance_project.Action.{Result, ok, err}
use finance_project.Platform.{Platform}
use finance_project.Platform.Amounts.{zero_add}
use finance_project.Ledger.{
  LedgerEntryRequest, PostTransactionRequest, entry_error, tally, total_entries, check_totals,
  validate,
}

module _ (P : Platform) where
  -- The amounts of one entry type, added up.
  unfoldable pub sum_of : String → List (LedgerEntryRequest P.Decimal) → P.Decimal
  sum_of entry_type [] = P.dec_zero
  sum_of entry_type (e ∷ es) =
      if str_eq e.entry_type entry_type
      then P.dec_add e.amount (sum_of entry_type es)
      else sum_of entry_type es

  abbrev pub IsWellFormed : LedgerEntryRequest P.Decimal → Type 0
  IsWellFormed e =
      (P.less_or_equal e.amount P.dec_zero ≡ false)
      × ((e.entry_type ≡ debit) ⊎ (e.entry_type ≡ credit))

  -- At least two entries, each positive and of a known type, with equal debits and credits.
  pub record IsBalanced (req : PostTransactionRequest P.Decimal) : Type 0 where
    pub enough : 2 ≤ length req.entries
    pub well_formed : All IsWellFormed req.entries
    pub balanced : sum_of debit req.entries ≡ sum_of credit req.entries

  entry_error-none : (e : LedgerEntryRequest P.Decimal) → entry_error P e ≡ none → IsWellFormed e
  entry_error-none e h = ground (arith, eq_iff e.entry_type debit, eq_iff e.entry_type credit)

  entry_error_of_IsWellFormed :
      (e : LedgerEntryRequest P.Decimal) → IsWellFormed e → entry_error P e ≡ none
  entry_error_of_IsWellFormed e h =
      ground (arith, eq_iff e.entry_type debit, eq_iff e.entry_type credit)

  -- A well-formed entry is a debit and no credit, or a credit and no debit.
  pub side_cases :
      (e : LedgerEntryRequest P.Decimal)
      → IsWellFormed e
      → ((str_eq e.entry_type debit ≡ true) × (str_eq e.entry_type credit ≡ false))
        ⊎ ((str_eq e.entry_type debit ≡ false) × (str_eq e.entry_type credit ≡ true))
  side_cases e (_, inl is_debit) = inl (rw is_debit (refl, refl))
  side_cases e (_, inr is_credit) = inr (rw is_credit (refl, refl))

  -- After an entry, the totals and the sums of the rest stand as before.
  tally-sum_of :
      (e : LedgerEntryRequest P.Decimal) (es : List (LedgerEntryRequest P.Decimal))
      (d c : P.Decimal)
      → IsWellFormed e
      → (P.dec_add (tally P e (d, c)).0 (sum_of debit es) ≡ P.dec_add d (sum_of debit (e ∷ es)))
        × (P.dec_add (tally P e (d, c)).1 (sum_of credit es) ≡ P.dec_add c (sum_of credit (e ∷ es)))
  unfolding sum_of
  tally-sum_of e es d c h = elim (side_cases e h) [
    | inl (p, q) ↦ rw (p, q) (P.dec_add_assoc d e.amount (sum_of debit es), refl)
    | inr (p, q) ↦ rw (p, q) (refl, P.dec_add_assoc c e.amount (sum_of credit es))
  ]

  total_entries_of_valid :
      (es : List (LedgerEntryRequest P.Decimal)) (d c : P.Decimal)
      → All IsWellFormed es
      → total_entries P es (d, c)
        ≡ ok (P.dec_add d (sum_of debit es), P.dec_add c (sum_of credit es))
  unfolding total_entries sum_of
  total_entries_of_valid [] d c h = rw (P.dec_add_zero d, P.dec_add_zero c)
  total_entries_of_valid (e ∷ es) d c (valid, h) =
      let (p, q) = tally-sum_of e es d c valid in
      rw (entry_error_of_IsWellFormed e valid, total_entries)
        (total_entries_of_valid es (tally P e (d, c)).0 (tally P e (d, c)).1 h
          ∙ ap ok (λ i. (p i, q i)))

  total_entries-valid :
      (es : List (LedgerEntryRequest P.Decimal)) (totals : P.Decimal × P.Decimal)
      {t : P.Decimal × P.Decimal}
      → total_entries P es totals ≡ ok t
      → All IsWellFormed es
  unfolding total_entries
  total_entries-valid [] totals h = tt
  total_entries-valid (e ∷ es) totals {t} h = elim (Option-cases (entry_error P e)) [
    | inl passed ↦ (
      entry_error-none e passed,
      total_entries-valid es (tally P e totals) (rw (passed, total_entries) at h),
    )
    | inr (c, failed) ↦ cc (sym (rw (failed, total_entries) at h))
  ]

  total_entries_from_zero :
      (es : List (LedgerEntryRequest P.Decimal))
      → All IsWellFormed es
      → total_entries P es (P.dec_zero, P.dec_zero) ≡ ok (sum_of debit es, sum_of credit es)
  total_entries_from_zero es h =
      total_entries_of_valid es P.dec_zero P.dec_zero h
      ∙ ap ok
          (λ i. (zero_add P.decimals (sum_of debit es) i, zero_add P.decimals (sum_of credit es) i))

  check_totals-ok :
      (r : Result (P.Decimal × P.Decimal))
      → check_totals P r ≡ ok tt
      → (t : P.Decimal × P.Decimal) × (r ≡ ok t) × (t.0 ≡ t.1)
  check_totals-ok (ok (d, c)) h = ((d, c), refl, (P.dec_equal_iff d c).0 (ground arith))
  check_totals-ok (err e) h = cc
  check_totals-ok Result.panic h = cc

  validate-IsBalanced :
      (req : PostTransactionRequest P.Decimal) → validate P req ≡ ok tt → IsBalanced req
  unfolding validate
  validate-IsBalanced req h = elim (Bool-cases (ltb (length req.entries) 2)) [
    | inl few ↦ cc (sym (rw (few, validate) at h))
    | inr many ↦
        let (t, total, equal) = check_totals-ok _ (rw (many, validate) at h) in
        let valid = total_entries-valid req.entries _ total in
        record {
          enough = ground arith;
          well_formed = valid;
          balanced = cc (total, total_entries_from_zero req.entries valid, equal);
        }
  ]

  -- `PostTransaction` lets a request through exactly when it is a balanced transaction.
  pub validate-iff-IsBalanced :
      (req : PostTransactionRequest P.Decimal) → (validate P req ≡ ok tt) ↔ IsBalanced req
  unfolding validate
  validate-iff-IsBalanced req = (
    validate-IsBalanced req,
    λ b.
        rw (total_entries_from_zero req.entries b.well_formed, validate)
          (ground (
            arith,
            b.enough,
            b.balanced,
            P.dec_equal_iff (sum_of debit req.entries) (sum_of credit req.entries),
          )),
  )
