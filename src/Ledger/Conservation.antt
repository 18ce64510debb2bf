-- ===== src/Ledger/Conservation.antt =====
-- Double entry: a posted transaction moves value between accounts and makes none.
use finance_project.Prelude.{
  Bool, true, false, List, [], ◌∷◌, map, ◌≡◌, refl, sym, ap, ap₂, ◌∙◌, subst, inl, inr, contains,
  All, Distinct, Bool-cases, arith, ◌==◌, ==_iff,
}
use mathlib.Core.List.{map-map, map-id}
use finance_project.Models.{Account, LedgerEntry, accounts, debit, credit}
use finance_project.Action.{ok}
use finance_project.Platform.{Platform}
use finance_project.Platform.Amounts.{negate, add_swap, negate-add, add_negate}
use finance_project.Session.{World}
use finance_project.Ledger.{
  LedgerEntryRequest, PostTransactionRequest, post_entry, post_transaction,
}
use finance_project.Ledger.Validation.{IsBalanced, IsWellFormed, sum_of, side_cases}
use finance_project.Ledger.Entries.{post_all, ids-post_entry}
use finance_project.Ledger.Movement.{
  IsKnownType, signed_balance, effect, signed_balance-apply_entry, AllKnown, AreMoved,
  post_all-AreMoved,
}
use finance_project.Ledger.Exact.{HasExactAmounts}
use finance_project.Ledger.Refinement.{post_transaction-IsEntered}

module _ (P : Platform) where
  pub trial_balance : List (Account P.Decimal) → P.Decimal
  trial_balance [] = P.dec_zero
  trial_balance (a ∷ rs) = P.dec_add (signed_balance P a) (trial_balance rs)

  effects : List (LedgerEntryRequest P.Decimal) → P.Decimal
  effects [] = P.dec_zero
  effects (e ∷ es) = P.dec_add (effect P e) (effects es)

  AllKnown-post_entry :
      (e : LedgerEntryRequest P.Decimal) (rs : List (Account P.Decimal))
      → AllKnown P rs
      → AllKnown P (map (post_entry P e) rs)
  AllKnown-post_entry e [] h = tt
  AllKnown-post_entry e (a ∷ rs) (k, h) = elim (Bool-cases (a.id == e.account_id)) [
    | inl hit ↦ (rw hit k, AllKnown-post_entry e rs h)
    | inr miss ↦ (rw miss k, AllKnown-post_entry e rs h)
  ]

  -- An entry leaves accounts alone where none has its id.
  map-post_entry_miss :
      (e : LedgerEntryRequest P.Decimal) (rs : List (Account P.Decimal))
      → contains (map (λ a. a.id) rs) e.account_id ≡ false
      → map (post_entry P e) rs ≡ rs
  map-post_entry_miss e [] h = refl
  map-post_entry_miss e (a ∷ rs) h =
      let miss : (a.id == e.account_id) ≡ false = ground arith in
      ap₂ (λ x xs. x ∷ xs) (rw miss refl) (map-post_entry_miss e rs (ground arith))

  -- Where its account stands once, an entry adds its effect to the trial balance.
  trial_balance-post_entry :
      (e : LedgerEntryRequest P.Decimal) (rs : List (Account P.Decimal))
      → IsWellFormed P e
      → AllKnown P rs
      → Distinct (map (λ a. a.id) rs)
      → contains (map (λ a. a.id) rs) e.account_id ≡ true
      → trial_balance (map (post_entry P e) rs) ≡ P.dec_add (trial_balance rs) (effect P e)
  unfolding trial_balance
  trial_balance-post_entry e [] h k d c = cc
  trial_balance-post_entry e (a ∷ rs) h (ka, k) (new, d) c =
      elim (Bool-cases (a.id == e.account_id)) [
        | inl hit ↦
            let once : contains (map (λ b. b.id) rs) e.account_id ≡ false =
              subst (λ i. contains (map (λ b. b.id) rs) i ≡ false) ((==_iff _ _).0 hit) new in
            ap₂ P.dec_add (rw hit (signed_balance-apply_entry P e a h ka))
              (ap trial_balance (map-post_entry_miss e rs once))
            ∙ add_swap P.decimals _ _ _
        | inr miss ↦
            ap₂ P.dec_add (rw miss refl) (trial_balance-post_entry e rs h k d (ground arith))
            ∙ sym (P.dec_add_assoc _ _ _)
      ]

  trial_balance-post_all :
      (es : List (LedgerEntryRequest P.Decimal)) (rs : List (Account P.Decimal))
      → All (IsWellFormed P) es
      → AllKnown P rs
      → Distinct (map (λ a. a.id) rs)
      → All (λ e. contains (map (λ a. a.id) rs) e.account_id ≡ true) es
      → trial_balance (map (post_all P es) rs) ≡ P.dec_add (trial_balance rs) (effects es)
  unfolding effects
  trial_balance-post_all [] rs h k d c = ap trial_balance (map-id rs) ∙ sym (P.dec_add_zero _)
  trial_balance-post_all (e ∷ es) rs (he, h) k d (ce, c) =
      let same = ids-post_entry P e rs in
      ap trial_balance (sym (map-map (post_all P es) (post_entry P e) rs))
      ∙ trial_balance-post_all es (map (post_entry P e) rs) h (AllKnown-post_entry e rs k)
          (subst Distinct (sym same) d)
          (subst (λ ids. All (λ e'. contains ids e'.account_id ≡ true) es) (sym same) c)
      ∙ ap (λ t. P.dec_add t (effects es)) (trial_balance-post_entry e rs he k d ce)
      ∙ P.dec_add_assoc _ _ _

  -- The effects of entries are their debits less their credits.
  effects-sum_of :
      (es : List (LedgerEntryRequest P.Decimal))
      → All (IsWellFormed P) es
      → effects es ≡ P.dec_add (sum_of P debit es) (negate P.decimals (sum_of P credit es))
  unfolding effects sum_of
  effects-sum_of [] h = sym (add_negate P.decimals P.dec_zero)
  effects-sum_of (e ∷ es) (he, h) = elim (side_cases P e he) [
    | inl (p, q) ↦
        let paid : effect P e ≡ e.amount = rw p refl in
        rw (p, q) (ap₂ P.dec_add paid (effects-sum_of es h) ∙ sym (P.dec_add_assoc _ _ _))
    | inr (p, q) ↦
        let paid : effect P e ≡ negate P.decimals e.amount = rw p refl in
        rw (p, q)
          (ap₂ P.dec_add paid (effects-sum_of es h)
            ∙ sym (P.dec_add_assoc _ _ _)
            ∙ ap (λ t. P.dec_add t (negate P.decimals (sum_of P credit es))) (P.dec_add_comm _ _)
            ∙ P.dec_add_assoc _ _ _
            ∙ ap (P.dec_add (sum_of P debit es))
                (sym (negate-add P.decimals e.amount (sum_of P credit es))))
  ]

  effects_balanced :
      (req : PostTransactionRequest P.Decimal) → IsBalanced P req → effects req.entries ≡ P.dec_zero
  effects_balanced req b =
      effects-sum_of req.entries b.well_formed
      ∙ ap (λ t. P.dec_add t (negate P.decimals (sum_of P credit req.entries))) b.balanced
      ∙ add_negate P.decimals (sum_of P credit req.entries)

  -- A posted transaction, whose amounts have no more than the four decimals of the columns, leaves the
  -- trial balance as it was, which is assets and expenses less liabilities, revenue and equity over
  -- the accounts of all users, while it moves each account by its own debits less its own credits and
  -- changes nothing else of it. Every account is of a known type.
  pub post_transaction-trial_balance :
      (audited : Bool) (req : PostTransactionRequest P.Decimal) (w : World P) {u : World P}
      {result : List (LedgerEntry P.Decimal)}
      → HasExactAmounts P req
      → All (λ a. IsKnownType a.account_type) (P.rows accounts w.db)
      → post_transaction P audited req w ≡ (ok result, u)
      → (trial_balance (P.rows accounts u.db) ≡ trial_balance (P.rows accounts w.db))
        × AreMoved P req.entries (P.rows accounts w.db) (P.rows accounts u.db)
  post_transaction-trial_balance audited req w {u} exact k h =
      let (b, entered) = post_transaction-IsEntered P audited req w h in
      let moved = entered.account_rows exact in
      (
        ap trial_balance moved
            ∙ trial_balance-post_all req.entries (P.rows accounts w.db) b.well_formed k
                (P.accounts_distinct w.db) entered.known
            ∙ ap (P.dec_add (trial_balance (P.rows accounts w.db))) (effects_balanced req b)
            ∙ P.dec_add_zero _,
        subst (AreMoved P req.entries (P.rows accounts w.db)) (sym moved)
            (post_all-AreMoved P req.entries (P.rows accounts w.db) b.well_formed k),
      )
