-- ===== src/Ledger/Movement.antt =====
-- How a transaction moves the balances of the accounts, said without the code that moves them.
use finance_project.Prelude.{
  String, Bool, true, false, List, [], ◌∷◌, map, ◌≡◌, refl, sym, ap, ◌∙◌, ◌||◌, ◌⊎◌, inl, inr,
  if◌then◌else◌, All, Bool-cases, str_eq, ◌==◌,
}
use finance_project.Models.{
  Uuid, Account, debit, credit, account_asset, account_expense, account_liability, account_revenue,
  account_equity,
}
use finance_project.Platform.{Platform}
use finance_project.Platform.Amounts.{negate, sub-eq-add_negate, negate-add, negate-sub}
use finance_project.Ledger.{LedgerEntryRequest, new_balance, apply_entry, post_entry}
use finance_project.Ledger.Validation.{IsWellFormed, side_cases}
use finance_project.Ledger.Entries.{post_all}
use finance_project.Ledger.Applied.{post_all_balance}

abbrev debit_normal : String → Bool
debit_normal t = str_eq t account_asset || str_eq t account_expense

abbrev credit_normal : String → Bool
credit_normal t =
    str_eq t account_liability || (str_eq t account_revenue || str_eq t account_equity)

-- One of the five account types.
abbrev pub IsKnownType : String → Type 0
IsKnownType t =
    (t ≡ account_asset)
    ⊎ ((t ≡ account_expense)
        ⊎ ((t ≡ account_liability) ⊎ ((t ≡ account_revenue) ⊎ (t ≡ account_equity))))

-- A known type is of one kind.
kind_cases :
    (t : String)
    → IsKnownType t
    → (debit_normal t ≡ true) ⊎ ((debit_normal t ≡ false) × (credit_normal t ≡ true))
kind_cases t (inl e) = inl (rw e refl)
kind_cases t (inr (inl e)) = inl (rw e refl)
kind_cases t (inr (inr (inl e))) = inr (rw e (refl, refl))
kind_cases t (inr (inr (inr (inl e)))) = inr (rw e (refl, refl))
kind_cases t (inr (inr (inr (inr e)))) = inr (rw e (refl, refl))

module _ (P : Platform) where
  -- A balance as value owned: that of an asset or an expense counts, and that of a liability, of
  -- revenue or of equity counts against it.
  abbrev pub signed_balance : Account P.Decimal → P.Decimal
  signed_balance a = if debit_normal a.account_type then a.balance else negate P.decimals a.balance

  -- What an entry adds to the signed balance of its account.
  abbrev pub effect : LedgerEntryRequest P.Decimal → P.Decimal
  effect e = if str_eq e.entry_type debit then e.amount else negate P.decimals e.amount

  pub signed_balance-apply_entry :
      (e : LedgerEntryRequest P.Decimal) (a : Account P.Decimal)
      → IsWellFormed P e
      → IsKnownType a.account_type
      → signed_balance (apply_entry P e a) ≡ P.dec_add (signed_balance a) (effect e)
  unfolding new_balance
  signed_balance-apply_entry e a h k = go (kind_cases a.account_type k) (side_cases P e h)
    where
      go :
          (debit_normal a.account_type ≡ true)
            ⊎ ((debit_normal a.account_type ≡ false) × (credit_normal a.account_type ≡ true))
          → ((str_eq e.entry_type debit ≡ true) × (str_eq e.entry_type credit ≡ false))
            ⊎ ((str_eq e.entry_type debit ≡ false) × (str_eq e.entry_type credit ≡ true))
          → signed_balance (apply_entry P e a) ≡ P.dec_add (signed_balance a) (effect e)
      go (inl d) (inl (p, q)) = rw (d, p, new_balance) refl
      go (inl d) (inr (p, q)) =
          rw (d, p, new_balance) (sub-eq-add_negate P.decimals a.balance e.amount)
      go (inr (d, c)) (inl (p, q)) =
          rw (d, c, p, q, new_balance) (negate-sub P.decimals a.balance e.amount)
      go (inr (d, c)) (inr (p, q)) =
          rw (d, c, p, q, new_balance) (negate-add P.decimals a.balance e.amount)

  abbrev pub AllKnown : List (Account P.Decimal) → Type 0
  AllKnown = All (λ a. IsKnownType a.account_type)

  -- The debits less the credits of one account.
  unfoldable pub net_of : Uuid → List (LedgerEntryRequest P.Decimal) → P.Decimal
  net_of id [] = P.dec_zero
  net_of id (e ∷ es) =
      if id == e.account_id then P.dec_add (effect e) (net_of id es) else net_of id es

  -- The rows after some entries differ from those before in the balances alone, and the signed
  -- balance of an account has grown by its debits less its credits.
  abbrev pub AreMoved :
      List (LedgerEntryRequest P.Decimal)
      → List (Account P.Decimal)
      → List (Account P.Decimal)
      → Type 0
  AreMoved es [] [] = Unit
  AreMoved es [] (b ∷ bs) = ⊥
  AreMoved es (a ∷ rest) [] = ⊥
  AreMoved es (a ∷ rest) (b ∷ bs) =
      (b ≡ record a { balance = b.balance })
      × (signed_balance b ≡ P.dec_add (signed_balance a) (net_of a.id es))
      × AreMoved es rest bs

  signed_balance-post_all :
      (es : List (LedgerEntryRequest P.Decimal)) (a : Account P.Decimal)
      → All (IsWellFormed P) es
      → IsKnownType a.account_type
      → signed_balance (post_all P es a) ≡ P.dec_add (signed_balance a) (net_of a.id es)
  unfolding net_of
  signed_balance-post_all [] a _ k = sym (P.dec_add_zero _)
  signed_balance-post_all (e ∷ es) a (formed, more) k = elim (Bool-cases (a.id == e.account_id)) [
    | inl hit ↦
        let moved : post_entry P e a ≡ apply_entry P e a = rw hit refl in
        let counted : net_of a.id (e ∷ es) ≡ P.dec_add (effect e) (net_of a.id es) = rw hit refl in
        ap (λ b. signed_balance (post_all P es b)) moved
        ∙ signed_balance-post_all es (apply_entry P e a) more k
        ∙ ap (λ x. P.dec_add x (net_of a.id es)) (signed_balance-apply_entry e a formed k)
        ∙ P.dec_add_assoc _ _ _
        ∙ ap (P.dec_add (signed_balance a)) (sym counted)
    | inr miss ↦
        let moved : post_entry P e a ≡ a = rw miss refl in
        let counted : net_of a.id (e ∷ es) ≡ net_of a.id es = rw miss refl in
        ap (λ b. signed_balance (post_all P es b)) moved
        ∙ signed_balance-post_all es a more k
        ∙ ap (P.dec_add (signed_balance a)) (sym counted)
  ]

  -- Entries that are applied to all accounts move them.
  pub post_all-AreMoved :
      (es : List (LedgerEntryRequest P.Decimal)) (rows : List (Account P.Decimal))
      → All (IsWellFormed P) es
      → AllKnown rows
      → AreMoved es rows (map (post_all P es) rows)
  post_all-AreMoved es [] formed _ = tt
  post_all-AreMoved es (a ∷ more) formed (k, known) = (
    post_all_balance P es a,
    signed_balance-post_all es a formed k,
    post_all-AreMoved es more formed known,
  )
