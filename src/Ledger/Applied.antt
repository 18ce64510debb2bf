-- ===== src/Ledger/Applied.antt =====
-- What the entries of a transaction make of one account, and of an exact balance.
use finance_project.Prelude.{
  List, [], ◌∷◌, map, ◌≡◌, refl, ap, ◌∙◌, inl, inr, All, All-imp, All-member, Bool-cases, arith,
  ◌==◌,
}
use mathlib.Core.List.{Memᴰ}
use finance_project.Models.{Account, accounts}
use finance_project.Platform.{Platform}
use finance_project.Ledger.{LedgerEntryRequest, new_balance, post_entry}
use finance_project.Ledger.Entries.{post_all}

module _ (P : Platform) where
  -- An amount that its column holds as it is.
  abbrev pub IsExact : P.Decimal → Type 0
  IsExact x = P.round x ≡ x

  post_entry_balance :
      (e : LedgerEntryRequest P.Decimal) (a : Account P.Decimal) (b : P.Decimal)
      → record (post_entry P e a) { balance = b } ≡ record a { balance = b }
  post_entry_balance e a b = elim (Bool-cases (a.id == e.account_id)) [
    | inl hit ↦ rw hit refl
    | inr miss ↦ rw miss refl
  ]

  -- Entries change the balance of an account and nothing else.
  pub post_all_balance :
      (es : List (LedgerEntryRequest P.Decimal)) (a : Account P.Decimal)
      → post_all P es a ≡ record a { balance = (post_all P es a).balance }
  post_all_balance [] a = refl
  post_all_balance (e ∷ es) a = post_all_balance es (post_entry P e a) ∙ post_entry_balance e a _

  pub post_all-id :
      (es : List (LedgerEntryRequest P.Decimal)) (a : Account P.Decimal)
      → (post_all P es a).id ≡ a.id
  post_all-id es a = ap (λ b. b.id) (post_all_balance es a)

  -- An entry of an exact amount leaves the balances exact.
  post_entry-IsExact :
      (e : LedgerEntryRequest P.Decimal) (a : Account P.Decimal)
      → IsExact e.amount
      → IsExact a.balance
      → IsExact (post_entry P e a).balance
  unfolding new_balance
  post_entry-IsExact e a x y =
      ground (arith, P.round_add a.balance e.amount y x, P.round_sub a.balance e.amount y x)

  post_all-IsExact_one :
      (es : List (LedgerEntryRequest P.Decimal)) (a : Account P.Decimal)
      → All (λ e. IsExact e.amount) es
      → IsExact a.balance
      → IsExact (post_all P es a).balance
  post_all-IsExact_one [] a _ y = y
  post_all-IsExact_one (e ∷ es) a (x, xs) y =
      post_all-IsExact_one es (post_entry P e a) xs (post_entry-IsExact e a x y)

  pub post_all-IsExact :
      (es : List (LedgerEntryRequest P.Decimal)) (found : List (Account P.Decimal))
      → All (λ e. IsExact e.amount) es
      → All (λ a. IsExact a.balance) found
      → All (λ a. IsExact a.balance) (map (post_all P es) found)
  post_all-IsExact es [] xs _ = tt
  post_all-IsExact es (a ∷ found) xs (y, ys) =
      (post_all-IsExact_one es a xs y, post_all-IsExact es found xs ys)

  pub rows-IsExact :
      (d : P.Db) (found : List (Account P.Decimal))
      → All (λ a. Memᴰ a (P.rows accounts d)) found
      → All (λ a. IsExact a.balance) found
  rows-IsExact d found =
      All-imp found λ a m.
        ap (λ b. b.balance) (All-member _ (P.rows accounts d) (P.rows_in_columns accounts d) m)
