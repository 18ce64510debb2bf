-- ===== src/Ledger/Exact.antt =====
-- Amounts that the columns of type numeric(19,4) hold as they are.
use finance_project.Prelude.{String, List, [], ◌∷◌, map, ◌≡◌, refl, sym, ap, ap₂, ◌∙◌, All}
use finance_project.Models.{Uuid, LedgerEntry, entries}
use finance_project.Platform.{Platform}
use finance_project.Platform.Database.{in_columns}
use finance_project.Ledger.{LedgerEntryRequest, PostTransactionRequest}
use finance_project.Ledger.Entries.{Stores}
use finance_project.Ledger.Applied.{IsExact}

module _ (P : Platform) where
  -- A request whose amounts have no more decimals than the columns.
  abbrev pub HasExactAmounts : PostTransactionRequest P.Decimal → Type 0
  HasExactAmounts req = All (λ e. IsExact P e.amount) req.entries

  -- The rows of such a request are stored as they are returned.
  pub Stores-IsExact :
      (id : Uuid) (description : String) (es : List (LedgerEntryRequest P.Decimal))
      (stored : List (LedgerEntry P.Decimal))
      → All (λ e. IsExact P e.amount) es
      → Stores P id description es stored
      → map (in_columns P.Decimal P.round entries) stored ≡ stored
  Stores-IsExact id description [] [] _ h = refl
  Stores-IsExact id description [] (s ∷ ss) _ h = elim h [ ]
  Stores-IsExact id description (e ∷ es) [] _ h = elim h [ ]
  Stores-IsExact id description (e ∷ es) (s ∷ ss) (exact, more) (is, _, h) =
      let amount : s.amount ≡ e.amount = ap (λ x. x.amount) is in
      ap₂ (λ x xs. x ∷ xs)
        (ap (λ a. record s { amount = a }) (ap P.round amount ∙ exact ∙ sym amount))
        (Stores-IsExact id description es ss more h)
