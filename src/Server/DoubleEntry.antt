-- ===== src/Server/DoubleEntry.antt =====
-- The books balance: what the ledger has debited it has credited.
use finance_project.Prelude.{String, List, [], ◌∷◌, ◌≡◌, str_eq, if◌then◌else◌}
use finance_project.Models.{LedgerEntry, debit, credit}
use finance_project.Platform.{Platform}
use finance_project.Server.{Server}

module _ (P : Platform) where
  -- The amounts of the entries of a type, in all.
  unfoldable pub total_of : String → List (LedgerEntry P.Decimal) → P.Decimal
  total_of side [] = P.dec_zero
  total_of side (e ∷ es) =
      if str_eq e.entry_type side then P.dec_add e.amount (total_of side es) else total_of side es

  -- The debits of the ledger equal its credits.
  abbrev pub IsInBalance : List (LedgerEntry P.Decimal) → Type 0
  IsInBalance rows = total_of debit rows ≡ total_of credit rows
