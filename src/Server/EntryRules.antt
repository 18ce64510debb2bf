-- ===== src/Server/EntryRules.antt =====
-- The rules that every stored entry of the ledger obeys.
use finance_project.Prelude.{false, ◌≡◌, ◌≢◌, ◌⊎◌}
use finance_project.Models.{nil_uuid, LedgerEntry, debit, credit}
use finance_project.Platform.{Platform}
use finance_project.Server.{Server}

module _ (P : Platform) where
  -- A positive amount of a named currency, on one of the two sides, under an id.
  pub record IsSound (e : LedgerEntry P.Decimal) : Type 0 where
    pub positive : P.less_or_equal e.amount P.dec_zero ≡ false
    pub side : (e.entry_type ≡ debit) ⊎ (e.entry_type ≡ credit)
    pub has_currency : e.currency ≢ ""
    pub has_id : e.id ≢ nil_uuid
