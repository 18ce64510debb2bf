-- ===== src/Ledger/Posted.antt =====
-- What `PostTransaction` promises of a transaction that it returns.
use finance_project.Prelude.{
  Bool, List, ◌++◌, map, true, ◌≡◌, ◌≢◌, subst, sym, ap, ◌∙◌, contains, All,
}
use finance_project.Models.{Uuid, LedgerEntry, Table, accounts, entries, events, outbox}
use finance_project.Action.{ok}
use finance_project.Platform.{Platform}
use finance_project.Session.{World}
use finance_project.Ledger.{PostTransactionRequest, post_transaction}
use finance_project.Ledger.Validation.{IsBalanced}
use finance_project.Ledger.Entries.{Stores}
use finance_project.Ledger.Exact.{HasExactAmounts, Stores-IsExact}
use finance_project.Ledger.Movement.{IsKnownType, AreMoved, post_all-AreMoved}
use finance_project.Ledger.Refinement.{Trail, post_transaction-IsEntered}

module _ (P : Platform) where
  -- Between the databases `d` and `e` the requested transaction has been posted.
  pub record IsPosted (audited : Bool) (req : PostTransactionRequest P.Decimal)
      (result : List (LedgerEntry P.Decimal)) (d e : P.Db) : Type 0 where
    pub id : Uuid
    pub stored : Stores P id req.description req.entries result
    pub known :
        All (λ r. contains (map (λ a. a.id) (P.rows accounts d)) r.account_id ≡ true) req.entries
    pub entry_rows : P.rows entries e ≡ P.rows entries d ++ result
    pub moved : AreMoved P req.entries (P.rows accounts d) (P.rows accounts e)
    pub trail : Trail P audited id d e
    pub others :
        (t : Table) → t ≢ accounts → t ≢ entries → t ≢ events → t ≢ outbox → P.rows t e ≡ P.rows t d

  -- A transaction that `PostTransaction` returns is balanced; its entries have been added in order
  -- under one transaction id, each on the account, on the side and with the amount that was asked for;
  -- each account has moved by its debits less its credits; its audit event is recorded if there is an
  -- audit service, and nothing else has changed. The amounts have no more than the four decimals of
  -- the columns, and every account is of a known type.
  pub post_transaction-IsPosted :
      (audited : Bool) (req : PostTransactionRequest P.Decimal) (w : World P) {u : World P}
      {result : List (LedgerEntry P.Decimal)}
      → HasExactAmounts P req
      → All (λ a. IsKnownType a.account_type) (P.rows accounts w.db)
      → post_transaction P audited req w ≡ (ok result, u)
      → IsBalanced P req × IsPosted audited req result w.db u.db
  post_transaction-IsPosted audited req w exact k h =
      let (b, entered) = post_transaction-IsEntered P audited req w h in
      (
        b,
        record {
          id = entered.id;
          stored = entered.stored;
          known = entered.known;
          entry_rows =
              entered.entry_rows
              ∙ ap (λ rs. P.rows entries w.db ++ rs)
                  (Stores-IsExact P entered.id req.description req.entries _ exact entered.stored);
          moved =
              subst (AreMoved P req.entries (P.rows accounts w.db))
                (sym (entered.account_rows exact))
                (post_all-AreMoved P req.entries (P.rows accounts w.db) b.well_formed k);
          trail = entered.trail;
          others = entered.others;
        },
      )
