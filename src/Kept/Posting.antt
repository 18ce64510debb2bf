-- ===== src/Kept/Posting.antt =====
-- The posting of a transaction keeps what a posted transaction keeps.
use finance_project.Prelude.{Bool, List, ◌≡◌, ◌≢◌, refl, sym, ap, subst}
use finance_project.Models.{LedgerEntry}
use finance_project.Action.{Result, ok, err, panic}
use finance_project.Platform.{Platform}
use finance_project.Session.{World}
use finance_project.Session.Laws.{SameRows}
use finance_project.Session.Keeps.{Keeps}
use finance_project.Ledger.{PostTransactionRequest, post_transaction}
use finance_project.Ledger.Validation.{IsBalanced}
use finance_project.Ledger.Refinement.{
  IsEntered, post_transaction-IsEntered, post_transaction_atomic,
}

module _ (P : Platform) (I : P.Db → Type 0) (same : (d e : P.Db) → SameRows P d e → I d → I e)
    (audited : Bool) (req : PostTransactionRequest P.Decimal)
    (posted : (result : List (LedgerEntry P.Decimal)) (d e : P.Db)
      → IsBalanced P req
      → IsEntered P audited req result d e
      → I d
      → I e) where
  pub post_transaction-Keeps : Keeps P I (post_transaction P audited req)
  post_transaction-Keeps w i = go (post_transaction P audited req w) refl
    where
      unposted :
          ((result : List (LedgerEntry P.Decimal))
            → (post_transaction P audited req w).0 ≢ ok result)
          → I (post_transaction P audited req w).1.db
      unposted h = same w.db _ (post_transaction_atomic P audited req w h) i

      go :
          (x : Result (List (LedgerEntry P.Decimal)) × World P)
          → post_transaction P audited req w ≡ x
          → I (post_transaction P audited req w).1.db
      go (ok result, u) e =
          let (balanced, is_posted) = post_transaction-IsEntered P audited req w e in
          subst (λ (x : Result (List (LedgerEntry P.Decimal)) × World P). I x.1.db) (sym e)
            (posted result w.db u.db balanced is_posted i)
      go (err c, u) e = unposted (λ r h. cc (ap (λ p. p.0) e, h))
      go (panic, u) e = unposted (λ r h. cc (ap (λ p. p.0) e, h))
