-- ===== src/Server/Booked.antt =====
-- The tables of the ledger: what each posted transaction keeps of the entries, the server keeps.
use finance_project.Prelude.{String, List, ◌++◌, ◌≡◌, refl, subst, sym, ap, ◌∙◌}
use finance_project.Models.{Uuid, LedgerEntry, entries, outbox}
use finance_project.Platform.{Platform}
use finance_project.Audit.Atomic.{log_event-Logged}
use finance_project.Outbox.{publish_at}
use finance_project.Ledger.{PostTransactionRequest}
use finance_project.Ledger.Validation.{IsBalanced}
use finance_project.Ledger.Entries.{Stores}
use finance_project.Ledger.Exact.{HasExactAmounts, Stores-IsExact}
use finance_project.Kept.{KeptByStatements}
use finance_project.Kept.Posting.{post_transaction-Keeps}
use finance_project.Kept.Steps.{run-Keeps}
use finance_project.Platform.Reply.{done}
use finance_project.Http.Requests.{Json}
use finance_project.Tokens.{TokenService}
use finance_project.RateLimiter.{Limiters}
use finance_project.Server.{Engine, Server, ◌⟶*◌}
use finance_project.Server.History.{apart, spared}

module _ (P : Platform) (I : List (LedgerEntry P.Decimal) → Type 0)
    (step : (req : PostTransactionRequest P.Decimal) (id : Uuid)
        (rows : List (LedgerEntry P.Decimal)) (result : List (LedgerEntry P.Decimal))
      → IsBalanced P req
      → Stores P id req.description req.entries result
      → I rows
      → I (rows ++ result)) where
  unaffected :
      (d e : P.Db)
      → P.rows entries e ≡ P.rows entries d
      → I (P.rows entries d)
      → I (P.rows entries e)
  unaffected d e same = subst I (sym same)

  KeptByStatements_of_entries : KeptByStatements P (λ d. I (P.rows entries d))
  KeptByStatements_of_entries = record {
    Allows = HasExactAmounts P;
    same = λ d e same. unaffected d e (same entries);
    inserts = λ t r d e free h.
        unaffected d e (P.insert_others t entries r d e (apart t entries free refl) h);
    marks = λ x now d e h.
        unaffected d e (P.update_others outbox entries _ (publish_at now) d e (λ q. cc) h);
    logs = λ event a w u h.
        unaffected w.db u.db ((log_event-Logged P event w h).others entries (λ q. cc) (λ q. cc));
    updates = λ t p f d e free h.
        unaffected d e (P.update_others t entries p f d e (apart t entries free refl) h);
    update_maps = λ t p m d e free h. unaffected d e (
        P.update_map_others t entries p m d e (apart t entries free refl) (spared t entries refl)
          h);
    deletes = λ t p d e free h.
        unaffected d e
          (P.delete_others t entries p d e (apart t entries free refl) (spared t entries refl) h);
    posts = λ b req exact.
        post_transaction-Keeps P (λ d. I (P.rows entries d))
          (λ d e same. unaffected d e (same entries)) b req
          λ result d e balanced posted i.
            subst I
              (sym (
                posted.entry_rows
                ∙ ap (λ rs. P.rows entries d ++ rs)
                    (Stores-IsExact P posted.id req.description req.entries result exact
                      posted.stored)))
              (step req posted.id (P.rows entries d) result balanced posted.stored i);
  }

  module _ (R : Limiters) (E : Engine P.Decimal) (J : Json P.Decimal) (s : TokenService) where
    pub run-Keeps_of_entries :
        {t u : Server P R}
        → ((text : String) (req : PostTransactionRequest P.Decimal)
            → J.bind_transaction text ≡ done req
            → HasExactAmounts P req)
        → ◌⟶*◌ P R E J s t u
        → I (P.rows entries t.world.db)
        → I (P.rows entries u.world.db)
    unfolding KeptByStatements_of_entries
    run-Keeps_of_entries exact run =
        run-Keeps P (λ d. I (P.rows entries d)) J KeptByStatements_of_entries exact R E s run
