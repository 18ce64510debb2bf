-- ===== src/Kept.antt =====
-- Properties of the database that every operation of the services keeps: they follow from what the
-- single statements keep, and on the tables of the audit trail and of the ledger from what the
-- operations keep that write them.
pub mod Tokens
pub mod Services
pub mod Handlers
pub mod Posting
pub mod Routes
pub mod Steps
use finance_project.Prelude.{
  ℕ, ◌==◌, Bool, true, false, Option, none, some, String, List, ◌≡◌, ◌≢◌, inl, inr, Bool-cases,
}
use finance_project.Errors.{GoError}
use finance_project.Models.{Table, Row, AuditEvent, OutboxEntry, events, entries, outbox}
use finance_project.Action.{Action, Result, ok, err, panic, from_result}
use finance_project.Platform.{Platform}
use finance_project.Platform.Reply.{Reply, done, failed}
use finance_project.Platform.Updates.{Updates}
use finance_project.Platform.Runtime.{Changes}
use finance_project.Session.{World}
use finance_project.Session.Laws.{SameRows}
use finance_project.Session.Keeps.{Keeps, Keeps-then, Keeps-fresh_uuid, Retains}
use finance_project.Audit.{build_audit_event, log_event}
use finance_project.Outbox.{publish_at}
use finance_project.Ledger.{PostTransactionRequest, post_transaction}

-- The tables that only `PostTransaction`, `LogEvent` and the publisher write.
abbrev pub is_reserved : Table → Bool
is_reserved events = true
is_reserved entries = true
is_reserved outbox = true
is_reserved _ = false

module _ (P : Platform) (I : P.Db → Type 0) where
  -- What the statements keep that the services run, and the operations on the reserved tables: the
  -- logging of an event that succeeds, and the posting of a transaction however it ends.
  pub record KeptByStatements : Type 1 where
    -- the requests whose posting keeps the property
    pub Allows : PostTransactionRequest P.Decimal → Type 0
    pub same : (d e : P.Db) → SameRows P d e → I d → I e
    pub inserts :
        (t : Table) (r : Row P.Decimal t) (d e : P.Db)
        → is_reserved t ≡ false
        → P.insert t r d ≡ done e
        → I d
        → I e
    pub updates :
        (t : Table) (p : Row P.Decimal t → Bool) (f : Row P.Decimal t → Row P.Decimal t)
        (d e : P.Db)
        → is_reserved t ≡ false
        → P.update t p f d ≡ done e
        → I d
        → I e
    pub update_maps :
        (t : Table) (p : Row P.Decimal t → Bool) (m : Updates P.Decimal) (d e : P.Db)
        → is_reserved t ≡ false
        → P.update_map t p m d ≡ done e
        → I d
        → I e
    pub deletes :
        (t : Table) (p : Row P.Decimal t → Bool) (d e : P.Db)
        → is_reserved t ≡ false
        → P.delete t p d ≡ done e
        → I d
        → I e
    pub marks :
        (x : OutboxEntry) (now : ℕ) (d e : P.Db)
        → P.update outbox (λ r. r.id == x.id) (publish_at now) d ≡ done e
        → I d
        → I e
    pub logs : (event : AuditEvent) → Retains P I (log_event P event)
    pub posts :
        (audited : Bool) (req : PostTransactionRequest P.Decimal)
        → Allows req
        → Keeps P I (post_transaction P audited req)

  pub build_audit_event-Keeps :
      (entity_type entity_id action actor_id request_id ip_address : String)
      (diff : Changes P.Decimal)
      → Keeps P I
          (build_audit_event P entity_type entity_id action actor_id request_id ip_address diff)
  unfolding build_audit_event
  build_audit_event-Keeps entity_type entity_id action actor_id request_id ip_address diff =
      Keeps-then P I _ _ (Keeps-fresh_uuid P I) λ _ w i. i
