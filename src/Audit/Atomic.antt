-- ===== src/Audit/Atomic.antt =====
-- An event and its outbox entry are written together.
use Prim.Native.String.{◌++◌ as join}
use finance_project.Prelude.{
  none, refl, sym, ap, ◌∙◌, String, ◌≡◌, ◌≢◌, subst, [], ◌∷◌, ◌++◌, arith,
}
use finance_project.Models.{nil_uuid, Table, AuditEvent, OutboxEntry, events, outbox}
use finance_project.Action.{ok, >>=-elim, pure-ok}
use finance_project.Platform.{Platform}
use finance_project.Platform.Reply.{Reply, done, failed}
use finance_project.Platform.Runtime.{Changes}
use finance_project.Session.{World}
use finance_project.Session.Laws.{create-elim, fresh_uuid-ok}
use finance_project.Audit.{outbox_entry, or_unmarshalled, log_event, build_audit_event}

-- From `d` to `e` the event has been stored, and an outbox entry that carries it.
pub record Recorded (P : Platform) (event : AuditEvent) (d e : P.Db) : Type 0 where
  pub row : AuditEvent
  pub entry : OutboxEntry
  pub payload : String
  pub is_event : row ≡ record event { id = row.id }
  pub id_kept : event.id ≢ nil_uuid → row.id ≡ event.id
  pub marshalled : P.marshal_event row ≡ done payload
  pub is_entry : entry ≡ record {
    id = entry.id;
    event_id = row.id;
    event_type = join row.action (join "." row.entity_type);
    payload = payload;
    published_at = none;
  }
  pub event_row : P.rows events e ≡ P.rows events d ++ row ∷ []
  pub outbox_row : P.rows outbox e ≡ P.rows outbox d ++ entry ∷ []

-- And no other table has changed.
pub record Logged (P : Platform) (event : AuditEvent) (d e : P.Db) : Type 0 where
  pub recorded : Recorded P event d e
  pub others : (t : Table) → t ≢ events → t ≢ outbox → P.rows t e ≡ P.rows t d

module _ (P : Platform) where
  or_unmarshalled-ok :
      (r : Reply String) (w : World P) {u : World P} {text : String}
      → or_unmarshalled P r w ≡ (ok text, u)
      → (r ≡ done text) × (w ≡ u)
  or_unmarshalled-ok (done text) w h = ground arith
  or_unmarshalled-ok (failed c) w h = cc (ap (λ p. p.0) h)

  -- When LogEvent returns, the event has been stored, under its id if it had one, as has an outbox
  -- entry that carries the stored event, and no other table has changed.
  pub log_event-Logged :
      (event : AuditEvent) (w : World P) {u : World P} {x : Unit {0}}
      → log_event P event w ≡ (ok x, u)
      → Logged P event w.db u.db
  unfolding log_event
  log_event-Logged event w {u} h = >>=-elim _ _ w h λ row w₁ event_in rest.
      create-elim P events _ event.id _ w event_in λ id is_row _ kept event_row others.
        >>=-elim _ _ w₁ rest λ payload w₂ text rest'.
          >>=-elim _ _ w₂ rest' λ entry w₃ outbox_in returned.
            create-elim P outbox _ nil_uuid _ w₂ outbox_in
              λ entry_id is_entry _ _ outbox_row others'.
                let (marshalled, to_w₂) = or_unmarshalled-ok (P.marshal_event row) w₁ text in
                let to_u : w₃ ≡ u = (pure-ok returned).1 in
                record {
                  recorded = record {
                    row = row;
                    entry = entry;
                    payload = payload;
                    is_event = subst (λ r. r ≡ record event { id = r.id }) is_row refl;
                    id_kept = λ n. subst (λ r. r.id ≡ event.id) is_row (kept n);
                    marshalled = marshalled;
                    is_entry =
                        subst (λ r. r ≡ record (outbox_entry P row payload) { id = r.id }) is_entry
                          refl;
                    event_row = rw (← to_u, others' events (λ q. cc), ← to_w₂) event_row;
                    outbox_row = rw (← to_u, outbox_row, ← to_w₂, others outbox (λ q. cc)) refl;
                  };
                  others = λ t p q. rw (← to_u, others' t q, ← to_w₂) (others t p);
                }

  -- A record of an event depends on the rows of its two tables only.
  pub Recorded-congr :
      {event : AuditEvent} {d e : P.Db} (d' e' : P.Db)
      → P.rows events d ≡ P.rows events d'
      → P.rows outbox d ≡ P.rows outbox d'
      → P.rows events e' ≡ P.rows events e
      → P.rows outbox e' ≡ P.rows outbox e
      → Recorded P event d e
      → Recorded P event d' e'
  Recorded-congr d' e' p q p' q' r = record {
    row = r.row;
    entry = r.entry;
    payload = r.payload;
    is_event = r.is_event;
    id_kept = r.id_kept;
    marshalled = r.marshalled;
    is_entry = r.is_entry;
    event_row = p' ∙ r.event_row ∙ ap (λ rs. rs ++ r.row ∷ []) p;
    outbox_row = q' ∙ r.outbox_row ∙ ap (λ rs. rs ++ r.entry ∷ []) q;
  }

  -- A built event carries what it is built from, under a new id, and nothing is stored yet.
  pub build_audit_event-ok :
      (entity_type entity_id action actor_id request_id ip_address : String)
      (changes : Changes P.Decimal) (w : World P) {u : World P} {event : AuditEvent}
      → build_audit_event P entity_type entity_id action actor_id request_id ip_address changes w
        ≡ (ok event, u)
      → (event.entity_type ≡ entity_type)
        × (event.entity_id ≡ entity_id)
        × (event.action ≡ action)
        × (event.actor_id ≡ actor_id)
        × (event.id ≢ nil_uuid)
        × (u.db ≡ w.db)
  unfolding build_audit_event
  build_audit_event-ok entity_type entity_id action actor_id request_id ip_address _ w h =
      >>=-elim _ _ w h λ id w₁ drawn returned.
        let (is_event, to_u) = pure-ok returned in
        let (_, fresh, same) = fresh_uuid-ok P w drawn in
        (
          ap (λ e. e.entity_type) (sym is_event),
          ap (λ e. e.entity_id) (sym is_event),
          ap (λ e. e.action) (sym is_event),
          ap (λ e. e.actor_id) (sym is_event),
          subst (λ e. e.id ≢ nil_uuid) is_event fresh,
          ap (λ v. v.db) (sym to_u) ∙ same,
        )
