-- ===== src/Audit.antt =====
-- services/audit_service.go: `BuildAuditEvent` and `LogEvent`, which writes an event and its outbox
-- entry in the transaction of the caller, and `QueryEvents`.
pub mod Atomic
use Prim.Native.String.{◌++◌ as join}
use finance_project.Prelude.{ℕ, ℤ, Bool, true, ◌&&◌, ◌||◌, List, str_eq, String, Option, none, some}
use finance_project.Errors.{internal}
use finance_project.Models.{Uuid, nil_uuid, AuditEvent, OutboxEntry, events, outbox}
use finance_project.Action.{Action, pure, fail, ◌>>=◌, ◌>>◌}
use finance_project.Platform.{Platform}
use finance_project.Platform.Reply.{Reply, done, failed}
use finance_project.Platform.Runtime.{Changes, no_changes}
use finance_project.Pages.{page_number, page_length, find_page}
use finance_project.Session.{World, create, fresh_uuid}

module _ (P : Platform) where
  abbrev changes_text : Reply String → String
  changes_text (done text) = text
  changes_text (failed _) = ""

  -- The JSON of the changes; a nil value and a failed `json.Marshal` both leave it empty.
  unfoldable pub changes_json : Changes P.Decimal → String
  changes_json no_changes = ""
  changes_json changes = changes_text (P.marshal_changes changes)

  unfoldable pub build_audit_event :
      String
      → String
      → String
      → String
      → String
      → String
      → Changes P.Decimal
      → Action (World P) AuditEvent
  unfolding changes_json
  build_audit_event entity_type entity_id action actor_id request_id ip_address changes = do
    id ← fresh_uuid P
    pure (record {
      id = id;
      entity_type = entity_type;
      entity_id = entity_id;
      action = action;
      actor_id = actor_id;
      changes = changes_json changes;
      request_id = request_id;
      ip_address = ip_address;
    })

  -- The outbox entry of an event, before its id is filled in.
  abbrev pub outbox_entry : AuditEvent → String → OutboxEntry
  outbox_entry event payload = record {
    id = nil_uuid;
    event_id = event.id;
    event_type = join event.action (join "." event.entity_type);
    payload = payload;
    published_at = none;
  }

  abbrev create_event : AuditEvent → Action (World P) AuditEvent
  create_event event =
      create P events "failed to create audit event" event.id (λ id. record event { id = id })

  abbrev create_outbox : OutboxEntry → Action (World P) OutboxEntry
  create_outbox entry =
      create P outbox "failed to create outbox entry" entry.id (λ id. record entry { id = id })

  abbrev pub or_unmarshalled : Reply String → Action (World P) String
  or_unmarshalled (done payload) = pure payload
  or_unmarshalled (failed cause) =
      fail (internal "failed to marshal audit event for outbox" (some cause))

  unfoldable pub log_event : AuditEvent → Action (World P) Unit
  log_event event = do
    row ← create_event event
    payload ← or_unmarshalled (P.marshal_event row)
    create_outbox (outbox_entry row payload)
    pure tt

-- The filters of `QueryEvents`: those that are present and not empty.
pub record EventFilters : Type 0 where
  pub entity_type : Option String
  pub entity_id : Option String
  pub actor_id : Option String
  pub action : Option String

-- `v, ok := filters[key]; ok && v != ""`, and equality of the column with it
abbrev pub equals_present : Option String → String → Bool
equals_present none s = true
equals_present (some t) s = str_eq t "" || str_eq s t

abbrev pub event_matches : EventFilters → AuditEvent → Bool
event_matches f e =
    equals_present f.entity_type e.entity_type
    && (equals_present f.entity_id e.entity_id
        && (equals_present f.actor_id e.actor_id && equals_present f.action e.action))

module _ (P : Platform) where
  unfoldable pub query_events : EventFilters → ℤ → ℤ → Action (World P) (List AuditEvent × ℕ)
  query_events f page size =
      find_page P events (done (event_matches f)) "created_at DESC" "failed to count audit events"
        "failed to retrieve audit events" (page_number page) (page_length 20 size)
