-- ===== src/Outbox.antt =====
-- services/outbox_publisher.go: the worker that publishes the entries of the outbox and deletes what
-- has expired.
pub mod Delivery
pub mod Liveness
pub mod Draining
use finance_project.Prelude.{
  ℕ, zero, suc, pos, ltb, ◌==◌, ◌&&◌, Bool, true, false, Option, none, some, List, [], ◌∷◌,
}
use finance_project.Models.{OutboxEntry, outbox, keys, tokens, is_revoked}
use finance_project.Action.{Action, ok, pure, ◌>>=◌, ◌>>◌}
use finance_project.Platform.{Platform}
use finance_project.Platform.Reply.{Reply, done, failed}
use finance_project.Session.{World, read_clock, attempt}

abbrev pub is_pending : OutboxEntry → Bool
is_pending e = elim e.published_at [ none ↦ true | some _ ↦ false ]

abbrev pub publish_at : ℕ → OutboxEntry → OutboxEntry
publish_at now e = record e { published_at = some now }

abbrev pub batch_size : ℕ
batch_size = 50

module _ (P : Platform) where
  -- An entry that the database does not let be marked is logged and left for a later batch.
  unfoldable pub mark_published : OutboxEntry → Action (World P) (Unit {0})
  mark_published e = do
    now ← read_clock P
    attempt P (P.update outbox (λ r. r.id == e.id) (publish_at now))

  unfoldable pub publish_all : List OutboxEntry → Action (World P) (Unit {0})
  publish_all [] = pure tt
  publish_all (e ∷ es) = mark_published e >> publish_all es

  unfoldable pub cleanup_keys : Action (World P) (Unit {0})
  cleanup_keys = do now ← read_clock P; attempt P (P.delete keys (λ k. ltb k.expires_at now))

  unfoldable pub cleanup_tokens : Action (World P) (Unit {0})
  cleanup_tokens = do
    now ← read_clock P
    attempt P (P.delete tokens (λ t. ltb t.expires_at now && is_revoked t))

  -- Nothing is deleted in a round without pending entries.
  unfoldable pub process_batch : Reply (List OutboxEntry) → Action (World P) (Unit {0})
  process_batch (failed cause) = pure tt
  process_batch (done []) = pure tt
  process_batch (done (e ∷ es)) = do publish_all (e ∷ es); cleanup_keys; cleanup_tokens

  unfoldable pub process_outbox : Action (World P) (Unit {0})
  process_outbox w =
      process_batch (P.page outbox is_pending "created_at ASC" (pos 0) batch_size w.db) w

  -- The ticks until the worker is told to stop.
  unfoldable pub start : ℕ → Action (World P) (Unit {0})
  start zero = pure tt
  start (suc ticks) = process_outbox >> start ticks
