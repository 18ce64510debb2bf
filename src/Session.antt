-- ===== src/Session.antt =====
-- A run of the program against a platform: the database and the calls of changing functions made
-- so far, the statements as actions with the error that the services give them, and transactions.
pub mod Laws
pub mod Keeps
pub mod Rows
pub mod Reads
use finance_project.Prelude.{ℕ, suc, String, Option, none, some, ◌==◌, if◌then◌else◌}
use finance_project.Errors.{GoError, internal, other}
use finance_project.Models.{Uuid, nil_uuid, Table, Row}
use finance_project.Action.{Action, Result, ok, err, panic, pure, fail, ◌>>=◌, ◌>>◌}
use finance_project.Platform.{Platform}
use finance_project.Platform.Reply.{Reply, done, failed}

pub record World (P : Platform) : Type 0 where
  pub db : P.Db
  pub calls : ℕ

module _ (P : Platform) where
  -- A statement that writes, with the message of the internal error that wraps its failure.
  unfoldable pub exec : String → (P.Db → Reply P.Db) → Action (World P) Unit
  exec message f w = elim (f w.db) [
    | done d ↦ (ok tt, record w { db = d })
    | failed cause ↦ (err (internal message (some cause)), w)
  ]

  -- A statement that reads.
  unfoldable pub query : {A : Type 0} → String → (P.Db → Reply A) → Action (World P) A
  query message f w = elim (f w.db) [
    | done a ↦ (ok a, w)
    | failed cause ↦ (err (internal message (some cause)), w)
  ]

  -- `First`, where a missing row has an error of its own.
  abbrev pub or_missing : {A : Type 0} → GoError → Option A → Action (World P) A
  or_missing error none = fail error
  or_missing error (some a) = pure a

  -- A statement whose error the code drops.
  unfoldable pub attempt : (P.Db → Reply P.Db) → Action (World P) Unit
  attempt f w = elim (f w.db) [ done d ↦ (ok tt, record w { db = d }) | failed _ ↦ (ok tt, w) ]

  -- uuid.New()
  unfoldable pub fresh_uuid : Action (World P) Uuid
  fresh_uuid w = (ok (P.new_uuid w.calls), record w { calls = suc w.calls })

  -- time.Now()
  unfoldable pub read_clock : Action (World P) ℕ
  read_clock w = (ok (P.time_now w.calls), record w { calls = suc w.calls })

  -- The hook `BeforeCreate`, on the id of the row.
  unfoldable pub before_create : Uuid → Action (World P) Uuid
  unfolding fresh_uuid
  before_create id w = if id == nil_uuid then fresh_uuid w else (ok id, w)

  -- `Create` of a row under the hook that fills in its id; gorm writes the row back to the caller.
  unfoldable pub create :
      (t : Table) → String → Uuid → (Uuid → Row P.Decimal t) → Action (World P) (Row P.Decimal t)
  create t message id with_id = do
    new_id ← before_create id
    exec message (P.insert t (with_id new_id))
    pure (with_id new_id)

  -- How `DB.Transaction` ends: a commit after a return, and else a rollback.
  abbrev finish : {A : Type 0} → World P → Result A × World P → Result A × World P
  finish w (ok a, u) = elim (P.commit u.db) [
    | done d ↦ (ok a, record u { db = d })
    | failed cause ↦ (err (other cause), record u { db = P.rollback w.db u.db })
  ]
  finish w (err e, u) = (err e, record u { db = P.rollback w.db u.db })
  finish w (panic, u) = (panic, record u { db = P.rollback w.db u.db })

  unfoldable pub transaction : {A : Type 0} → Action (World P) A → Action (World P) A
  transaction m w = elim (P.begin w.db) [
    | done d ↦ finish w (m (record w { db = d }))
    | failed cause ↦ (err (other cause), w)
  ]
