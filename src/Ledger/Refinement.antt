-- ===== src/Ledger/Refinement.antt =====
-- What a posted transaction has done to the database, and what a refused one has not.
use finance_project.Prelude.{
  suc, Bool, true, false, List, [], ◌++◌, map, ◌≡◌, ◌≢◌, refl, sym, ap, ◌∙◌, subst, contains,
  contains-map_sub, All, All-imp, Bool-cases, inl, inr, length, arith, ◌==◌,
}
use mathlib.Core.List.{Memᴰ}
use finance_project.Models.{
  Uuid, nil_uuid, AuditEvent, Account, LedgerEntry, Table, accounts, entries, events, outbox,
  audit_create,
}
use finance_project.Action.{ok, >>=-elim, pure-ok, from_result-ok, from_result, ◌>>=◌, Result, err}
use finance_project.Platform.{Platform}
use finance_project.Platform.Database.{in_columns}
use finance_project.Session.{World, transaction, fresh_uuid}
use finance_project.Session.Laws.{
  SameRows, query-ok, fresh_uuid-ok, transaction-elim, transaction_atomic,
}
use finance_project.Audit.Atomic.{Recorded, Recorded-congr, log_event-Logged, build_audit_event-ok}
use finance_project.Ledger.{
  PostTransactionRequest, validate, check_found, audit_transaction, post_entries, persist_balances,
  post_body, post_transaction,
}
use finance_project.Ledger.Validation.{IsBalanced, validate-iff-IsBalanced}
use finance_project.Ledger.Entries.{post_all, Stores, post_entries-EntriesPosted}
use finance_project.Ledger.Applied.{IsExact}
use finance_project.Ledger.Balances.{persist_balances-post_all}

module _ (P : Platform) where
  -- The audit event of a transaction.
  pub record IsTransactionEvent (id : Uuid) (event : AuditEvent) : Type 0 where
    pub of_ledger : event.entity_type ≡ "ledger_transaction"
    pub of_transaction : event.entity_id ≡ P.uuid_string id
    pub creates : event.action ≡ audit_create
    pub identified : event.id ≢ nil_uuid

  -- The trail that a transaction leaves: none without an audit service, and else its event.
  abbrev pub Trail : Bool → Uuid → P.Db → P.Db → Type 0
  Trail false id d e = (P.rows events e ≡ P.rows events d) × (P.rows outbox e ≡ P.rows outbox d)
  Trail true id d e = (event : AuditEvent) × IsTransactionEvent id event × Recorded P event d e

  -- What a posted transaction does to the database, whatever the columns make of its amounts.
  pub record IsEntered (audited : Bool) (req : PostTransactionRequest P.Decimal)
      (result : List (LedgerEntry P.Decimal)) (d e : P.Db) : Type 0 where
    pub id : Uuid
    pub stored : Stores P id req.description req.entries result
    pub known :
        All (λ r. contains (map (λ a. a.id) (P.rows accounts d)) r.account_id ≡ true) req.entries
    pub entry_rows :
        P.rows entries e ≡ P.rows entries d ++ map (in_columns P.Decimal P.round entries) result
    pub account_rows :
        All (λ r. IsExact P r.amount) req.entries
        → P.rows accounts e ≡ map (post_all P req.entries) (P.rows accounts d)
    pub trail : Trail audited id d e
    pub others :
        (t : Table) → t ≢ accounts → t ≢ entries → t ≢ events → t ≢ outbox → P.rows t e ≡ P.rows t d

  -- A trail depends on the rows of its two tables only.
  Trail-congr :
      (audited : Bool) (id : Uuid) (d' e' d e : P.Db)
      → ((t : Table) → t ≢ accounts → t ≢ entries → P.rows t d ≡ P.rows t d')
      → SameRows P e e'
      → Trail audited id d e
      → Trail audited id d' e'
  Trail-congr false id d' e' d e before after (p, q) = (
    after events ∙ p ∙ before events (λ n. cc) (λ n. cc),
    after outbox ∙ q ∙ before outbox (λ n. cc) (λ n. cc),
  )
  Trail-congr true id d' e' d e before after (event, k, r) = (
    event,
    k,
    Recorded-congr P d' e' (before events (λ n. cc) (λ n. cc)) (before outbox (λ n. cc) (λ n. cc))
        (after events) (after outbox) r,
  )

  audit_transaction-Trail :
      (audited : Bool) (id : Uuid) (req : PostTransactionRequest P.Decimal) (w : World P)
      {u : World P} {x : Unit {0}}
      → audit_transaction P audited id req w ≡ (ok x, u)
      → Trail audited id w.db u.db
        × ((t : Table) → t ≢ events → t ≢ outbox → P.rows t u.db ≡ P.rows t w.db)
  audit_transaction-Trail false id req w h =
      let to_u = (pure-ok h).1 in
      (
        (ap (λ v. P.rows events v.db) (sym to_u), ap (λ v. P.rows outbox v.db) (sym to_u)),
        λ t _ _. ap (λ v. P.rows t v.db) (sym to_u),
      )
  audit_transaction-Trail true id req w {u} h = >>=-elim _ _ w h λ event w₁ built logged.
      let l = log_event-Logged P event w₁ logged in
      let (of_ledger, of_transaction, creates, _, identified, same) =
        build_audit_event-ok P _ _ _ _ _ _ _ w built in
      (
        (
          event,
          record {
            of_ledger = of_ledger;
            of_transaction = of_transaction;
            creates = creates;
            identified = identified;
          },
          subst (λ d. Recorded P event d u.db) same l.recorded,
        ),
        λ t p q. l.others t p q ∙ ap (P.rows t) same,
      )

  check_found-ok :
      (found : List (Account P.Decimal)) (ids : List Uuid) (w : World P) {u : World P}
      {x : Unit {0}}
      → check_found P found ids w ≡ (ok x, u)
      → (length found ≡ length ids) × (w ≡ u)
  check_found-ok found ids w h = elim (Bool-cases (length found == length ids)) [
    | inl all ↦ (ground arith, (pure-ok (rw all at h)).1)
    | inr short ↦ cc (ap (λ p. p.0) (rw short at h))
  ]

  post_body-IsEntered :
      (audited : Bool) (req : PostTransactionRequest P.Decimal) (id : Uuid) (w : World P)
      {u : World P} {result : List (LedgerEntry P.Decimal)}
      → post_body P audited req id w ≡ (ok result, u)
      → IsEntered audited req result w.db u.db
  unfolding post_body
  post_body-IsEntered audited req id w {u} {result} h = >>=-elim _ _ w h λ found w₁ queried rest₁.
      >>=-elim _ _ w₁ rest₁ λ _ w₂ checked rest₂. >>=-elim _ _ w₂ rest₂ λ outcome w₃ posted rest₃.
        >>=-elim _ _ w₃ rest₃ λ _ w₄ persisted rest₄.
          >>=-elim _ _ w₄ rest₄ λ _ w₅ audited_ok returned.
            let (selected, to_w) = query-ok P _ _ w queried in
            let (_, to_w₂) = check_found-ok found _ w₁ checked in
            let from_w =
              subst
                (λ v. post_entries P id req.description req.entries [] found v ≡ (ok outcome, w₃))
                (sym to_w₂ ∙ to_w) posted in
            let loop =
              post_entries-EntriesPosted P id req.description req.entries [] found w from_w in
            let sound = P.select_sound accounts _ w.db found selected in
            let same = loop.others accounts (λ q. cc) in
            let (stored, stored_others) =
              persist_balances-post_all P req.entries found w₃
                (subst (λ rs. All (λ a. Memᴰ a rs) found) (sym same)
                  (All-imp found (λ a m. m.0) sound))
                (λ r m k.
                  P.select_complete accounts _ w.db found selected r (subst (Memᴰ r) same m) refl k)
                (subst (λ moved. persist_balances P moved w₃ ≡ (ok _, w₄)) loop.moved persisted) in
            let (trail, trail_others) = audit_transaction-Trail audited id req w₄ audited_ok in
            let (is_result, to_u) = pure-ok returned in
            let is_stored : loop.stored ≡ result = sym loop.returned ∙ is_result in
            record {
              id = id;
              stored = subst (Stores P id req.description req.entries) is_stored loop.is_stored;
              known =
                  All-imp req.entries
                    (λ r k.
                      contains-map_sub (λ a. a.id) found (P.rows accounts w.db) r.account_id
                        (All-imp found (λ a m. m.0) sound) k)
                    loop.known;
              entry_rows =
                  ap (λ v. P.rows entries v.db) (sym to_u)
                  ∙ trail_others entries (λ q. cc) (λ q. cc)
                  ∙ stored_others entries (λ q. cc)
                  ∙ loop.entry_rows
                  ∙ ap (λ rs. P.rows entries w.db ++ map (in_columns P.Decimal P.round entries) rs)
                      is_stored;
              account_rows = λ exact.
                  ap (λ v. P.rows accounts v.db) (sym to_u)
                  ∙ trail_others accounts (λ q. cc) (λ q. cc)
                  ∙ stored exact
                  ∙ ap (map (post_all P req.entries)) same;
              trail =
                  Trail-congr audited id w.db u.db w₄.db w₅.db
                    (λ t p q. stored_others t p ∙ loop.others t q)
                    (λ t. ap (λ v. P.rows t v.db) (sym to_u)) trail;
              others = λ t p q r s.
                  ap (λ v. P.rows t v.db) (sym to_u)
                  ∙ trail_others t r s
                  ∙ stored_others t p
                  ∙ loop.others t q;
            }

  IsEntered-congr :
      {audited : Bool} {req : PostTransactionRequest P.Decimal}
      {result : List (LedgerEntry P.Decimal)} {d e : P.Db} (d' e' : P.Db)
      → SameRows P d' d
      → SameRows P e e'
      → IsEntered audited req result d e
      → IsEntered audited req result d' e'
  IsEntered-congr {audited} {req} {result} {d} {e} d' e' p q h = record {
    id = h.id;
    stored = h.stored;
    known =
        subst (λ rs. All (λ r. contains (map (λ a. a.id) rs) r.account_id ≡ true) req.entries)
          (p accounts) h.known;
    entry_rows =
        q entries
        ∙ h.entry_rows
        ∙ ap (λ rs. rs ++ map (in_columns P.Decimal P.round entries) result) (p entries);
    account_rows =
        λ exact. q accounts ∙ h.account_rows exact ∙ ap (map (post_all P req.entries)) (p accounts);
    trail = Trail-congr audited h.id d' e' d e (λ t _ _. p t) q h.trail;
    others = λ t n₁ n₂ n₃ n₄. q t ∙ h.others t n₁ n₂ n₃ n₄ ∙ p t;
  }

  pub post_transaction-IsEntered :
      (audited : Bool) (req : PostTransactionRequest P.Decimal) (w : World P) {u : World P}
      {result : List (LedgerEntry P.Decimal)}
      → post_transaction P audited req w ≡ (ok result, u)
      → IsBalanced P req × IsEntered audited req result w.db u.db
  unfolding post_transaction
  post_transaction-IsEntered audited req w {u} h = >>=-elim _ _ w h λ _ w₁ checked rest₁.
      >>=-elim _ _ w₁ rest₁ λ id w₂ drawn rest₂.
        transaction-elim P _ w₂ rest₂ λ d v begun body committed.
          let (_, _, drawn_same) = fresh_uuid-ok P w₁ drawn in
          let (accepted, to_w₁) = from_result-ok (validate P req) w checked in
          let same : w₂.db ≡ w.db = drawn_same ∙ ap (λ v. v.db) (sym to_w₁) in
          (
            (validate-iff-IsBalanced P req).0 accepted,
            IsEntered-congr w.db u.db (λ t. begun t ∙ ap (P.rows t) same) committed
                (post_body-IsEntered audited req id (record w₂ { db = d }) body),
          )

  -- A transaction that `PostTransaction` does not return, whether it is refused, a statement fails,
  -- the commit fails or the code panics, leaves the rows of every table as they were.
  pub post_transaction_atomic :
      (audited : Bool) (req : PostTransactionRequest P.Decimal) (w : World P)
      → ((result : List (LedgerEntry P.Decimal)) → (post_transaction P audited req w).0 ≢ ok result)
      → SameRows P w.db (post_transaction P audited req w).1.db
  unfolding post_transaction ◌>>=◌ fresh_uuid
  post_transaction_atomic audited req w = go (validate P req)
    where
      checked : Result (Unit {0}) → Result (List (LedgerEntry P.Decimal)) × World P
      checked r =
          (from_result r >>= λ _. fresh_uuid P >>= λ id. transaction P (post_body P audited req id))
            w

      go :
          (r : Result (Unit {0}))
          → ((result : List (LedgerEntry P.Decimal)) → (checked r).0 ≢ ok result)
          → SameRows P w.db (checked r).1.db
      go (ok _) h =
          transaction_atomic P (post_body P audited req (P.new_uuid w.calls))
            (record w { calls = suc w.calls }) h
      go (err e) h = λ t. refl
      go Result.panic h = λ t. refl
