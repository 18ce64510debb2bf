-- ===== src/Session/Laws.antt =====
-- What a successful statement, and a transaction, have done.
use finance_project.Prelude.{
  String, Bool, ◌&&◌, [], ◌∷◌, ◌++◌, ◌≡◌, ◌≢◌, ◌⊎◌, inl, inr, refl, ap, arith,
}
use finance_project.Errors.{other}
use finance_project.Models.{Uuid, nil_uuid, Table, Row}
use finance_project.Action.{Action, Result, ok, err, panic, >>=-elim, pure-ok}
use finance_project.Platform.{Platform}
use finance_project.Platform.Reply.{Reply, done, failed}
use finance_project.Platform.Database.{is_visible, in_columns, update_where}
use finance_project.Session.{
  World, exec, query, fresh_uuid, before_create, create, finish, transaction,
}

-- The tables hold the same rows.
abbrev pub SameRows : (P : Platform) → P.Db → P.Db → Type 0
SameRows P d e = (t : Table) → P.rows t e ≡ P.rows t d

pub Reply-cases :
    {A : Type 0} (r : Reply A) → ((a : A) × (r ≡ done a)) ⊎ ((c : String) × (r ≡ failed c))
Reply-cases (done a) = inl (a, refl)
Reply-cases (failed c) = inr (c, refl)

module _ (P : Platform) where
  pub exec-ok :
      (message : String) (f : P.Db → Reply P.Db) (w : World P) {u : World P} {x : Unit {0}}
      → exec P message f w ≡ (ok x, u)
      → (f w.db ≡ done u.db) × (u.calls ≡ w.calls)
  unfolding exec
  exec-ok message f w h = ground arith

  -- An insert adds its row, and an update changes the rows under its condition; the other tables
  -- stay as they were.
  pub insert-ok :
      (message : String) (t : Table) (r : Row P.Decimal t) (w : World P) {u : World P}
      {x : Unit {0}}
      → exec P message (P.insert t r) w ≡ (ok x, u)
      → (P.rows t u.db ≡ P.rows t w.db ++ in_columns P.Decimal P.round t r ∷ [])
        × ((s : Table) → s ≢ t → P.rows s u.db ≡ P.rows s w.db)
  insert-ok message t r w {u} h =
      let (e, _) = exec-ok message (P.insert t r) w h in
      (P.insert_rows t r w.db u.db e, λ s n. P.insert_others t s r w.db u.db n e)

  pub update-ok :
      (message : String) (t : Table) (p : Row P.Decimal t → Bool)
      (f : Row P.Decimal t → Row P.Decimal t) (w : World P) {u : World P} {x : Unit {0}}
      → exec P message (P.update t p f) w ≡ (ok x, u)
      → (P.rows t u.db
          ≡ update_where
              (λ r. is_visible P.Decimal t r && p r)
              (λ r. in_columns P.Decimal P.round t (f r))
              (P.rows t w.db))
        × ((s : Table) → s ≢ t → P.rows s u.db ≡ P.rows s w.db)
  update-ok message t p f w {u} h =
      let (e, _) = exec-ok message (P.update t p f) w h in
      (P.update_rows t p f w.db u.db e, λ s n. P.update_others t s p f w.db u.db n e)

  pub query-ok :
      {A : Type 0} (message : String) (f : P.Db → Reply A) (w : World P) {u : World P} {a : A}
      → query P message f w ≡ (ok a, u)
      → (f w.db ≡ done a) × (u ≡ w)
  unfolding query
  query-ok message f w h = ground arith

  pub query_of_done :
      {A : Type 0} (message : String) (f : P.Db → Reply A) (w : World P) {a : A}
      → f w.db ≡ done a
      → query P message f w ≡ (ok a, w)
  unfolding query
  query_of_done message f w h = rw (h, query) refl

  pub fresh_uuid-ok :
      (w : World P) {u : World P} {id : Uuid}
      → fresh_uuid P w ≡ (ok id, u)
      → (id ≡ P.new_uuid w.calls) × (id ≢ nil_uuid) × (u.db ≡ w.db)
  unfolding fresh_uuid
  fresh_uuid-ok w h = ground (arith, P.new_uuid-ne-nil w.calls)

  pub before_create-ok :
      (id : Uuid) (w : World P) {u : World P} {v : Uuid}
      → before_create P id w ≡ (ok v, u)
      → (u.db ≡ w.db) × (v ≢ nil_uuid) × (id ≢ nil_uuid → v ≡ id)
  unfolding before_create fresh_uuid
  before_create-ok id w h = ground (arith, P.new_uuid-ne-nil w.calls)

  -- A created row stands at the end of its table, under the id that it had or a new one.
  pub create-elim {ℓ} :
      {C : Type ℓ} (t : Table) (message : String) (id : Uuid) (with_id : Uuid → Row P.Decimal t)
      (w : World P) {u : World P} {row : Row P.Decimal t}
      → create P t message id with_id w ≡ (ok row, u)
      → ((new_id : Uuid)
          → with_id new_id ≡ row
          → new_id ≢ nil_uuid
          → (id ≢ nil_uuid → new_id ≡ id)
          → P.rows t u.db ≡ P.rows t w.db ++ in_columns P.Decimal P.round t row ∷ []
          → ((s : Table) → s ≢ t → P.rows s u.db ≡ P.rows s w.db)
          → C)
      → C
  unfolding create
  create-elim t message id with_id w {u} {row} h k = >>=-elim _ _ w h λ new_id w₁ hook inserted.
      >>=-elim _ _ w₁ inserted λ _ w₂ row_in returned.
        let (same, fresh, kept) = before_create-ok id w hook in
        let (is_row, to_u) = pure-ok returned in
        let (added, rest) = insert-ok message t (with_id new_id) w₁ row_in in
        k new_id is_row fresh kept (rw (← to_u, ← same, ← is_row) added)
          (λ s n. rw (← to_u, ← same) (rest s n))

  finish-ok :
      {A : Type 0} (w : World P) (x : Result A × World P) {u : World P} {a : A}
      → finish P w x ≡ (ok a, u)
      → (v : World P) × (x ≡ (ok a, v)) × (P.commit v.db ≡ done u.db)
  finish-ok w (ok b, v) h = (v, ground arith, ground arith)
  finish-ok w (err e, v) h = cc (ap (λ p. p.0) h)
  finish-ok w (panic, v) h = cc (ap (λ p. p.0) h)

  -- A transaction that returns has run its body to a return; its two ends change no rows.
  pub transaction-elim {ℓ} :
      {C : Type ℓ} {A : Type 0} (m : Action (World P) A) (w : World P) {u : World P} {a : A}
      → transaction P m w ≡ (ok a, u)
      → ((d : P.Db) (v : World P)
          → SameRows P w.db d
          → m (record w { db = d }) ≡ (ok a, v)
          → SameRows P v.db u.db
          → C)
      → C
  unfolding transaction
  transaction-elim {C} {A} m w {u} {a} h k = go (P.begin w.db) refl h
    where
      go :
          (r : Reply P.Db)
          → P.begin w.db ≡ r
          → (elim r [
            | done d ↦ finish P w (m (record w { db = d }))
            | failed cause ↦ (err (other cause), w)
          ])
            ≡ (ok a, u)
          → C
      go (done d) e r =
          let (v, p, q) = finish-ok w (m (record w { db = d })) r in
          k d v (λ t. P.begin_rows t w.db d e) p (λ t. P.commit_rows t v.db u.db q)
      go (failed c) e r = cc (ap (λ (p : Result A × World P). p.0) r)

  finish_rows :
      {A : Type 0} (w : World P) (x : Result A × World P)
      → ((a : A) → (finish P w x).0 ≢ ok a)
      → SameRows P w.db (finish P w x).1.db
  finish_rows w (ok b, v) h t = ground (arith, P.rollback_rows t w.db v.db, h b)
  finish_rows w (err e, v) h t = P.rollback_rows t w.db v.db
  finish_rows w (panic, v) h t = P.rollback_rows t w.db v.db

  -- A transaction that does not return leaves the rows of every table as they were.
  pub transaction_atomic :
      {A : Type 0} (m : Action (World P) A) (w : World P)
      → ((a : A) → (transaction P m w).0 ≢ ok a)
      → SameRows P w.db (transaction P m w).1.db
  unfolding transaction
  transaction_atomic {A} m w h = elim (Reply-cases (P.begin w.db)) [
    | inl (d, e) ↦
        rw (e, transaction)
          (finish_rows w (m (record w { db = d })) (λ a k. h a (rw (e, transaction) k)))
    | inr (c, e) ↦ λ t. rw (e, transaction) refl
  ]
