-- ===== src/Session/Keeps.antt =====
-- Properties of the database that an action keeps however it ends.
use finance_project.Prelude.{
  Bool, true, false, Option, none, some, String, ◌≡◌, ◌≢◌, refl, sym, ap, subst, inl, inr,
  Bool-cases, ◌==◌,
}
use finance_project.Models.{Uuid, nil_uuid, Table, Row}
use finance_project.Errors.{GoError}
use finance_project.Action.{Action, Result, ok, err, panic, ◌>>=◌, >>=-elim, resume, refuse_if}
use finance_project.Platform.{Platform}
use finance_project.Platform.Reply.{Reply, done}
use finance_project.Session.{
  World, query, transaction, or_missing, read_clock, attempt, exec, fresh_uuid, before_create,
  create,
}
use finance_project.Session.Reads.{Reads}
use finance_project.Session.Laws.{SameRows, transaction-elim, transaction_atomic, Reply-cases}

module _ (P : Platform) (I : P.Db → Type 0) where
  abbrev pub Keeps : {A : Type 0} → Action (World P) A → Type 0
  Keeps m = (w : World P) → I w.db → I (m w).1.db

  -- The second action has to keep the property after the first has returned.
  pub Keeps-bind :
      {A B : Type 0} (m : Action (World P) A) (f : A → Action (World P) B)
      → Keeps m
      → ((a : A) (w u : World P) → m w ≡ (ok a, u) → I u.db → I (f a u).1.db)
      → Keeps (m >>= f)
  unfolding ◌>>=◌
  Keeps-bind {A} {B} m f first second w i = go (m w) refl (first w i)
    where
      go : (x : Result A × World P) → m w ≡ x → I x.1.db → I (resume x.0 f x.1).1.db
      go (ok a, u) e j = second a w u e j
      go (err c, u) e j = j
      go (panic, u) e j = j

  pub Keeps-refuse : (b : Bool) (e : GoError) → Keeps (refuse_if b e)
  Keeps-refuse true e w i = i
  Keeps-refuse false e w i = i

  pub Keeps-missing : {A : Type 0} (e : GoError) (o : Option A) → Keeps (or_missing P e o)
  Keeps-missing e none w i = i
  Keeps-missing e (some a) w i = i

  pub Keeps-query : {A : Type 0} (message : String) (f : P.Db → Reply A) → Keeps (query P message f)
  unfolding query
  Keeps-query message f w i = elim (Reply-cases (f w.db)) [
    | inl (a, e) ↦ rw (e, query) i
    | inr (c, e) ↦ rw (e, query) i
  ]

  -- A transaction that returns has run its body; any other has changed nothing.
  pub Keeps-transaction :
      {A : Type 0} (m : Action (World P) A)
      → ((d e : P.Db) → SameRows P d e → I d → I e)
      → ((a : A) (w u : World P) → m w ≡ (ok a, u) → I w.db → I u.db)
      → Keeps (transaction P m)
  Keeps-transaction {A} m stable body w i = go (transaction P m w) refl
    where
      rolled_back : ((a : A) → (transaction P m w).0 ≢ ok a) → I (transaction P m w).1.db
      rolled_back h = stable w.db (transaction P m w).1.db (transaction_atomic P m w h) i

      go : (x : Result A × World P) → transaction P m w ≡ x → I (transaction P m w).1.db
      go (ok a, u) e = transaction-elim P m w e λ d v begun returned committed.
          subst (λ (x : Result A × World P). I x.1.db) (sym e)
            (stable v.db u.db committed
              (body a (record w { db = d }) v returned (stable w.db d begun i)))
      go (err c, u) e = rolled_back (λ a h. cc (ap (λ p. p.0) e, h))
      go (panic, u) e = rolled_back (λ a h. cc (ap (λ p. p.0) e, h))

  pub Keeps-then :
      {A B : Type 0} (m : Action (World P) A) (f : A → Action (World P) B)
      → Keeps m
      → ((a : A) → Keeps (f a))
      → Keeps (m >>= f)
  Keeps-then m f first second = Keeps-bind m f first λ a w u e i. second a u i

  pub Keeps-clock : Keeps (read_clock P)
  unfolding read_clock
  Keeps-clock w i = i

  -- A statement whose error is dropped keeps what it keeps if it succeeds.
  pub Keeps-attempt :
      (f : P.Db → Reply P.Db) → ((d e : P.Db) → f d ≡ done e → I d → I e) → Keeps (attempt P f)
  unfolding attempt
  Keeps-attempt f step w i = elim (Reply-cases (f w.db)) [
    | inl (d, e) ↦ rw (e, attempt) (step w.db d e i)
    | inr (c, e) ↦ rw (e, attempt) i
  ]

  -- A statement that writes keeps what it keeps if it succeeds.
  pub Keeps-exec :
      (message : String) (f : P.Db → Reply P.Db)
      → ((d e : P.Db) → f d ≡ done e → I d → I e)
      → Keeps (exec P message f)
  unfolding exec
  Keeps-exec message f step w i = elim (Reply-cases (f w.db)) [
    | inl (d, e) ↦ rw (e, exec) (step w.db d e i)
    | inr (c, e) ↦ rw (e, exec) i
  ]

  pub Keeps-fresh_uuid : Keeps (fresh_uuid P)
  unfolding fresh_uuid
  Keeps-fresh_uuid w i = i

  pub Keeps-before_create : (id : Uuid) → Keeps (before_create P id)
  unfolding before_create fresh_uuid
  Keeps-before_create id w i = elim (Bool-cases (id == nil_uuid)) [
    | inl new ↦ rw new i
    | inr given ↦ rw given i
  ]

  pub Keeps-create :
      (t : Table) (message : String) (id : Uuid) (with_id : Uuid → Row P.Decimal t)
      → ((r : Row P.Decimal t) (d e : P.Db) → P.insert t r d ≡ done e → I d → I e)
      → Keeps (create P t message id with_id)
  unfolding create
  Keeps-create t message id with_id step =
      Keeps-then _ _ (Keeps-before_create id)
        λ new_id. Keeps-then _ _ (Keeps-exec message _ (step (with_id new_id))) λ _ w i. i

  -- An action that leaves the state as it is.
  pub Keeps-of_Reads : {A : Type 0} (m : Action (World P) A) → Reads P m → Keeps m
  Keeps-of_Reads m reads w i = subst (λ (u : World P). I u.db) (sym (reads w)) i

  -- An action that leaves the database as it is.
  pub Keeps-of_same_db :
      {A : Type 0} (m : Action (World P) A) → ((w : World P) → (m w).1.db ≡ w.db) → Keeps m
  Keeps-of_same_db m same w i = subst I (sym (same w)) i

  -- A property that an action keeps whenever it returns.
  abbrev pub Retains : {A : Type 0} → Action (World P) A → Type 0
  Retains {A} m = (a : A) (w u : World P) → m w ≡ (ok a, u) → I w.db → I u.db

  pub Retains-of_Keeps : {A : Type 0} (m : Action (World P) A) → Keeps m → Retains m
  Retains-of_Keeps {A} m kept a w u h i = subst (λ (x : Result A × World P). I x.1.db) h (kept w i)

  pub Retains-then :
      {A B : Type 0} (m : Action (World P) A) (f : A → Action (World P) B)
      → Retains m
      → ((a : A) → Retains (f a))
      → Retains (m >>= f)
  Retains-then m f first second b w u h i =
      >>=-elim m f w h λ a v returned rest. second a b v u rest (first a w v returned i)

  pub Retains-after :
      {A B : Type 0} (m : Action (World P) A) (f : A → Action (World P) B)
      → Keeps m
      → ((a : A) → Retains (f a))
      → Retains (m >>= f)
  Retains-after m f first second = Retains-then m f (Retains-of_Keeps m first) second
