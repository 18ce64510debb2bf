-- ===== src/Session/Reads.antt =====
-- Actions that leave the state as it is: the statements that read, and what is built of them.
use finance_project.Prelude.{String, Option, none, some, ◌≡◌, refl, ◌∙◌, inl, inr}
use finance_project.Errors.{GoError}
use finance_project.Action.{Action, Result, ok, err, panic, ◌>>=◌, resume}
use finance_project.Platform.{Platform}
use finance_project.Platform.Reply.{Reply}
use finance_project.Session.{World, query, or_missing}
use finance_project.Session.Laws.{Reply-cases}

module _ (P : Platform) where
  abbrev pub Reads : {A : Type 0} → Action (World P) A → Type 0
  Reads m = (w : World P) → (m w).1 ≡ w

  pub Reads-bind :
      {A B : Type 0} (m : Action (World P) A) (f : A → Action (World P) B)
      → Reads m
      → ((a : A) → Reads (f a))
      → Reads (m >>= f)
  unfolding ◌>>=◌
  Reads-bind {A} {B} m f first second w = go (m w) (first w)
    where
      go : (x : Result A × World P) → x.1 ≡ w → (resume x.0 f x.1).1 ≡ w
      go (ok a, u) e = second a u ∙ e
      go (err c, u) e = e
      go (panic, u) e = e

  pub Reads-query : {A : Type 0} (message : String) (f : P.Db → Reply A) → Reads (query P message f)
  unfolding query
  Reads-query message f w = elim (Reply-cases (f w.db)) [
    | inl (a, e) ↦ rw (e, query) refl
    | inr (c, e) ↦ rw (e, query) refl
  ]

  pub Reads-missing : {A : Type 0} (e : GoError) (o : Option A) → Reads (or_missing P e o)
  Reads-missing e none w = refl
  Reads-missing e (some a) w = refl
