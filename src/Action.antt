-- ===== src/Action.antt =====
-- Methods that read and write a state: they return, return an error, or panic. What was written
-- before an error stays written, so the state comes back in each case.
use finance_project.Prelude.{Bool, true, false, ◌≡◌, refl, ap, arith}
use finance_project.Errors.{GoError}

pub data Result (A : Type 0) : Type 0 where
  ok : A → Result A
  err : GoError → Result A
  panic : Result A

abbrev pub Action : Type 0 → Type 0 → Type 0
Action S A = S → Result A × S

module _ {S A : Type 0} where
  abbrev pub pure : A → Action S A
  pure a s = (ok a, s)

  abbrev pub fail : GoError → Action S A
  fail e s = (err e, s)

  abbrev pub crash : Action S A
  crash s = (panic, s)

  abbrev pub from_result : Result A → Action S A
  from_result r s = (r, s)

module _ {S A B : Type 0} where
  abbrev pub resume : Result A → (A → Action S B) → Action S B
  resume (ok a) f s = f a s
  resume (err e) f s = (err e, s)
  resume panic f s = (panic, s)

  infixl 5 ◌>>=◌ ◌>>◌
  unfoldable pub ◌>>=◌ : Action S A → (A → Action S B) → Action S B
  ◌>>=◌ m f s = let (r, t) = m s in resume r f t

  abbrev pub ◌>>◌ : Action S A → Action S B → Action S B
  m >> k = m >>= λ _. k

  -- To use that `m >>= f` has returned: both parts have.
  pub >>=-elim {ℓ} :
      {C : Type ℓ} (m : Action S A) (f : A → Action S B) (s : S) {b : B} {u : S}
      → (m >>= f) s ≡ (ok b, u)
      → ((a : A) (t : S) → m s ≡ (ok a, t) → f a t ≡ (ok b, u) → C)
      → C
  unfolding ◌>>=◌
  >>=-elim {C} m f s {b} {u} h k = go (m s) refl h
    where
      go : (x : Result A × S) → m s ≡ x → resume x.0 f x.1 ≡ (ok b, u) → C
      go (ok a, t) e r = k a t e r
      go (err c, t) e r = cc (ap (λ (p : Result B × S). p.0) r)
      go (panic, t) e r = cc (ap (λ (p : Result B × S). p.0) r)

  pub >>=_of_ok :
      (m : Action S A) (f : A → Action S B) (s : S) {a : A} {t : S}
      → m s ≡ (ok a, t)
      → (m >>= f) s ≡ f a t
  unfolding ◌>>=◌
  >>=_of_ok m f s e = rw (e, ◌>>=◌)

pub pure-ok : {S A : Type 0} {a b : A} {s t : S} → pure a s ≡ (ok b, t) → (a ≡ b) × (s ≡ t)
pure-ok h = ground arith

pub from_result-ok :
    {S A : Type 0} (r : Result A) (s : S) {a : A} {t : S}
    → from_result r s ≡ (ok a, t)
    → (r ≡ ok a) × (s ≡ t)
from_result-ok r s h = (ap (λ p. p.0) h, ap (λ p. p.1) h)

-- An early return with an error.
abbrev pub refuse_if : {S : Type 0} → Bool → GoError → Action S (Unit {0})
refuse_if true e s = (err e, s)
refuse_if false e s = (ok tt, s)

pub refuse_if-ok :
    {S : Type 0} (b : Bool) (e : GoError) (s : S) {t : S} {x : Unit {0}}
    → refuse_if b e s ≡ (ok x, t)
    → (b ≡ false) × (s ≡ t)
refuse_if-ok true e s h = cc (ap (λ p. p.0) h)
refuse_if-ok false e s h = (refl, (pure-ok h).1)
