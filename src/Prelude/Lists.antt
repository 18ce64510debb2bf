-- ===== src/Prelude/Lists.antt =====
-- Lists measured by native numbers and filtered by Boolean tests, under the library's names.
use Prim.Native.Nat.{ℕ, zero, suc, ◌+◌, ◌≤◌}
use mathlib.Core.Path.{◌≡◌, refl, sym, ap, ap₂, subst, ◌∙◌}
use mathlib.Core.Bool.{Bool, true, false, ◌||◌}
use mathlib.Core.List.{List, [], ◌∷◌, ◌++◌, map, Memᴰ}
use native.Mathlib.Omega.{arith}
use finance_project.Prelude.Tests.{if◌then◌else◌, ◌==◌}

module _ {ℓ} {A : Type ℓ} where
  abbrev pub length : List A → ℕ
  length [] = 0
  length (x ∷ xs) = suc (length xs)

  abbrev pub filter : (A → Bool) → List A → List A
  filter p [] = []
  filter p (x ∷ xs) = if p x then x ∷ filter p xs else filter p xs

  abbrev pub take : ℕ → List A → List A
  take zero xs = []
  take (suc n) [] = []
  take (suc n) (x ∷ xs) = x ∷ take n xs

  abbrev pub drop : ℕ → List A → List A
  drop zero xs = xs
  drop (suc n) [] = []
  drop (suc n) (x ∷ xs) = drop n xs

  -- A predicate by recursion, which the tactics take apart.
  abbrev pub All {κ} : (A → Type κ) → List A → Type κ
  All P [] = Unit
  All P (x ∷ xs) = P x × All P xs

  pub length-append : (xs ys : List A) → length (xs ++ ys) ≡ length xs + length ys
  length-append [] ys = omega arith
  length-append (x ∷ xs) ys = omega (arith, length-append xs ys)

  pub length-filter-le : (p : A → Bool) (xs : List A) → length (filter p xs) ≤ length xs
  length-filter-le p [] = omega arith
  length-filter-le p (x ∷ xs) = ground (arith, length-filter-le p xs)

-- Whether a number stands in a list of numbers.
abbrev pub contains : List ℕ → ℕ → Bool
contains [] a = false
contains (x ∷ xs) a = a == x || contains xs a

-- No number stands twice.
abbrev pub Distinct : List ℕ → Type 0
Distinct [] = Unit
Distinct (x ∷ xs) = (contains xs x ≡ false) × Distinct xs

pub contains-append :
    (xs : List ℕ) (y x : ℕ) → contains (xs ++ y ∷ []) x ≡ (contains xs x || x == y)
contains-append [] y x = ground arith
contains-append (z ∷ xs) y x = ground (arith, contains-append xs y x)

module _ {ℓ} {A : Type ℓ} (f : A → ℕ) where
  pub contains-map_of_Memᴰ : (a : A) (xs : List A) → Memᴰ a xs → contains (map f xs) (f a) ≡ true
  contains-map_of_Memᴰ a [] m = elim m [ ]
  contains-map_of_Memᴰ a (x ∷ xs) (Memᴰ.head e) = ground (arith, ap f e)
  contains-map_of_Memᴰ a (x ∷ xs) (Memᴰ.tail m) = ground (arith, contains-map_of_Memᴰ a xs m)

  -- A number that a part of a list gives, the list gives.
  pub contains-map_sub :
      (xs ys : List A) (n : ℕ)
      → All (λ a. Memᴰ a ys) xs
      → contains (map f xs) n ≡ true
      → contains (map f ys) n ≡ true
  contains-map_sub [] ys n sub h = cc
  contains-map_sub (x ∷ xs) ys n (m, sub) h =
      ground (arith, contains-map_of_Memᴰ x ys m, contains-map_sub xs ys n sub)

  member_not_new :
      (x a : A) (xs : List A) → contains (map f xs) (f x) ≡ false → Memᴰ a xs → f a ≡ f x → ⊥
  member_not_new x a xs new m h = ground (arith, contains-map_of_Memᴰ a xs m)

  -- Two members that agree under `f` are one, where `f` gives no number twice.
  pub Distinct-inj :
      (a b : A) (xs : List A) → Distinct (map f xs) → Memᴰ a xs → Memᴰ b xs → f a ≡ f b → a ≡ b
  Distinct-inj a b [] d m n h = elim m [ ]
  Distinct-inj a b (x ∷ xs) d (Memᴰ.head p) (Memᴰ.head q) h = p ∙ sym q
  Distinct-inj a b (x ∷ xs) (new, d) (Memᴰ.head p) (Memᴰ.tail n) h =
      absurd (member_not_new x b xs new n (sym h ∙ ap f p))
  Distinct-inj a b (x ∷ xs) (new, d) (Memᴰ.tail m) (Memᴰ.head q) h =
      absurd (member_not_new x a xs new m (h ∙ ap f q))
  Distinct-inj a b (x ∷ xs) (new, d) (Memᴰ.tail m) (Memᴰ.tail n) h = Distinct-inj a b xs d m n h

module _ {ℓ κ} {A : Type ℓ} (P : A → Type κ) where
  pub All-of_members : (xs : List A) → ((a : A) → Memᴰ a xs → P a) → All P xs
  All-of_members [] h = tt
  All-of_members (x ∷ xs) h = (h x (Memᴰ.head refl), All-of_members xs (λ a m. h a (Memᴰ.tail m)))

  pub All-member : (xs : List A) {a : A} → All P xs → Memᴰ a xs → P a
  All-member [] h m = elim m [ ]
  All-member (x ∷ xs) (p, h) (Memᴰ.head e) = subst P (sym e) p
  All-member (x ∷ xs) (p, h) (Memᴰ.tail m) = All-member xs h m

module _ {ℓ κ} {A : Type ℓ} {P Q : A → Type κ} where
  pub All-imp : (xs : List A) → ((a : A) → P a → Q a) → All P xs → All Q xs
  All-imp [] f h = tt
  All-imp (x ∷ xs) f (p, h) = (f x p, All-imp xs f h)

module _ {ℓ κ} {A : Type ℓ} {B : Type κ} where
  -- Two functions that agree on the members give the same list.
  pub map_congr :
      (f g : A → B) (xs : List A) → ((a : A) → Memᴰ a xs → f a ≡ g a) → map f xs ≡ map g xs
  map_congr f g [] h = refl
  map_congr f g (x ∷ xs) h =
      ap₂ (λ y ys. y ∷ ys) (h x (Memᴰ.head refl)) (map_congr f g xs (λ a m. h a (Memᴰ.tail m)))
