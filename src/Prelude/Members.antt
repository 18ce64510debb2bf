-- ===== src/Prelude/Members.antt =====
-- Members of filtered lists, and parts of a list.
use Prim.Native.Nat.{ℕ, zero, suc, ◌≤◌}
use mathlib.Core.Path.{◌≡◌, refl, sym, ap, ◌∙◌}
use mathlib.Core.Bool.{Bool, true, false}
use mathlib.Core.Logic.{inl, inr}
use mathlib.Core.List.{List, [], ◌∷◌, ◌++◌, Memᴰ}
use native.Mathlib.Omega.{arith}
use finance_project.Prelude.Tests.{if◌then◌else◌, Bool-cases}
use finance_project.Prelude.Lists.{length, filter, take, drop}

module _ {ℓ} {A : Type ℓ} where
  pub Mem-filter :
      (p : A → Bool) (a : A) (xs : List A) → Memᴰ a xs → p a ≡ true → Memᴰ a (filter p xs)
  Mem-filter p a [] m h = elim m [ ]
  Mem-filter p a (x ∷ xs) (Memᴰ.head e) h = rw (sym (ap p e) ∙ h) (Memᴰ.head e)
  Mem-filter p a (x ∷ xs) (Memᴰ.tail m) h = elim (Bool-cases (p x)) [
    | inl hit ↦ rw hit (Memᴰ.tail (Mem-filter p a xs m h))
    | inr miss ↦ rw miss (Mem-filter p a xs m h)
  ]

  pub Mem-of_filter :
      (p : A → Bool) (a : A) (xs : List A) → Memᴰ a (filter p xs) → Memᴰ a xs × (p a ≡ true)
  Mem-of_filter p a [] m = elim m [ ]
  Mem-of_filter p a (x ∷ xs) m = pick (p x) refl (λ n. Mem-of_filter p a xs n) m
    where
      pick :
          (b : Bool)
          → p x ≡ b
          → (Memᴰ a (filter p xs) → Memᴰ a xs × (p a ≡ true))
          → Memᴰ a (if b then x ∷ filter p xs else filter p xs)
          → Memᴰ a (x ∷ xs) × (p a ≡ true)
      pick true hit rest (Memᴰ.head e) = (Memᴰ.head e, ap p e ∙ hit)
      pick true hit rest (Memᴰ.tail n) = let (o, h) = rest n in (Memᴰ.tail o, h)
      pick false miss rest n = let (o, h) = rest n in (Memᴰ.tail o, h)

  pub take_all : (n : ℕ) (xs : List A) → length xs ≤ n → take n xs ≡ xs
  take_all zero [] h = refl
  take_all zero (x ∷ xs) h = absurd (omega (arith, h))
  take_all (suc n) [] h = refl
  take_all (suc n) (x ∷ xs) h = ap (λ ys. x ∷ ys) (take_all n xs (omega (arith, h)))

  pub length-take-le : (n : ℕ) (xs : List A) → length (take n xs) ≤ n
  length-take-le zero xs = omega arith
  length-take-le (suc n) [] = omega arith
  length-take-le (suc n) (x ∷ xs) = omega (arith, length-take-le n xs)

  pub Mem-of_take : (n : ℕ) (a : A) (xs : List A) → Memᴰ a (take n xs) → Memᴰ a xs
  Mem-of_take zero a xs m = elim m [ ]
  Mem-of_take (suc n) a [] m = elim m [ ]
  Mem-of_take (suc n) a (x ∷ xs) (Memᴰ.head e) = Memᴰ.head e
  Mem-of_take (suc n) a (x ∷ xs) (Memᴰ.tail m) = Memᴰ.tail (Mem-of_take n a xs m)

  pub Mem-of_drop : (n : ℕ) (a : A) (xs : List A) → Memᴰ a (drop n xs) → Memᴰ a xs
  Mem-of_drop zero a xs m = m
  Mem-of_drop (suc n) a [] m = elim m [ ]
  Mem-of_drop (suc n) a (x ∷ xs) m = Memᴰ.tail (Mem-of_drop n a xs m)

  pub Mem-append_last : (xs : List A) (a : A) → Memᴰ a (xs ++ a ∷ [])
  Mem-append_last [] a = Memᴰ.head refl
  Mem-append_last (x ∷ xs) a = Memᴰ.tail (Mem-append_last xs a)
