-- ===== src/Example/Filters.antt =====
-- Filtering and searching a list by a Boolean test.
use finance_project.Prelude.{
  ◌≡◌, refl, sym, subst, Bool, true, false, Option, none, some, List, [], ◌∷◌, filter,
  if◌then◌else◌, All, All-imp, Bool-cases, inl, inr,
}
use mathlib.Core.List.{Memᴰ}

module _ {ℓ} {A : Type ℓ} (p : A → Bool) where
  pub filter_sound : (xs : List A) → All (λ a. Memᴰ a xs × (p a ≡ true)) (filter p xs)
  filter_sound [] = tt
  filter_sound (x ∷ xs) = elim (Bool-cases (p x)) [
    | inl hit ↦ rw hit (
      (Memᴰ.head refl, hit),
      All-imp (filter p xs) (λ a m. (Memᴰ.tail m.0, m.1)) (filter_sound xs),
    )
    | inr miss ↦ rw miss (All-imp (filter p xs) (λ a m. (Memᴰ.tail m.0, m.1)) (filter_sound xs))
  ]

  pub filter_complete : (a : A) (xs : List A) → Memᴰ a xs → p a ≡ true → Memᴰ a (filter p xs)
  filter_complete a [] m h = elim m [ ]
  filter_complete a (x ∷ xs) (Memᴰ.head e) h = rw (subst (λ b. p b ≡ true) e h) (Memᴰ.head e)
  filter_complete a (x ∷ xs) (Memᴰ.tail m) h = elim (Bool-cases (p x)) [
    | inl hit ↦ rw hit (Memᴰ.tail (filter_complete a xs m h))
    | inr miss ↦ rw miss (filter_complete a xs m h)
  ]

  abbrev pub find_first : List A → Option A
  find_first [] = none
  find_first (x ∷ xs) = if p x then some x else find_first xs

  pub find_first-none : (a : A) (xs : List A) → find_first xs ≡ none → Memᴰ a xs → p a ≡ false
  find_first-none a [] h m = elim m [ ]
  find_first-none a (x ∷ xs) h (Memᴰ.head e) = elim (Bool-cases (p x)) [
    | inl hit ↦ cc (rw hit at h)
    | inr miss ↦ subst (λ b. p b ≡ false) (sym e) miss
  ]
  find_first-none a (x ∷ xs) h (Memᴰ.tail m) = elim (Bool-cases (p x)) [
    | inl hit ↦ cc (rw hit at h)
    | inr miss ↦ find_first-none a xs (rw miss at h) m
  ]

  pub find_first-some : (a : A) (xs : List A) → find_first xs ≡ some a → Memᴰ a xs × (p a ≡ true)
  find_first-some a [] h = cc
  find_first-some a (x ∷ xs) h = elim (Bool-cases (p x)) [
    | inl hit ↦
        let e : x ≡ a = cc (rw hit at h) in (Memᴰ.head (sym e), subst (λ b. p b ≡ true) e hit)
    | inr miss ↦ let (m, e) = find_first-some a xs (rw miss at h) in (Memᴰ.tail m, e)
  ]
