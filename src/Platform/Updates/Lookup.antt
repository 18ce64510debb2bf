-- ===== src/Platform/Updates/Lookup.antt =====
-- Looking up keys after others have been written or removed.
use finance_project.Prelude.{
  String, ◌≡◌, refl, subst, false, none, List, [], ◌∷◌, Bool-cases, inl, inr, str_eq, eq_iff,
}
use finance_project.Platform.Updates.{lookup, without, with_value}

module _ {A : Type 0} where
  pub lookup-without :
      (j k : String) (m : List (String × A))
      → str_eq j k ≡ false
      → lookup j (without k m) ≡ lookup j m
  lookup-without j k [] n = refl
  lookup-without j k ((i, v) ∷ m) n = elim (Bool-cases (str_eq k i)) [
    | inl hit ↦
        let other : str_eq j i ≡ false = subst (λ s. str_eq j s ≡ false) ((eq_iff k i).0 hit) n in
        rw (hit, other) (lookup-without j k m n)
    | inr miss ↦ rw (miss, lookup-without j k m n) refl
  ]

  -- A write to one key leaves the others.
  pub lookup-with_value_ne :
      (j k : String) (v : A) (m : List (String × A))
      → str_eq j k ≡ false
      → lookup j (with_value k v m) ≡ lookup j m
  lookup-with_value_ne j k v m n = rw n (lookup-without j k m n)

  pub lookup-without_self : (k : String) (m : List (String × A)) → lookup k (without k m) ≡ none
  lookup-without_self k [] = refl
  lookup-without_self k ((i, v) ∷ m) = elim (Bool-cases (str_eq k i)) [
    | inl hit ↦ rw hit (lookup-without_self k m)
    | inr miss ↦ rw miss (rw miss (lookup-without_self k m))
  ]
