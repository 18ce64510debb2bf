-- ===== src/Session/Rows.antt =====
-- What an update under a condition does to the rows of a table.
use finance_project.Prelude.{
  ◌≡◌, refl, ap₂, Bool, true, List, [], ◌∷◌, map, All, Bool-cases, inl, inr,
}
use finance_project.Platform.Database.{update_where}

module _ {ℓ} {A : Type ℓ} where
  pub All-update_where {κ} :
      (Q : A → Type κ) (p : A → Bool) (f : A → A)
      → ((r : A) → Q r → Q (f r))
      → (rs : List A) → All Q rs
      → All Q (update_where p f rs)
  All-update_where Q p f keep [] h = tt
  All-update_where Q p f keep (r ∷ rs) (v, h) = (
    elim (Bool-cases (p r)) [ inl hit ↦ rw hit (keep r v) | inr miss ↦ rw miss v ],
    All-update_where Q p f keep rs h,
  )

  -- An update gives its rows a property that it establishes.
  pub All-update_where_hit {κ} :
      (Q : A → Type κ) (p : A → Bool) (f : A → A)
      → ((r : A) → p r ≡ true → Q (f r))
      → (rs : List A) → All (λ r. p r ≡ true → Q r) (update_where p f rs)
  All-update_where_hit Q p f set [] = tt
  All-update_where_hit Q p f set (r ∷ rs) = (
    elim (Bool-cases (p r)) [ inl hit ↦ rw hit (λ _. set r hit) | inr miss ↦ rw miss (λ h. cc) ],
    All-update_where_hit Q p f set rs,
  )

  pub map-update_where {κ} :
      {B : Type κ} (g : A → B) (p : A → Bool) (f : A → A)
      → ((r : A) → g (f r) ≡ g r)
      → (rs : List A) → map g (update_where p f rs) ≡ map g rs
  map-update_where g p f same [] = refl
  map-update_where g p f same (r ∷ rs) =
      ap₂ (λ y ys. y ∷ ys)
        (elim (Bool-cases (p r)) [ inl hit ↦ rw hit (same r) | inr miss ↦ rw miss refl ])
        (map-update_where g p f same rs)
