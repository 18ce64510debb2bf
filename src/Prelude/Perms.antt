-- ===== src/Prelude/Perms.antt =====
-- Lists that differ in their order.
use Prim.Native.Nat.{suc}
use mathlib.Core.Path.{◌≡◌, refl, sym, ap, ◌∙◌}
use mathlib.Core.Bool.{Bool}
use mathlib.Core.Logic.{inl, inr}
use mathlib.Core.List.{List, map, Memᴰ, Permᴰ}
use mathlib.Core.List.Permᴰ
use finance_project.Prelude.Tests.{Bool-cases}
use finance_project.Prelude.Lists.{length, filter}

module _ {ℓ} {A : Type ℓ} where
  pub Mem-perm : (a : A) (xs ys : List A) → Permᴰ xs ys → Memᴰ a xs → Memᴰ a ys
  Mem-perm a _ _ Permᴰ.nil m = m
  Mem-perm a _ _ (Permᴰ.cons e d) (Memᴰ.head h) = Memᴰ.head (h ∙ e)
  Mem-perm a _ _ (Permᴰ.cons e d) (Memᴰ.tail m) = Memᴰ.tail (Mem-perm a _ _ d m)
  Mem-perm a _ _ (Permᴰ.swap e f) (Memᴰ.head h) = Memᴰ.tail (Memᴰ.head (h ∙ e))
  Mem-perm a _ _ (Permᴰ.swap e f) (Memᴰ.tail (Memᴰ.head h)) = Memᴰ.head (h ∙ f)
  Mem-perm a _ _ (Permᴰ.swap e f) (Memᴰ.tail (Memᴰ.tail m)) = Memᴰ.tail (Memᴰ.tail m)
  Mem-perm a _ _ (Permᴰ.trans c d) m = Mem-perm a _ _ d (Mem-perm a _ _ c m)

  pub length-perm : (xs ys : List A) → Permᴰ xs ys → length xs ≡ length ys
  length-perm _ _ Permᴰ.nil = refl
  length-perm _ _ (Permᴰ.cons e d) = ap suc (length-perm _ _ d)
  length-perm _ _ (Permᴰ.swap e f) = refl
  length-perm _ _ (Permᴰ.trans c d) = length-perm _ _ c ∙ length-perm _ _ d

  pub filter-perm :
      (p : A → Bool) (xs ys : List A) → Permᴰ xs ys → Permᴰ (filter p xs) (filter p ys)
  filter-perm p _ _ Permᴰ.nil = Permᴰ.nil
  filter-perm p _ _ (Permᴰ.cons {a = a} {b = b} e d) = elim (Bool-cases (p a)) [
    | inl hit ↦ rw (hit, sym (ap p e) ∙ hit) (Permᴰ.cons e (filter-perm p _ _ d))
    | inr miss ↦ rw (miss, sym (ap p e) ∙ miss) (filter-perm p _ _ d)
  ]
  filter-perm p _ _ (Permᴰ.swap {a = a} {b = b} {l = l} e f) = elim (Bool-cases (p a)) [
    | inl one ↦ elim (Bool-cases (p b)) [
      | inl two ↦ rw (one, two, sym (ap p e) ∙ one, sym (ap p f) ∙ two) (Permᴰ.swap e f)
      | inr miss ↦
          rw (one, miss, sym (ap p e) ∙ one, sym (ap p f) ∙ miss) (Permᴰ.cons e (Permᴰ.refl _))
    ]
    | inr none_yet ↦ elim (Bool-cases (p b)) [
      | inl two ↦
          rw (none_yet, two, sym (ap p e) ∙ none_yet, sym (ap p f) ∙ two)
            (Permᴰ.cons f (Permᴰ.refl _))
      | inr miss ↦ rw (none_yet, miss, sym (ap p e) ∙ none_yet, sym (ap p f) ∙ miss) (Permᴰ.refl _)
    ]
  ]
  filter-perm p _ _ (Permᴰ.trans c d) = Permᴰ.trans (filter-perm p _ _ c) (filter-perm p _ _ d)

  pub map-perm {κ} :
      {B : Type κ} (f : A → B) (xs ys : List A) → Permᴰ xs ys → Permᴰ (map f xs) (map f ys)
  map-perm f _ _ Permᴰ.nil = Permᴰ.nil
  map-perm f _ _ (Permᴰ.cons e d) = Permᴰ.cons (ap f e) (map-perm f _ _ d)
  map-perm f _ _ (Permᴰ.swap e g) = Permᴰ.swap (ap f e) (ap f g)
  map-perm f _ _ (Permᴰ.trans c d) = Permᴰ.trans (map-perm f _ _ c) (map-perm f _ _ d)
