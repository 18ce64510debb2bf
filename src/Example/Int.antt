-- ===== src/Example/Int.antt =====
-- Integers over the native numbers, as the amounts of the examples.
use Prim.Native.String.{String}
use finance_project.Platform.Reply.{done}
use finance_project.Prelude.{
  sub_ℕ, zero, pos_part, neg_part, ℕ, suc, ◌+◌, ◌≡◌, Bool, true, arith, leb, ◌==◌, ℤ, pos, refl,
}
use finance_project.Platform.Amounts.{Decimals}

infixl 65 ◌+ℤ◌ ◌-ℤ◌
unfoldable pub ◌+ℤ◌ : ℤ → ℤ → ℤ
a +ℤ b = sub_ℕ (pos_part a + pos_part b) (neg_part a + neg_part b)

unfoldable pub ◌-ℤ◌ : ℤ → ℤ → ℤ
a -ℤ b = sub_ℕ (pos_part a + neg_part b) (neg_part a + pos_part b)

+ℤ_parts :
    (a b : ℤ)
    → pos_part (a +ℤ b) + neg_part a + neg_part b ≡ neg_part (a +ℤ b) + pos_part a + pos_part b
unfolding ◌+ℤ◌
+ℤ_parts a b = ground arith

-ℤ_parts :
    (a b : ℤ)
    → pos_part (a -ℤ b) + neg_part a + pos_part b ≡ neg_part (a -ℤ b) + pos_part a + neg_part b
unfolding ◌-ℤ◌
-ℤ_parts a b = ground arith

eq_of_parts : (a b : ℤ) → pos_part a + neg_part b ≡ pos_part b + neg_part a → a ≡ b
eq_of_parts a b h = ground arith

ruleset int_laws = (arith, +ℤ_parts, -ℤ_parts, eq_of_parts)

abbrev pub equal_ℤ : ℤ → ℤ → Bool
equal_ℤ a b = (pos_part a + neg_part b) == (pos_part b + neg_part a)

abbrev pub less_or_equal_ℤ : ℤ → ℤ → Bool
less_or_equal_ℤ a b = leb (pos_part a + neg_part b) (pos_part b + neg_part a)

pub equal_ℤ_sound : (a b : ℤ) → equal_ℤ a b ≡ true → a ≡ b
equal_ℤ_sound a b h = ground arith

pub equal_ℤ_complete : (a b : ℤ) → a ≡ b → equal_ℤ a b ≡ true
equal_ℤ_complete a b h = ground arith

pub +ℤ_assoc : (a b c : ℤ) → (a +ℤ b) +ℤ c ≡ a +ℤ (b +ℤ c)
+ℤ_assoc a b c = omega int_laws

pub +ℤ_comm : (a b : ℤ) → a +ℤ b ≡ b +ℤ a
+ℤ_comm a b = omega int_laws

pub +ℤ_zero : (a : ℤ) → a +ℤ pos 0 ≡ a
+ℤ_zero a = omega int_laws

pub -ℤ-+ℤ : (a b : ℤ) → (a -ℤ b) +ℤ b ≡ a
-ℤ-+ℤ a b = omega int_laws

-- The length of a text, for the number that it writes.
abbrev pub digits : String → ℕ
digits String.[] = zero
digits (String.◌∷◌ c s) = suc (digits s)

abbrev pub integers : Decimals
integers = record {
  Decimal = ℤ;
  dec_zero = pos 0;
  dec_add = ◌+ℤ◌;
  dec_sub = ◌-ℤ◌;
  dec_equal = equal_ℤ;
  parse_float = λ s. pos (digits s);
  parse_decimal = λ s. done (pos (digits s));
  less_or_equal = less_or_equal_ℤ;
  round = λ a. a;
  round_round = λ a. refl;
  round_zero = refl;
  round_add = λ a b _ _. refl;
  round_sub = λ a b _ _. refl;
  dec_add_assoc = +ℤ_assoc;
  dec_add_comm = +ℤ_comm;
  dec_add_zero = +ℤ_zero;
  dec_sub_add = -ℤ-+ℤ;
  dec_equal_iff = λ a b. (equal_ℤ_sound a b, equal_ℤ_complete a b);
}
