-- ===== src/Platform/Amounts.antt =====
-- github.com/shopspring/decimal, as far as the services use it: exact sums and comparisons. A
-- value of `Decimal` is the number, so that 1.0 and 1.00 are one value. A column of type numeric(19,4)
-- holds four decimals, to which Postgres rounds what it is given.
use finance_project.Platform.Reply.{Reply}
use finance_project.Prelude.{String, ◌≡◌, ◌↔◌, Bool, true, sym, ap, ◌∙◌}

pub record Decimals : Type 1 where
  pub Decimal : Type 0
  pub dec_zero : Decimal
  pub dec_add : Decimal → Decimal → Decimal
  pub dec_sub : Decimal → Decimal → Decimal
  pub dec_equal : Decimal → Decimal → Bool
  pub less_or_equal : Decimal → Decimal → Bool
  -- NewFromFloat, of a JSON number as it is written, and NewFromString
  pub parse_float : String → Decimal
  pub parse_decimal : String → Reply Decimal
  -- what a column of an amount holds of a value; sums and differences of such values fit it
  pub round : Decimal → Decimal
  pub round_round : (a : Decimal) → round (round a) ≡ round a
  pub round_zero : round dec_zero ≡ dec_zero
  pub round_add : (a b : Decimal) → round a ≡ a → round b ≡ b → round (dec_add a b) ≡ dec_add a b
  pub round_sub : (a b : Decimal) → round a ≡ a → round b ≡ b → round (dec_sub a b) ≡ dec_sub a b
  pub dec_add_assoc : (a b c : Decimal) → dec_add (dec_add a b) c ≡ dec_add a (dec_add b c)
  pub dec_add_comm : (a b : Decimal) → dec_add a b ≡ dec_add b a
  pub dec_add_zero : (a : Decimal) → dec_add a dec_zero ≡ a
  pub dec_sub_add : (a b : Decimal) → dec_add (dec_sub a b) b ≡ a
  pub dec_equal_iff : (a b : Decimal) → (dec_equal a b ≡ true) ↔ (a ≡ b)

-- Sums and differences of decimals form a commutative group.
module _ (D : Decimals) where
  open D use {
    Decimal, dec_zero, dec_add, dec_sub, dec_add_assoc, dec_add_comm, dec_add_zero, dec_sub_add,
  }

  abbrev pub negate : Decimal → Decimal
  negate a = dec_sub dec_zero a

  pub zero_add : (a : Decimal) → dec_add dec_zero a ≡ a
  zero_add a = dec_add_comm dec_zero a ∙ dec_add_zero a

  pub add_negate : (a : Decimal) → dec_add a (negate a) ≡ dec_zero
  add_negate a = dec_add_comm a (negate a) ∙ dec_sub_add dec_zero a

  pub add_cancel : (a b c : Decimal) → dec_add a c ≡ dec_add b c → a ≡ b
  add_cancel a b c h = sym (drop_right a) ∙ ap (λ t. dec_add t (negate c)) h ∙ drop_right b
    where
      drop_right : (x : Decimal) → dec_add (dec_add x c) (negate c) ≡ x
      drop_right x = dec_add_assoc x c (negate c) ∙ ap (dec_add x) (add_negate c) ∙ dec_add_zero x

  pub sub-eq-add_negate : (a b : Decimal) → dec_sub a b ≡ dec_add a (negate b)
  sub-eq-add_negate a b = add_cancel (dec_sub a b) (dec_add a (negate b)) b (
      dec_sub_add a b
      ∙ sym
          (dec_add_assoc a (negate b) b ∙ ap (dec_add a) (dec_sub_add dec_zero b) ∙ dec_add_zero a))

  pub sub_self : (a : Decimal) → dec_sub a a ≡ dec_zero
  sub_self a = sub-eq-add_negate a a ∙ add_negate a

  pub add_swap : (a b c : Decimal) → dec_add (dec_add a b) c ≡ dec_add (dec_add a c) b
  add_swap a b c =
      dec_add_assoc a b c ∙ ap (dec_add a) (dec_add_comm b c) ∙ sym (dec_add_assoc a c b)

  pub negate-add : (a b : Decimal) → negate (dec_add a b) ≡ dec_add (negate a) (negate b)
  negate-add a b = add_cancel _ _ (dec_add a b) (
      dec_sub_add dec_zero (dec_add a b)
      ∙ sym (
          sym (dec_add_assoc _ a b)
          ∙ ap (λ t. dec_add t b) (add_swap (negate a) (negate b) a)
          ∙ ap (λ t. dec_add (dec_add t (negate b)) b) (dec_sub_add dec_zero a)
          ∙ ap (λ t. dec_add t b) (zero_add (negate b))
          ∙ dec_sub_add dec_zero b))

  pub negate-negate : (a : Decimal) → negate (negate a) ≡ a
  negate-negate a = add_cancel _ _ (negate a) (dec_sub_add dec_zero (negate a) ∙ sym (add_negate a))

  pub negate-sub : (a b : Decimal) → negate (dec_sub a b) ≡ dec_add (negate a) b
  negate-sub a b =
      ap negate (sub-eq-add_negate a b)
      ∙ negate-add a (negate b)
      ∙ ap (dec_add (negate a)) (negate-negate b)
