-- ===== src/Dates.antt =====
-- `time.Parse("2006-01-02", s)`: the nanoseconds from Go's zero time, the start of the year 1, to
-- the start of a day.
use Prim.Native.Char.{code}
use Prim.Native.Nat.{◌/◌, ◌%◌}
use Prim.Native.String.{String}
use finance_project.Prelude.{
  ℕ, zero, suc, ◌+◌, ◌-◌, ◌*◌, Bool, not, ◌&&◌, ◌||◌, Option, none, some, leb, ◌==◌, if◌then◌else◌,
  ℤ, sub_ℕ,
}

abbrev pub day : ℕ
day = 86400000000000

abbrev is_leap : ℕ → Bool
is_leap y = y % 4 == 0 && (not (y % 100 == 0) || y % 400 == 0)

abbrev days_in : ℕ → ℕ → ℕ
days_in y m =
    if m == 2
    then (if is_leap y then 29 else 28)
    else if m == 4 || (m == 6 || (m == 9 || m == 11))
    then 30
    else 31

-- The days of the months before.
abbrev days_before : ℕ → ℕ → ℕ
days_before y zero = 0
days_before y (suc m) = days_before y m + (if m == 0 then 0 else days_in y m)

-- Counted from the start of the year 0
abbrev day_number : ℕ → ℕ → ℕ → ℕ
day_number y m d =
    365 * y + (y + 3) / 4 - (y + 99) / 100 + (y + 399) / 400 + days_before y m + (d - 1)

abbrev start_of : ℕ → ℕ → ℕ → Option ℤ
start_of y m d =
    if (leb 1 m && leb m 12) && (leb 1 d && leb d (days_in y m))
    then some (sub_ℕ (day_number y m d * day) (366 * day))
    else none

-- The digits that a text starts with, as many as asked for, and the rest.
abbrev fixed_digits : ℕ → ℕ → String → Option (ℕ × String)
fixed_digits zero n s = some (n, s)
fixed_digits (suc k) n String.[] = none
fixed_digits (suc k) n (String.◌∷◌ c s) =
    let rest = fixed_digits k (n * 10 + (code c - 48)) s in
    if leb 48 (code c) && leb (code c) 57 then rest else none

abbrev dash : String → Option String
dash String.[] = none
dash (String.◌∷◌ c s) = if code c == 45 then some s else none

abbrev at_end : Option ℤ → String → Option ℤ
at_end o String.[] = o
at_end o (String.◌∷◌ c s) = none

unfoldable pub parse_date : String → Option ℤ
parse_date s = elim (fixed_digits 4 0 s) [
  | none ↦ none
  | some (y, s₁) ↦ elim (dash s₁) [
    | none ↦ none
    | some s₂ ↦ elim (fixed_digits 2 0 s₂) [
      | none ↦ none
      | some (m, s₃) ↦ elim (dash s₃) [
        | none ↦ none
        | some s₄ ↦ elim (fixed_digits 2 0 s₄) [
          | none ↦ none
          | some (d, s₅) ↦ at_end (start_of y m d) s₅
        ]
      ]
    ]
  ]
]
