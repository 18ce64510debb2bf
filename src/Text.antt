-- ===== src/Text.antt =====
-- The parts of Go's packages strings and strconv that the program calls.
-- `to_upper` and `to_lower` convert every character whose other case is an ASCII letter, and keep
-- the rest: the program compares their results with ASCII words only.
use Prim.Native.Char.{Char, code}
use Prim.Native.String.{String}
use finance_project.Prelude.{
  ℕ, zero, suc, ◌+◌, ◌-◌, ◌*◌, Bool, true, false, ◌&&◌, ◌||◌, Option, none, some, ltb, leb, ◌==◌,
  str_eq, if◌then◌else◌, ℤ, pos, negsuc,
}

-- The character of a text at an index.
abbrev char_or : Char → String → ℕ → Char
char_or c String.[] n = c
char_or c (String.◌∷◌ x s) zero = x
char_or c (String.◌∷◌ x s) (suc n) = char_or c s n

-- The long s and the dotless i have ASCII letters as upper case.
abbrev upper_char : Char → Char
upper_char c =
    if leb 97 (code c) && leb (code c) 122
    then char_or c "ABCDEFGHIJKLMNOPQRSTUVWXYZ" (code c - 97)
    else if code c == 0x17f
    then "S"
    else if code c == 0x131
    then "I"
    else c

-- The dotted capital I and the Kelvin sign have ASCII letters as lower case.
abbrev lower_char : Char → Char
lower_char c =
    if leb 65 (code c) && leb (code c) 90
    then char_or c "abcdefghijklmnopqrstuvwxyz" (code c - 65)
    else if code c == 0x130
    then "i"
    else if code c == 0x212a
    then "k"
    else c

unfoldable pub to_upper : String → String
to_upper String.[] = String.[]
to_upper (String.◌∷◌ c s) = String.◌∷◌ (upper_char c) (to_upper s)

unfoldable pub to_lower : String → String
to_lower String.[] = String.[]
to_lower (String.◌∷◌ c s) = String.◌∷◌ (lower_char c) (to_lower s)

-- unicode.IsSpace
abbrev is_space : ℕ → Bool
is_space n =
    (leb 9 n && leb n 13)
    || (n == 32
        || (n == 0x85
            || (n == 0xa0
                || (n == 0x1680
                    || ((leb 0x2000 n && leb n 0x200a)
                        || (n == 0x2028
                            || (n == 0x2029 || (n == 0x202f || (n == 0x205f || n == 0x3000)))))))))

abbrev trim_left : String → String
trim_left String.[] = String.[]
trim_left (String.◌∷◌ c s) =
    let rest = trim_left s in if is_space (code c) then rest else String.◌∷◌ c s

abbrev is_empty : String → Bool
is_empty String.[] = true
is_empty (String.◌∷◌ c s) = false

-- A white character goes if only white ones follow.
abbrev trim_right : String → String
trim_right String.[] = String.[]
trim_right (String.◌∷◌ c s) =
    let rest = trim_right s in
    if is_space (code c) && is_empty rest then String.[] else String.◌∷◌ c rest

unfoldable pub trim_space : String → String
trim_space s = trim_right (trim_left s)

abbrev before_to : Char → Option (String × String) → Option (String × String)
before_to c none = none
before_to c (some (s, rest)) = some (String.◌∷◌ c s, rest)

-- `SplitN(s, " ", 2)`: the two parts, if there is a blank.
unfoldable pub split_blank : String → Option (String × String)
split_blank String.[] = none
split_blank (String.◌∷◌ c s) =
    let rest = split_blank s in if code c == 32 then some (String.[], s) else before_to c rest

abbrev pub digit_of : Char → Option ℕ
digit_of c = if leb 48 (code c) && leb (code c) 57 then some (code c - 48) else none

abbrev add_digit : ℕ → Option ℕ → Option ℕ
add_digit n none = none
add_digit n (some d) = some (n * 10 + d)

-- The digits after a number read so far.
abbrev read_digits : String → Option ℕ → Option ℕ
read_digits String.[] n = n
read_digits (String.◌∷◌ c s) none = none
read_digits (String.◌∷◌ c s) (some n) = read_digits s (add_digit n (digit_of c))

abbrev read_number : String → Option ℕ
read_number String.[] = none
read_number (String.◌∷◌ c s) = read_digits (String.◌∷◌ c s) (some 0)

abbrev pub negated : ℕ → ℤ
negated zero = pos 0
negated (suc n) = negsuc n

-- Numbers that fit in 64 bits with their sign
abbrev positive_64 : Option ℕ → Option ℤ
positive_64 none = none
positive_64 (some n) = if ltb n 0x8000000000000000 then some (pos n) else none

abbrev negative_64 : Option ℕ → Option ℤ
negative_64 none = none
negative_64 (some n) = if leb n 0x8000000000000000 then some (negated n) else none

-- `strconv.Atoi`
unfoldable pub atoi : String → Option ℤ
atoi String.[] = none
atoi (String.◌∷◌ c s) =
    if code c == 45
    then negative_64 (read_number s)
    else if code c == 43
    then positive_64 (read_number s)
    else positive_64 (read_number (String.◌∷◌ c s))

-- `EqualFold(s, "Bearer")`: each of these letters has two forms, both ASCII.
abbrev fold_char : Char → Char
fold_char c =
    if leb 65 (code c) && leb (code c) 90
    then char_or c "abcdefghijklmnopqrstuvwxyz" (code c - 65)
    else c

abbrev fold : String → String
fold String.[] = String.[]
fold (String.◌∷◌ c s) = String.◌∷◌ (fold_char c) (fold s)

unfoldable pub equal_fold : String → String → Bool
equal_fold s word = str_eq (fold s) (fold word)
