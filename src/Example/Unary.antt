-- ===== src/Example/Unary.antt =====
-- Numbers written in unary.
use Prim.Native.String.{String}
use finance_project.Prelude.{ℕ, zero, suc, ◌≡◌, refl, ap}
use finance_project.Models.{Uuid}

abbrev pub unary : Uuid → String
unary zero = String.[]
unary (suc n) = String.◌∷◌ "u" (unary n)

abbrev pub count_marks : String → ℕ
count_marks String.[] = zero
count_marks (String.◌∷◌ _ s) = suc (count_marks s)

pub count_marks-unary : (n : ℕ) → count_marks (unary n) ≡ n
count_marks-unary zero = refl
count_marks-unary (suc n) = ap suc (count_marks-unary n)
