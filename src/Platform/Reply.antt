-- ===== src/Platform/Reply.antt =====
-- The result of a call outside the repository: a value, or the text of its error.
use finance_project.Prelude.{String}

pub data Reply (A : Type 0) : Type 0 where
  done : A → Reply A
  failed : String → Reply A
