-- ===== src/Pages.antt =====
-- What `QueryEvents`, `GetTransactions` and `GetRecords` have in common: the sanitised page and
-- page size, the offset, a count and a page of rows.
pub mod Bounds
use Prim.Native.Nat.{◌%◌}
use finance_project.Prelude.{
  ℕ, zero, suc, ◌+◌, ◌-◌, ◌*◌, ltb, ◌||◌, ℤ, pos, negsuc, String, Bool, List, if◌then◌else◌, some,
}
use finance_project.Errors.{internal}
use finance_project.Models.{Table, Row}
use finance_project.Action.{Action, pure, ◌>>=◌, ◌>>◌}
use finance_project.Platform.{Platform}
use finance_project.Platform.Reply.{Reply, done, failed}
use finance_project.Session.{World, query}

-- `if page < 1 { page = 1 }`
abbrev pub page_number : ℤ → ℕ
page_number (pos n) = if ltb n 1 then 1 else n
page_number (negsuc n) = 1

-- `if pageSize < 1 || pageSize > 100 { pageSize = … }`
abbrev pub page_length : ℕ → ℤ → ℕ
page_length default (pos n) = if ltb n 1 || ltb 100 n then default else n
page_length default (negsuc n) = default

-- The value of 64 bits that a number has as an `int`.
abbrev pub int64 : ℕ → ℤ
int64 n =
    if ltb (n % 0x10000000000000000) 0x8000000000000000
    then pos (n % 0x10000000000000000)
    else negsuc (0x10000000000000000 - n % 0x10000000000000000 - 1)

-- `(page - 1) * pageSize`
abbrev pub page_offset : ℕ → ℕ → ℤ
page_offset page size = int64 ((page - 1) * size)

module _ (P : Platform) where
  -- A condition that the database cannot read makes a statement fail.
  abbrev pub when_read : {A B : Type 0} → Reply A → (A → P.Db → Reply B) → P.Db → Reply B
  when_read (done a) f d = f a d
  when_read (failed cause) f d = failed cause

  unfoldable pub find_page :
      (t : Table)
      → Reply (Row P.Decimal t → Bool)
      → String
      → String
      → String
      → ℕ
      → ℕ
      → Action (World P) (List (Row P.Decimal t) × ℕ)
  find_page t condition column count_failed find_failed page size = do
    total ← query P count_failed (when_read condition (P.count t))
    rows ←
        query P find_failed
          (when_read condition (λ p. P.page t p column (page_offset page size) size))
    pure (rows, total)
