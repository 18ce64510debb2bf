-- ===== src/Pages/Bounds.antt =====
-- The size of a page, where it starts, and what stands on it.
use finance_project.Prelude.{
  ℕ, ◌-◌, ◌*◌, ◌≤◌, ◌<◌, ℤ, pos, negsuc, pos_part, String, Bool, true, List, All, All-of_members,
  length, take, drop, length-take-le, Mem-of_take, Mem-of_drop, Mem-of_filter, Mem-perm, ◌≡◌, ◌≢◌,
  ap, subst, arith,
}
use mathlib.Core.List.{Memᴰ, Permᴰ}
use finance_project.Models.{Table, Row}
use finance_project.Action.{ok, >>=-elim, pure-ok}
use finance_project.Platform.{Platform}
use finance_project.Platform.Reply.{done, failed}
use finance_project.Platform.Database.{is_visible, matching}
use finance_project.Session.{World}
use finance_project.Session.Laws.{query-ok}
use finance_project.Pages.{page_length, page_offset, find_page}

pub page_length_bounds :
    (default : ℕ) (size : ℤ)
    → 1 ≤ default
    → default ≤ 100
    → (1 ≤ page_length default size) × (page_length default size ≤ 100)
page_length_bounds default (pos n) low high = ground arith
page_length_bounds default (negsuc n) low high = (low, high)

-- An offset of less than 63 bits is the number of rows before the page.
pub page_offset_exact :
    (page size : ℕ)
    → (page - 1) * size < 0x8000000000000000
    → page_offset page size ≡ pos ((page - 1) * size)
page_offset_exact page size h = ground (arith, h)

module _ (P : Platform) (t : Table) where
  -- A page of the rows under a condition, and their number.
  pub record IsPage (p : Row P.Decimal t → Bool) (page size : ℕ) (d : P.Db)
      (rs : List (Row P.Decimal t)) (total : ℕ) : Type 0 where
    pub counted : total ≡ length (matching P.Decimal t p (P.rows t d))
    pub short : length rs ≤ size
    pub found : All (λ r. Memᴰ r (P.rows t d) × (is_visible P.Decimal t r ≡ true) × (p r ≡ true)) rs
    pub slice :
        (all : List (Row P.Decimal t)) × Permᴰ all (matching P.Decimal t p (P.rows t d))
        × (rs ≡ take size (drop (pos_part (page_offset page size)) all))

  statements-IsPage :
      (p : Row P.Decimal t → Bool) (column : String) (page size : ℕ) (d : P.Db)
      (rs : List (Row P.Decimal t)) (total : ℕ)
      → P.count t p d ≡ done total
      → P.page t p column (page_offset page size) size d ≡ done rs
      → IsPage p page size d rs total
  statements-IsPage p column page size d rs total counted listed =
      let (all, arranged, slice) =
        P.page_rows t p column (page_offset page size) size d rs listed in
      let rest = drop (pos_part (page_offset page size)) all in
      record {
        counted = P.count_rows t p d total counted;
        short = rw slice (length-take-le size rest);
        found = All-of_members _ rs λ r m.
            let there = Mem-of_drop _ r all (Mem-of_take size r rest (subst (Memᴰ r) slice m)) in
            let (stored, hit) = Mem-of_filter _ r (P.rows t d) (Mem-perm r all _ arranged there) in
            (stored, ground (arith, hit), ground (arith, hit));
        slice = (all, arranged, slice);
      }

  pub find_page-IsPage :
      (p : Row P.Decimal t → Bool) (column count find : String) (page size : ℕ) (w : World P)
      {u : World P} {rs : List (Row P.Decimal t)} {total : ℕ}
      → find_page P t (done p) column count find page size w ≡ (ok (rs, total), u)
      → IsPage p page size w.db rs total
  unfolding find_page
  find_page-IsPage p column count find page size w {u} {rs} {total} h =
      >>=-elim _ _ w h λ n w₁ counted h₁. >>=-elim _ _ w₁ h₁ λ xs w₂ listed h₂.
        let (is_count, same) = query-ok P _ _ w counted in
        let (is_page, _) = query-ok P _ _ w₁ listed in
        let both = (pure-ok h₂).0 in
        subst (λ (x : List (Row P.Decimal t) × ℕ). IsPage p page size w.db x.0 x.1) both
          (statements-IsPage p column page size w.db xs n is_count
            (rw (ap (λ (v : World P). v.db) same) at is_page))

  -- A condition that cannot be read gives no page.
  pub find_page_unread :
      (cause column count find : String) (page size : ℕ) (w : World P) {u : World P}
      {x : List (Row P.Decimal t) × ℕ}
      → find_page P t (failed cause) column count find page size w ≢ (ok x, u)
  unfolding find_page
  find_page_unread cause column count find page size w h =
      >>=-elim _ _ w h λ n w₁ counted _. let (e, _) = query-ok P _ _ w counted in cc
