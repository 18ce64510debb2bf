-- ===== src/Example/Memory.antt =====
-- A database in memory that meets the interface, and the platform over it.
use finance_project.Prelude.{
  String, take, drop, pos_part, not, ℤ, ℕ, ◌≡◌, ◌≢◌, refl, sym, ap, ◌∙◌, subst, Bool, true, false,
  ◌&&◌, Option, none, some, List, [], ◌∷◌, ◌++◌, map, filter, All, All-imp, arith,
}
use mathlib.Core.List.{Memᴰ, Permᴰ}
use mathlib.Core.List.Permᴰ
use finance_project.Models.{
  Table, users, accounts, records, entries, events, outbox, tokens, keys, Row, RefreshToken,
  IdempotencyKey,
}
use finance_project.Platform.Reply.{Reply, done, failed}
use finance_project.Platform.Updates.{Updates}
use finance_project.Example.Assign.{assign_row}
use finance_project.Platform.Database.{is_visible, in_columns, update_where, matching}
use finance_project.Example.Filters.{
  filter_sound, filter_complete, find_first, find_first-none, find_first-some,
}
use finance_project.Example.Tables.{
  Tables, get, put, get-put_self, get-put_ne, is_distinct, has_distinct_texts,
}

abbrev pub account_keys : Tables ℤ → List ℕ
account_keys x = map (λ a. a.id) x.account_rows

abbrev pub has_distinct_hashes : Tables ℤ → Bool
has_distinct_hashes x = has_distinct_texts (λ (t : RefreshToken). t.token_hash) x.token_rows

abbrev pub has_distinct_keys : Tables ℤ → Bool
has_distinct_keys x = has_distinct_texts (λ (k : IdempotencyKey). k.key) x.key_rows

abbrev pub record_keys : Tables ℤ → List ℕ
record_keys x = map (λ r. r.id) x.record_rows

-- The ids of the accounts and of the records are distinct, and so are the hashes of the tokens and the keys.
abbrev pub is_keyed : Tables ℤ → Bool
is_keyed x =
    is_distinct (account_keys x)
    && (is_distinct (record_keys x) && (has_distinct_hashes x && has_distinct_keys x))

-- The tables, with their keys.
pub record MemoryDb : Type 0 where
  pub tables : Tables ℤ
  pub keyed : is_keyed tables ≡ true

abbrev pub store_if : (x : Tables ℤ) (b : Bool) → is_keyed x ≡ b → Reply MemoryDb
store_if x true e = done (record { tables = x; keyed = e })
store_if x false e = failed "duplicate key"

abbrev pub store : Tables ℤ → Reply MemoryDb
store x = store_if x (is_keyed x) refl

store_if-done :
    (x : Tables ℤ) (b : Bool) (e : is_keyed x ≡ b) {d : MemoryDb}
    → store_if x b e ≡ done d
    → d.tables ≡ x
store_if-done x true e h = ground arith
store_if-done x false e h = cc

pub store-done : (x : Tables ℤ) {d : MemoryDb} → store x ≡ done d → d.tables ≡ x
store-done x h = store_if-done x (is_keyed x) refl h

abbrev pub rows_of : (t : Table) → MemoryDb → List (Row ℤ t)
rows_of t d = get ℤ t d.tables

module _ (D : Type 0) where
  abbrev pub both : (t : Table) → (Row D t → Bool) → Row D t → Bool
  both t p r = is_visible D t r && p r

  both-true :
      (t : Table) (p : Row D t → Bool) (r : Row D t)
      → both t p r ≡ true
      → (is_visible D t r ≡ true) × (p r ≡ true)
  both-true t p r h = ground arith

abbrev pub select_rows : (t : Table) → (Row ℤ t → Bool) → MemoryDb → Reply (List (Row ℤ t))
select_rows t p d = done (filter (both ℤ t p) (rows_of t d))

abbrev pub first_row : (t : Table) → (Row ℤ t → Bool) → MemoryDb → Reply (Option (Row ℤ t))
first_row t p d = done (find_first (both ℤ t p) (rows_of t d))

abbrev pub insert_row : (t : Table) → Row ℤ t → MemoryDb → Reply MemoryDb
insert_row t r d = store (put ℤ t (rows_of t d ++ in_columns ℤ (λ a. a) t r ∷ []) d.tables)

abbrev pub update_rows_of :
    (t : Table) → (Row ℤ t → Bool) → (Row ℤ t → Row ℤ t) → MemoryDb → Reply MemoryDb
update_rows_of t p f d = store (
    put ℤ t (update_where (both ℤ t p) (λ r. in_columns ℤ (λ a. a) t (f r)) (rows_of t d)) d.tables)

abbrev pub update_map_of : (t : Table) → (Row ℤ t → Bool) → Updates ℤ → MemoryDb → Reply MemoryDb
update_map_of t p m d = store (
    put ℤ t
      (update_where (both ℤ t p) (λ r. in_columns ℤ (λ a. a) t (assign_row t m r)) (rows_of t d))
      d.tables)

abbrev pub delete_rows_of : (t : Table) → (Row ℤ t → Bool) → MemoryDb → Reply MemoryDb
delete_rows_of t p d = store (put ℤ t (filter (λ r. not (p r)) (rows_of t d)) d.tables)

abbrev pub page_of :
    (t : Table) → (Row ℤ t → Bool) → String → ℤ → ℕ → MemoryDb → Reply (List (Row ℤ t))
page_of t p column offset limit d =
    done (take limit (drop (pos_part offset) (matching ℤ t p (rows_of t d))))

pub page_of_rows :
    (t : Table) (p : Row ℤ t → Bool) (column : String) (offset : ℤ) (limit : ℕ) (d : MemoryDb)
    (rs : List (Row ℤ t))
    → page_of t p column offset limit d ≡ done rs
    → (all : List (Row ℤ t)) × Permᴰ all (matching ℤ t p (rows_of t d))
      × (rs ≡ take limit (drop (pos_part offset) all))
page_of_rows t p column offset limit d rs h =
    (matching ℤ t p (rows_of t d), Permᴰ.refl (matching ℤ t p (rows_of t d)), cc)

-- Whole amounts fit their columns.
fits : (t : Table) (r : Row ℤ t) → in_columns ℤ (λ a. a) t r ≡ r
fits users r = refl
fits accounts r = refl
fits records r = refl
fits entries r = refl
fits events r = refl
fits outbox r = refl
fits tokens r = refl
fits keys r = refl

pub All-fits : (t : Table) (rs : List (Row ℤ t)) → All (λ r. in_columns ℤ (λ a. a) t r ≡ r) rs
All-fits t [] = tt
All-fits t (r ∷ rs) = (fits t r, All-fits t rs)

-- A write of the rows of one table is what is then read, and the others are as before.
pub write_rows :
    (t : Table) (rs : List (Row ℤ t)) (d e : MemoryDb)
    → store (put ℤ t rs d.tables) ≡ done e
    → rows_of t e ≡ rs
write_rows t rs d e h = ap (get ℤ t) (store-done _ h) ∙ get-put_self ℤ t rs d.tables

pub write_others :
    (t u : Table) (rs : List (Row ℤ t)) (d e : MemoryDb)
    → u ≢ t
    → store (put ℤ t rs d.tables) ≡ done e
    → rows_of u e ≡ rows_of u d
write_others t u rs d e n h = ap (get ℤ u) (store-done _ h) ∙ get-put_ne ℤ t u rs d.tables n

pub select_rows_sound :
    (t : Table) (p : Row ℤ t → Bool) (d : MemoryDb) (rs : List (Row ℤ t))
    → select_rows t p d ≡ done rs
    → All (λ r. Memᴰ r (rows_of t d) × (is_visible ℤ t r ≡ true) × (p r ≡ true)) rs
select_rows_sound t p d rs h =
    let e : filter (both ℤ t p) (rows_of t d) ≡ rs = cc in
    subst (All _) e (
      All-imp (filter (both ℤ t p) (rows_of t d))
        (λ r m. let (seen, hit) = both-true ℤ t p r m.1 in (m.0, seen, hit))
        (filter_sound (both ℤ t p) (rows_of t d)))

pub select_rows_complete :
    (t : Table) (p : Row ℤ t → Bool) (d : MemoryDb) (rs : List (Row ℤ t))
    → select_rows t p d ≡ done rs
    → (r : Row ℤ t) → Memᴰ r (rows_of t d)
    → is_visible ℤ t r ≡ true
    → p r ≡ true
    → Memᴰ r rs
select_rows_complete t p d rs h r m seen hit =
    let e : filter (both ℤ t p) (rows_of t d) ≡ rs = cc in
    subst (Memᴰ r) e (filter_complete (both ℤ t p) r (rows_of t d) m (rw (seen, hit) refl))

pub first_row-none :
    (t : Table) (p : Row ℤ t → Bool) (d : MemoryDb)
    → first_row t p d ≡ done none
    → (r : Row ℤ t) → Memᴰ r (rows_of t d)
    → is_visible ℤ t r ≡ true
    → p r ≡ false
first_row-none t p d h r m seen =
    let miss = find_first-none (both ℤ t p) r (rows_of t d) (cc) m in rw seen at miss

pub first_row-some :
    (t : Table) (p : Row ℤ t → Bool) (d : MemoryDb) (r : Row ℤ t)
    → first_row t p d ≡ done (some r)
    → Memᴰ r (rows_of t d) × (is_visible ℤ t r ≡ true) × (p r ≡ true)
first_row-some t p d r h =
    let (m, e) = find_first-some (both ℤ t p) r (rows_of t d) (cc) in
    let (seen, hit) = both-true ℤ t p r e in (m, seen, hit)

pub kept : (t : Table) (d e : MemoryDb) → done d ≡ done e → rows_of t e ≡ rows_of t d
kept t d e h = let same : d ≡ e = cc in ap (rows_of t) (sym same)
