-- ===== src/Platform/Database.antt =====
-- The database behind gorm.io/gorm, as far as the services use it. Each statement succeeds or fails
-- as the database decides; the laws say what one that succeeds has done. `rows` lists the rows of a
-- table in an order of its own.
use finance_project.Prelude.{
  ◌≡◌, ◌≢◌, Bool, true, false, ◌&&◌, Option, none, some, List, [], ◌∷◌, ◌++◌, map, if◌then◌else◌,
  All, Distinct, ℕ, ℤ, pos_part, String, length, filter, take, drop, not,
}
use mathlib.Core.List.{Memᴰ, Permᴰ}
use finance_project.Platform.Reply.{Reply, done}
use finance_project.Platform.Updates.{Updates, Columns}
use finance_project.Models.{
  Table, users, accounts, records, entries, events, outbox, tokens, keys, Row, RefreshToken,
  IdempotencyKey,
}

-- The rows that a query sees: a record that is soft-deleted is hidden.
abbrev pub is_visible : (D : Type 0) (t : Table) → Row D t → Bool
is_visible D users r = true
is_visible D accounts r = true
is_visible D records r = elim r.deleted_at [ none ↦ true | some _ ↦ false ]
is_visible D entries r = true
is_visible D events r = true
is_visible D outbox r = true
is_visible D tokens r = true
is_visible D keys r = true

abbrev pub update_where {ℓ} : {A : Type ℓ} → (A → Bool) → (A → A) → List A → List A
update_where p f rs = map (λ r. if p r then f r else r) rs

-- The tables whose rows follow the row of another table that they refer to: they go when it is
-- deleted, and refer to its new key when that changes.
abbrev pub cascades : Table → Table → Bool
cascades users accounts = true
cascades users records = true
cascades users tokens = true
cascades _ _ = false

-- The rows that a statement under a condition reaches.
abbrev pub matching : (D : Type 0) (t : Table) → (Row D t → Bool) → List (Row D t) → List (Row D t)
matching D t p rs = filter (λ r. is_visible D t r && p r) rs

-- What the columns of a row hold: amounts are rounded.
abbrev pub in_columns : (D : Type 0) → (D → D) → (t : Table) → Row D t → Row D t
in_columns D round users r = r
in_columns D round accounts r = record r { balance = round r.balance }
in_columns D round records r = record r { amount = round r.amount }
in_columns D round entries r = record r { amount = round r.amount }
in_columns D round events r = r
in_columns D round outbox r = r
in_columns D round tokens r = r
in_columns D round keys r = r

pub record Gorm (D : Type 0) (round : D → D) : Type 1 where
  pub Db : Type 0
  pub rows : (t : Table) → Db → List (Row D t)
  -- the two ends of `DB.Transaction`; the third takes the states before and at the error
  pub begin : Db → Reply Db
  pub commit : Db → Reply Db
  pub rollback : Db → Db → Db
  -- Create, Find, First and Updates, under a condition on the row
  pub insert : (t : Table) → Row D t → Db → Reply Db
  pub select : (t : Table) → (Row D t → Bool) → Db → Reply (List (Row D t))
  pub first : (t : Table) → (Row D t → Bool) → Db → Reply (Option (Row D t))
  pub update : (t : Table) → (Row D t → Bool) → (Row D t → Row D t) → Db → Reply Db
  -- Updates with a map, Delete of rows that are not soft-deleted, Count, and a page of a Find: the
  -- column that orders it, the offset, which counts if it is positive, and the limit
  pub columns : Columns D
  pub update_map : (t : Table) → (Row D t → Bool) → Updates D → Db → Reply Db
  pub delete : (t : Table) → (Row D t → Bool) → Db → Reply Db
  pub count : (t : Table) → (Row D t → Bool) → Db → Reply ℕ
  pub page : (t : Table) → (Row D t → Bool) → String → ℤ → ℕ → Db → Reply (List (Row D t))
  -- the rows of a result in the order that a clause gives, or one of the database's own
  pub order_by : {A : Type 0} → String → List A → List A
  pub begin_rows : (t : Table) (d e : Db) → begin d ≡ done e → rows t e ≡ rows t d
  pub commit_rows : (t : Table) (d e : Db) → commit d ≡ done e → rows t e ≡ rows t d
  pub rollback_rows : (t : Table) (d e : Db) → rows t (rollback d e) ≡ rows t d
  pub insert_rows :
      (t : Table) (r : Row D t) (d e : Db)
      → insert t r d ≡ done e
      → rows t e ≡ rows t d ++ in_columns D round t r ∷ []
  pub insert_others :
      (t u : Table) (r : Row D t) (d e : Db) → u ≢ t → insert t r d ≡ done e → rows u e ≡ rows u d
  pub select_sound :
      (t : Table) (p : Row D t → Bool) (d : Db) (rs : List (Row D t))
      → select t p d ≡ done rs
      → All (λ r. Memᴰ r (rows t d) × (is_visible D t r ≡ true) × (p r ≡ true)) rs
  pub select_complete :
      (t : Table) (p : Row D t → Bool) (d : Db) (rs : List (Row D t))
      → select t p d ≡ done rs
      → (r : Row D t) → Memᴰ r (rows t d)
      → is_visible D t r ≡ true
      → p r ≡ true
      → Memᴰ r rs
  pub select_rows :
      (t : Table) (p : Row D t → Bool) (d : Db) (rs : List (Row D t))
      → select t p d ≡ done rs
      → Permᴰ rs (matching D t p (rows t d))
  pub order_by_rows : {A : Type 0} (clause : String) (rs : List A) → Permᴰ (order_by clause rs) rs
  pub first_none :
      (t : Table) (p : Row D t → Bool) (d : Db)
      → first t p d ≡ done none
      → (r : Row D t) → Memᴰ r (rows t d)
      → is_visible D t r ≡ true
      → p r ≡ false
  pub first_some :
      (t : Table) (p : Row D t → Bool) (d : Db) (r : Row D t)
      → first t p d ≡ done (some r)
      → Memᴰ r (rows t d) × (is_visible D t r ≡ true) × (p r ≡ true)
  pub update_rows :
      (t : Table) (p : Row D t → Bool) (f : Row D t → Row D t) (d e : Db)
      → update t p f d ≡ done e
      → rows t e
        ≡ update_where (λ r. is_visible D t r && p r) (λ r. in_columns D round t (f r)) (rows t d)
  pub update_others :
      (t u : Table) (p : Row D t → Bool) (f : Row D t → Row D t) (d e : Db)
      → u ≢ t
      → update t p f d ≡ done e
      → rows u e ≡ rows u d
  pub update_map_rows :
      (t : Table) (p : Row D t → Bool) (m : Updates D) (d e : Db)
      → update_map t p m d ≡ done e
      → rows t e
        ≡ update_where
            (λ r. is_visible D t r && p r)
            (λ r. in_columns D round t (columns.assign t m r))
            (rows t d)
  pub update_map_others :
      (t u : Table) (p : Row D t → Bool) (m : Updates D) (d e : Db)
      → u ≢ t
      → cascades t u ≡ false
      → update_map t p m d ≡ done e
      → rows u e ≡ rows u d
  pub delete_rows :
      (t : Table) (p : Row D t → Bool) (d e : Db)
      → delete t p d ≡ done e
      → rows t e ≡ filter (λ r. not (p r)) (rows t d)
  pub delete_others :
      (t u : Table) (p : Row D t → Bool) (d e : Db)
      → u ≢ t
      → cascades t u ≡ false
      → delete t p d ≡ done e
      → rows u e ≡ rows u d
  pub count_rows :
      (t : Table) (p : Row D t → Bool) (d : Db) (n : ℕ)
      → count t p d ≡ done n
      → n ≡ length (matching D t p (rows t d))
  pub page_rows :
      (t : Table) (p : Row D t → Bool) (column : String) (offset : ℤ) (limit : ℕ) (d : Db)
      (rs : List (Row D t))
      → page t p column offset limit d ≡ done rs
      → (all : List (Row D t)) × Permᴰ all (matching D t p (rows t d))
        × (rs ≡ take limit (drop (pos_part offset) all))
  pub rows_in_columns : (t : Table) (d : Db) → All (λ r. in_columns D round t r ≡ r) (rows t d)
  -- the primary keys of the accounts, of the records and of the idempotency keys, and the unique index on the
  -- hashes of the refresh tokens
  pub accounts_distinct : (d : Db) → Distinct (map (λ a. a.id) (rows accounts d))
  pub records_distinct : (d : Db) → Distinct (map (λ r. r.id) (rows records d))
  pub hashes_distinct :
      (d : Db) (a b : RefreshToken)
      → Memᴰ a (rows tokens d)
      → Memᴰ b (rows tokens d)
      → a.token_hash ≡ b.token_hash
      → a ≡ b
  pub keys_distinct :
      (d : Db) (a b : IdempotencyKey)
      → Memᴰ a (rows keys d)
      → Memᴰ b (rows keys d)
      → a.key ≡ b.key
      → a ≡ b
