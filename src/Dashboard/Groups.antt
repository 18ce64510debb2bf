-- ===== src/Dashboard/Groups.antt =====
-- The groups of the reports: one for each key in use, of all rows with that key.
use finance_project.Prelude.{
  Bool, true, false, List, [], ◌∷◌, filter, All, All-imp, eq_iff, ◌≡◌, ◌↔◌, inl, inr, refl, sym, ap,
  ap₂, ◌∙◌, arith, Bool-cases, if◌then◌else◌,
}
use finance_project.Dashboard.{GroupKey, same_key, add_row, group_by}

pub same_key_iff : (j k : GroupKey) → (same_key j k ≡ true) ↔ (j ≡ k)
same_key_iff (a, b) (c, d) = (
  λ h.
      ap₂ (λ x y. (x, y)) ((eq_iff a c).0 (ground (arith, h))) ((eq_iff b d).0 (ground (arith, h))),
  λ e. rw ((eq_iff a c).1 (ap (λ p. p.0) e), (eq_iff b d).1 (ap (λ p. p.1) e)) refl,
)

same_key_sym : (j k : GroupKey) → same_key k j ≡ same_key j k
same_key_sym j k = elim (Bool-cases (same_key k j)) [
  | inl hit ↦ hit ∙ sym ((same_key_iff j k).1 (sym ((same_key_iff k j).0 hit)))
  | inr miss ↦ elim (Bool-cases (same_key j k)) [
    | inl hit ↦ let back = (same_key_iff k j).1 (sym ((same_key_iff j k).0 hit)) in cc
    | inr not_either ↦ miss ∙ sym not_either
  ]
]

module _ {A : Type 0} (key : A → GroupKey) where
  abbrev Groups : Type 0
  Groups = List (GroupKey × List A)

  -- Whether a group has the key.
  abbrev pub has_group : GroupKey → Groups → Bool
  has_group k [] = false
  has_group k ((j, ms) ∷ gs) = if same_key k j then true else has_group k gs

  -- No key has two groups.
  abbrev pub OneEach : Groups → Type 0
  OneEach [] = Unit
  OneEach ((k, ms) ∷ gs) = (has_group k gs ≡ false) × OneEach gs

  -- The rows under a key.
  abbrev pub rows_under : GroupKey → List A → List A
  rows_under k rs = filter (λ r. same_key (key r) k) rs

  pub record IsGrouping (gs : Groups) (rs : List A) : Type 0 where
    pub one_each : OneEach gs
    pub all_rows : All (λ g. g.1 ≡ rows_under g.0 rs) gs
    pub every_key : All (λ r. has_group (key r) gs ≡ true) rs

  has_group-add_row :
      (k : GroupKey) (r : A) (gs : Groups)
      → has_group k (add_row key r gs) ≡ (if same_key k (key r) then true else has_group k gs)
  has_group-add_row k r [] = refl
  has_group-add_row k r ((j, ms) ∷ gs) = elim (Bool-cases (same_key (key r) j)) [
    | inl same ↦ rw same (ground (arith, ap (same_key k) ((same_key_iff (key r) j).0 same)))
    | inr differ ↦ rw differ (ground (arith, has_group-add_row k r gs))
  ]

  OneEach-add_row : (r : A) (gs : Groups) → OneEach gs → OneEach (add_row key r gs)
  OneEach-add_row r [] one = (refl, tt)
  OneEach-add_row r ((j, ms) ∷ gs) (new, one) = elim (Bool-cases (same_key (key r) j)) [
    | inl same ↦ rw same (new, one)
    | inr differ ↦ rw differ (
      has_group-add_row j r gs ∙ rw (same_key_sym (key r) j ∙ differ, new) refl,
      OneEach-add_row r gs one,
    )
  ]

  -- A group keeps its rows, with the new one in front if that has the key.
  abbrev Rows : List A → GroupKey × List A → Type 0
  Rows rs g = g.1 ≡ rows_under g.0 rs

  -- Without a group, no row has had the key.
  no_rows_under :
      (k : GroupKey) (gs : Groups) (rs : List A)
      → has_group k gs ≡ false
      → All (λ r. has_group (key r) gs ≡ true) rs
      → rows_under k rs ≡ []
  no_rows_under k gs [] h known = refl
  no_rows_under k gs (r ∷ rs) h (found, known) = elim (Bool-cases (same_key (key r) k)) [
    | inl same ↦
        let e : has_group (key r) gs ≡ has_group k gs =
          ap (λ j. has_group j gs) ((same_key_iff (key r) k).0 same) in
        cc
    | inr differ ↦ rw differ (no_rows_under k gs rs h known)
  ]

  Rows-skip :
      (r : A) (gs : Groups) (rs : List A)
      → has_group (key r) gs ≡ false
      → All (Rows rs) gs
      → All (Rows (r ∷ rs)) gs
  Rows-skip r [] rs n h = tt
  Rows-skip r ((j, ms) ∷ gs) rs n (g, h) = elim (Bool-cases (same_key (key r) j)) [
    | inl same ↦ absurd (ground (arith, same, n))
    | inr differ ↦ (rw differ g, Rows-skip r gs rs (rw differ at n) h)
  ]

  Rows-add_row :
      (r : A) (gs : Groups) (rs : List A)
      → OneEach gs
      → (has_group (key r) gs ≡ false → rows_under (key r) rs ≡ [])
      → All (Rows rs) gs
      → All (Rows (r ∷ rs)) (add_row key r gs)
  Rows-add_row r [] rs one new h =
      (rw ((same_key_iff (key r) (key r)).1 refl) (ap (λ xs. r ∷ xs) (sym (new refl))), tt)
  Rows-add_row r ((j, ms) ∷ gs) rs (fresh, one) new (g, h) =
      elim (Bool-cases (same_key (key r) j)) [
        | inl same ↦
            let unused = ap (λ k. has_group k gs) ((same_key_iff (key r) j).0 same) ∙ fresh in
            rw same (rw same (ap (λ xs. r ∷ xs) g), Rows-skip r gs rs unused h)
        | inr differ ↦ rw differ (rw differ g, Rows-add_row r gs rs one (λ n. new (rw differ n)) h)
      ]

  -- `GROUP BY` has one group for each key in use, with all the rows of that key in their order.
  pub group_by-IsGrouping : (rs : List A) → IsGrouping (group_by key rs) rs
  group_by-IsGrouping [] = record { one_each = tt; all_rows = tt; every_key = tt }
  group_by-IsGrouping (r ∷ rs) =
      let rest = group_by-IsGrouping rs in
      let gs = group_by key rs in
      record {
        one_each = OneEach-add_row r gs rest.one_each;
        all_rows =
            Rows-add_row r gs rs rest.one_each (λ n. no_rows_under (key r) gs rs n rest.every_key)
              rest.all_rows;
        every_key = (
          has_group-add_row (key r) r gs ∙ rw ((same_key_iff (key r) (key r)).1 refl) refl,
          All-imp rs (λ x found. has_group-add_row (key x) r gs ∙ ground (arith, found))
              rest.every_key,
        );
      }
