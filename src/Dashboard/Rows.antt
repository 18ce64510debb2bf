-- ===== src/Dashboard/Rows.antt =====
-- A report has one row for each group of the rows that it is about.
use finance_project.Prelude.{
  fun_ext, if◌then◌else◌, true, true, List, [], ◌∷◌, map, All, All-imp, All-member, Mem-perm,
  filter-perm, ◌≡◌, refl, sym, ap, ap₂, ◌∙◌, subst, Bool-cases, inl, inr,
}
use mathlib.Core.List.{Memᴰ, Permᴰ}
use mathlib.Core.List.Permᴰ
use finance_project.Dashboard.{GroupKey, same_key, add_row, group_by}
use finance_project.Dashboard.Groups.{
  OneEach, has_group, rows_under, group_by-IsGrouping, same_key_iff,
}

module _ {A R : Type 0} (key : A → GroupKey) (row : GroupKey × List A → R) where
  -- The row of the group that a record is in, over all records.
  abbrev pub row_of : List A → A → R
  row_of all r = row (key r, rows_under key (key r) all)

  -- The report has the row of every record's group, and no others.
  pub record IsReport (all : List A) (out : List R) : Type 0 where
    pub sound : (x : R) → Memᴰ x out → (r : A) × Memᴰ r all × (x ≡ row_of all r)
    pub complete : (r : A) → Memᴰ r all → Memᴰ (row_of all r) out
    -- the groups, each once
    pub groups : List (GroupKey × List A)
    pub one_each : OneEach key groups
    pub full : All (λ g. g.1 ≡ rows_under key g.0 all) groups
    pub arranged : Permᴰ out (map row groups)

  -- Every group has the key of a row.
  abbrev Used : List A → GroupKey × List A → Type 0
  Used rs g = (r : A) × Memᴰ r rs × (g.0 ≡ key r)

  Used-later : (r : A) (rs : List A) (g : GroupKey × List A) → Used rs g → Used (r ∷ rs) g
  Used-later r rs g (s, m, e) = (s, Memᴰ.tail m, e)

  Used-add_row :
      (r : A) (rs : List A) (gs : List (GroupKey × List A))
      → All (Used rs) gs
      → All (Used (r ∷ rs)) (add_row key r gs)
  Used-add_row r rs [] h = ((r, Memᴰ.head refl, refl), tt)
  Used-add_row r rs ((k, ms) ∷ gs) (g, h) = elim (Bool-cases (same_key (key r) k)) [
    | inl same ↦ rw same (Used-later r rs (k, r ∷ ms) g, All-imp gs (λ x u. Used-later r rs x u) h)
    | inr differ ↦ rw differ (Used-later r rs (k, ms) g, Used-add_row r rs gs h)
  ]

  group_by-Used : (rs : List A) → All (Used rs) (group_by key rs)
  group_by-Used [] = tt
  group_by-Used (r ∷ rs) = Used-add_row r rs (group_by key rs) (group_by-Used rs)

  -- A key that has a group has its row.
  has_group-Mem :
      (k : GroupKey) (rs : List A) (gs : List (GroupKey × List A))
      → has_group key k gs ≡ true
      → All (λ g. g.1 ≡ rows_under key g.0 rs) gs
      → Memᴰ (row (k, rows_under key k rs)) (map row gs)
  has_group-Mem k rs [] h full = cc
  has_group-Mem k rs ((j, ms) ∷ gs) h (g, full) = elim (Bool-cases (same_key k j)) [
    | inl same ↦
        let e = (same_key_iff k j).0 same in
        Memᴰ.head (ap (λ i. row (i, rows_under key i rs)) e ∙ ap (λ xs. row (j, xs)) (sym g))
    | inr differ ↦ Memᴰ.tail (has_group-Mem k rs gs (rw differ at h) full)
  ]

  Mem-of_map :
      (x : R) (gs : List (GroupKey × List A))
      → Memᴰ x (map row gs)
      → (g : GroupKey × List A) × Memᴰ g gs × (x ≡ row g)
  Mem-of_map x [] m = elim m [ ]
  Mem-of_map x (g ∷ gs) (Memᴰ.head e) = (g, Memᴰ.head refl, e)
  Mem-of_map x (g ∷ gs) (Memᴰ.tail m) = let (h, n, e) = Mem-of_map x gs m in (h, Memᴰ.tail n, e)

  -- The groups with all rows of their keys, and the rows of the report that they have.
  abbrev regroup : List A → List (GroupKey × List A) → List (GroupKey × List A)
  regroup all [] = []
  regroup all ((k, ms) ∷ gs) = (k, rows_under key k all) ∷ regroup all gs

  has_group-regroup :
      (all : List A) (k : GroupKey) (gs : List (GroupKey × List A))
      → has_group key k (regroup all gs) ≡ has_group key k gs
  has_group-regroup all k [] = refl
  has_group-regroup all k ((j, ms) ∷ gs) =
      ap (λ b. if same_key k j then true else b) (has_group-regroup all k gs)

  OneEach-regroup :
      (all : List A) (gs : List (GroupKey × List A)) → OneEach key gs → OneEach key (regroup all gs)
  OneEach-regroup all [] one = tt
  OneEach-regroup all ((k, ms) ∷ gs) (new, one) =
      (has_group-regroup all k gs ∙ new, OneEach-regroup all gs one)

  regroup_full :
      (all : List A) (gs : List (GroupKey × List A))
      → All (λ g. g.1 ≡ rows_under key g.0 all) (regroup all gs)
  regroup_full all [] = tt
  regroup_full all ((k, ms) ∷ gs) = (refl, regroup_full all gs)

  map-regroup :
      (rs all : List A)
      → ((k : GroupKey) → row (k, rows_under key k rs) ≡ row (k, rows_under key k all))
      → (gs : List (GroupKey × List A)) → All (λ g. g.1 ≡ rows_under key g.0 rs) gs
      → map row gs ≡ map row (regroup all gs)
  map-regroup rs all over [] h = refl
  map-regroup rs all over ((k, ms) ∷ gs) (full, h) =
      ap₂ (λ x xs. x ∷ xs) (ap (λ xs. row (k, xs)) full ∙ over k) (map-regroup rs all over gs h)

  -- The rows of the groups, in any order, are the report on the records in any order.
  pub groups-IsReport :
      ((k : GroupKey) (xs ys : List A) → Permᴰ xs ys → row (k, xs) ≡ row (k, ys))
      → (rs all : List A) (out : List R) → Permᴰ rs all
      → Permᴰ out (map row (group_by key rs))
      → IsReport all out
  groups-IsReport blind rs all out same_rows same_out =
      let g = group_by-IsGrouping key rs in
      let over_all =
        λ (k : GroupKey). blind k _ _ (filter-perm (λ r. same_key (key r) k) rs all same_rows) in
      record {
        groups = regroup all (group_by key rs);
        one_each = OneEach-regroup all (group_by key rs) g.one_each;
        full = regroup_full all (group_by key rs);
        arranged =
            subst (Permᴰ out) (map-regroup rs all over_all (group_by key rs) g.all_rows) same_out;
        sound = λ x m.
            let (grp, n, e) = Mem-of_map x (group_by key rs) (Mem-perm x out _ same_out m) in
            let (r, there, k) = All-member _ (group_by key rs) (group_by-Used rs) n in
            let full = All-member _ (group_by key rs) g.all_rows n in
            (
              r,
              Mem-perm r rs all same_rows there,
              e
                  ∙ ap (λ xs. row (grp.0, xs)) full
                  ∙ over_all grp.0
                  ∙ ap (λ i. row (i, rows_under key i all)) k,
            );
        complete = λ r m.
            let there = Mem-perm r all rs (Permᴰ.symm same_rows) m in
            let found = All-member _ rs g.every_key there in
            subst (λ x. Memᴰ x out) (over_all (key r))
              (Mem-perm _ _ out (Permᴰ.symm same_out)
                (has_group-Mem (key r) rs (group_by key rs) found g.all_rows));
      }

-- A report whose rows say the same.
pub IsReport-says :
    {A R : Type 0} (key : A → GroupKey) (row spec : GroupKey × List A → R)
    → ((g : GroupKey × List A) → row g ≡ spec g)
    → (all : List A) (out : List R) → IsReport key row all out
    → IsReport key spec all out
IsReport-says key row spec says all out h = subst (λ f. IsReport key f all out) (fun_ext says) h
