-- ===== src/Records/Listing.antt =====
-- What `GetRecords` lists.
use finance_project.Prelude.{
  take, drop, All, ℕ, ℤ, ◌≤◌, String, Bool, Option, none, some, List, length, ◌≡◌, ◌⊎◌, inl, inr,
  refl, ap, ◌∙◌, arith, Option-cases,
}
use finance_project.Models.{Uuid, FinancialRecord, records}
use finance_project.Action.{ok}
use finance_project.Platform.{Platform}
use mathlib.Core.List.{Memᴰ}
use mathlib.Core.List.Permᴰ
use finance_project.Platform.Reply.{done}
use finance_project.Session.{World}
use finance_project.Session.Laws.{Reply-cases}
use finance_project.Pages.{page_number, page_length}
use finance_project.Pages.Bounds.{IsPage, find_page-IsPage, find_page_unread, page_length_bounds}
use finance_project.Records.{
  RecordFilters, present, record_matches, owner_condition, record_condition, get_records,
}
use finance_project.Records.Filters.{Matches}

module _ (P : Platform) where
  -- The owner that the filters ask for, if they do.
  abbrev pub IsOwnerAsked : RecordFilters → Option Uuid → Type 0
  IsOwnerAsked f owner =
      ((present f.user_id ≡ none) × (owner ≡ none))
      ⊎ ((s : String) × (id : Uuid) × (present f.user_id ≡ some s)
          × (P.uuid_input s ≡ some id)
          × (owner ≡ some id))

  owned :
      (f : RecordFilters) (s : String) (o : Option Uuid) (p : FinancialRecord P.Decimal → Bool)
      → present f.user_id ≡ some s
      → P.uuid_input s ≡ o
      → owner_condition P f o ≡ done p
      → (owner : Option Uuid) × (p ≡ record_matches P f owner) × IsOwnerAsked f owner
  owned f s none p given e h = cc
  owned f s (some id) p given e h = (some id, cc, inr (s, id, given, e, refl))

  record_condition-done :
      (f : RecordFilters) (p : FinancialRecord P.Decimal → Bool)
      → record_condition P f ≡ done p
      → (owner : Option Uuid) × (p ≡ record_matches P f owner) × IsOwnerAsked f owner
  record_condition-done f p h = elim (Option-cases (present f.user_id)) [
    | inl absent ↦
        let e : done (record_matches P f none) ≡ done p = rw (absent, record_condition) at h in
        (none, cc, inl (absent, refl))
    | inr (s, given) ↦ owned f s (P.uuid_input s) p given refl (rw (given, record_condition) at h)
  ]

  -- The page and the total are those of the condition of the query.
  pub get_records-IsPage :
      (f : RecordFilters) (page size : ℤ) (w : World P) {u : World P}
      {rs : List (FinancialRecord P.Decimal)} {total : ℕ}
      → get_records P f page size w ≡ (ok (rs, total), u)
      → (owner : Option Uuid) × IsOwnerAsked f owner
        × IsPage P records
            (record_matches P f owner)
            (page_number page)
            (page_length 10 size)
            w.db
            rs
            total
        × (length rs ≤ 100)
  unfolding get_records
  get_records-IsPage f page size w {u} {rs} {total} h = elim (Reply-cases (record_condition P f)) [
    | inr (cause, e) ↦ absurd (find_page_unread P records cause _ _ _ _ _ w (rw e at h))
    | inl (p, e) ↦
        let (owner, is_match, asked) = record_condition-done f p e in
        let is_page = find_page-IsPage P records _ _ _ _ _ _ w (rw (e ∙ ap done is_match) at h) in
        let (_, high) = page_length_bounds 10 size (omega arith) (omega arith) in
        (owner, asked, is_page, omega (arith, is_page.short, high))
  ]

  -- The rows are a page of the records that are asked for, from a place on, and the total is their
  -- number.
  pub record IsListed (f : RecordFilters) (place size : ℕ) (d : P.Db)
      (rs : List (FinancialRecord P.Decimal)) (total : ℕ) : Type 0 where
    pub owner : Option Uuid
    pub asked : IsOwnerAsked f owner
    pub all : List (FinancialRecord P.Decimal)
    pub sound :
        All (λ r. Memᴰ r (P.rows records d) × (r.deleted_at ≡ none) × Matches P f owner r) all
    pub complete :
        (r : FinancialRecord P.Decimal)
        → Memᴰ r (P.rows records d)
        → r.deleted_at ≡ none
        → Matches P f owner r
        → Memᴰ r all
    pub counted : total ≡ length all
    pub slice : rs ≡ take size (drop place all)
