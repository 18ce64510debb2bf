-- ===== src/Ledger/Entries.antt =====
-- What the loop over the entries of a transaction has stored and computed once it is through.
use finance_project.Prelude.{
  String, true, List, [], ◌∷◌, ◌++◌, map, ◌≡◌, ◌≢◌, refl, sym, ap, ◌∙◌, subst, contains, All,
  str_eq, if◌then◌else◌, Bool-cases, inl, inr, arith,
}
use mathlib.Core.List.{append-nil, append_assoc, map-map, map-id}
use finance_project.Models.{Uuid, nil_uuid, Account, LedgerEntry, Table, entries}
use finance_project.Action.{ok, >>=-elim, pure-ok}
use finance_project.Platform.{Platform}
use finance_project.Platform.Database.{in_columns}
use finance_project.Session.{World}
use finance_project.Session.Laws.{create-elim}
use finance_project.Ledger.{
  LedgerEntryRequest, new_entry, require_account, post_entry, post_entries,
}

module _ (P : Platform) where
  -- All entries applied to one account, in order.
  abbrev pub post_all : List (LedgerEntryRequest P.Decimal) → Account P.Decimal → Account P.Decimal
  post_all [] a = a
  post_all (e ∷ es) a = post_all es (post_entry P e a)

  -- The rows stand for the requested entries, one each and in order, under ids of their own.
  abbrev pub Stores :
      Uuid → String → List (LedgerEntryRequest P.Decimal) → List (LedgerEntry P.Decimal) → Type 0
  Stores tid description [] [] = Unit
  Stores tid description [] (s ∷ ss) = ⊥
  Stores tid description (e ∷ es) [] = ⊥
  Stores tid description (e ∷ es) (s ∷ ss) =
      (s ≡ record {
        id = s.id;
        transaction_id = tid;
        account_id = e.account_id;
        entry_type = e.entry_type;
        amount = e.amount;
        currency = if str_eq e.currency "" then "INR" else e.currency;
        description = description;
      })
      × (s.id ≢ nil_uuid)
      × Stores tid description es ss

  -- What the loop has done between the databases `d` and `e`.
  pub record EntriesPosted (tid : Uuid) (description : String)
      (es : List (LedgerEntryRequest P.Decimal)) (created : List (LedgerEntry P.Decimal))
      (found : List (Account P.Decimal))
      (outcome : List (LedgerEntry P.Decimal) × List (Account P.Decimal)) (d e : P.Db)
      : Type 0 where
    pub stored : List (LedgerEntry P.Decimal)
    pub is_stored : Stores tid description es stored
    pub returned : outcome.0 ≡ created ++ stored
    pub moved : outcome.1 ≡ map (post_all es) found
    pub known : All (λ r. contains (map (λ a. a.id) found) r.account_id ≡ true) es
    pub entry_rows :
        P.rows entries e ≡ P.rows entries d ++ map (in_columns P.Decimal P.round entries) stored
    pub others : (t : Table) → t ≢ entries → P.rows t e ≡ P.rows t d

  pub ids-post_entry :
      (e : LedgerEntryRequest P.Decimal) (found : List (Account P.Decimal))
      → map (λ a. a.id) (map (post_entry P e) found) ≡ map (λ a. a.id) found
  ids-post_entry e [] = refl
  ids-post_entry e (a ∷ found) = ground (arith, ids-post_entry e found)

  require_account-ok :
      (found : List (Account P.Decimal)) (id : Uuid) (w : World P) {u : World P} {x : Unit {0}}
      → require_account P found id w ≡ (ok x, u)
      → (contains (map (λ a. a.id) found) id ≡ true) × (w ≡ u)
  require_account-ok found id w h = elim (Bool-cases (contains (map (λ a. a.id) found) id)) [
    | inl known ↦ (known, (pure-ok (rw known at h)).1)
    | inr unknown ↦ cc (ap (λ p. p.0) (rw unknown at h))
  ]

  pub post_entries-EntriesPosted :
      (tid : Uuid) (description : String) (es : List (LedgerEntryRequest P.Decimal))
      (created : List (LedgerEntry P.Decimal)) (found : List (Account P.Decimal)) (w : World P)
      {u : World P} {outcome : List (LedgerEntry P.Decimal) × List (Account P.Decimal)}
      → post_entries P tid description es created found w ≡ (ok outcome, u)
      → EntriesPosted tid description es created found outcome w.db u.db
  unfolding post_entries
  post_entries-EntriesPosted tid description [] created found w h =
      let (same, to_u) = pure-ok h in
      record {
        stored = [];
        is_stored = tt;
        returned = sym (ap (λ o. o.0) same) ∙ sym (append-nil created);
        moved = sym (ap (λ o. o.1) same) ∙ sym (map-id found);
        known = tt;
        entry_rows = ap (λ v. P.rows entries v.db) (sym to_u) ∙ sym (append-nil _);
        others = λ t _. ap (λ v. P.rows t v.db) (sym to_u);
      }
  post_entries-EntriesPosted tid description (e ∷ es) created found w {u} h =
      >>=-elim _ _ w h λ entry w₁ row_in rest.
        create-elim P entries _ nil_uuid _ w row_in λ id is_entry fresh _ entry_row others.
          >>=-elim _ _ w₁ rest λ _ w₂ checked rest'.
            let (known, to_w₂) = require_account-ok found e.account_id w₁ checked in
            let later =
              post_entries-EntriesPosted tid description es (created ++ entry ∷ [])
                (map (post_entry P e) found) w₂ rest' in
            record {
              stored = entry ∷ later.stored;
              is_stored = (
                subst (λ r. r ≡ record (new_entry P tid description e) { id = r.id }) is_entry refl,
                subst (λ r. r.id ≢ nil_uuid) is_entry fresh,
                later.is_stored,
              );
              returned = later.returned ∙ append_assoc created (entry ∷ []) later.stored;
              moved = later.moved ∙ map-map _ _ found;
              known = (
                known,
                subst (λ ids. All (λ r. contains ids r.account_id ≡ true) es)
                    (ids-post_entry e found) later.known,
              );
              entry_rows =
                  later.entry_rows
                  ∙ ap (λ rs. rs ++ map (in_columns P.Decimal P.round entries) later.stored)
                      (ap (λ v. P.rows entries v.db) (sym to_w₂) ∙ entry_row)
                  ∙ append_assoc _ (in_columns P.Decimal P.round entries entry ∷ [])
                      (map (in_columns P.Decimal P.round entries) later.stored);
              others = λ t n. later.others t n ∙ ap (λ v. P.rows t v.db) (sym to_w₂) ∙ others t n;
            }
