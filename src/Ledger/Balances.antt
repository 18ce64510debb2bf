-- ===== src/Ledger/Balances.antt =====
-- The balances that a transaction stores: those of the entries applied in memory.
use finance_project.Prelude.{
  ℕ, true, false, List, [], ◌∷◌, ◌++◌, map, ◌≡◌, ◌≢◌, refl, sym, ap, ◌∙◌, ◌&&◌, inl, inr,
  if◌then◌else◌, contains, All, Distinct, contains-append, contains-map_of_Memᴰ, Distinct-inj,
  All-imp, map_congr, Bool-cases, arith, ◌==◌, ==_iff,
}
use mathlib.Core.List.{map-map, map-id, Memᴰ}
use finance_project.Models.{Account, Table, accounts}
use finance_project.Action.{ok, >>=-elim, pure-ok}
use finance_project.Platform.{Platform}
use finance_project.Platform.Database.{in_columns}
use finance_project.Session.{World}
use finance_project.Session.Laws.{update-ok}
use finance_project.Ledger.{LedgerEntryRequest, account_ids, set_balance, persist_balances}
use finance_project.Ledger.Entries.{post_all}
use finance_project.Ledger.Applied.{
  IsExact, post_all_balance, post_all-id, post_all-IsExact, rows-IsExact,
}

module _ (P : Platform) where
  -- What the loop over `accountMap` does to one row.
  abbrev stored_balance : List (Account P.Decimal) → Account P.Decimal → Account P.Decimal
  stored_balance [] r = r
  stored_balance (a ∷ more) r =
      stored_balance more (if true && (r.id == a.id) then set_balance P a r else r)

  set_balance_exact :
      (a : Account P.Decimal)
      → IsExact P a.balance
      → (r : Account P.Decimal)
      → in_columns P.Decimal P.round accounts (set_balance P a r) ≡ set_balance P a r
  set_balance_exact a exact r = ap (λ b. record r { balance = b }) exact

  persist_balances-others :
      (posted : List (Account P.Decimal)) (w : World P) {u : World P} {x : Unit {0}}
      → persist_balances P posted w ≡ (ok x, u)
      → (t : Table) → t ≢ accounts
      → P.rows t u.db ≡ P.rows t w.db
  unfolding persist_balances
  persist_balances-others [] w h t _ = ap (λ v. P.rows t v.db) (sym (pure-ok h).1)
  persist_balances-others (a ∷ more) w h t n = >>=-elim _ _ w h λ _ w₁ updated rest.
      persist_balances-others more w₁ rest t n
      ∙ (update-ok P _ accounts _ (set_balance P a) w updated).1 t n

  persist_balances-rows :
      (posted : List (Account P.Decimal))
      → All (λ a. IsExact P a.balance) posted
      → (w : World P) {u : World P} {x : Unit {0}} → persist_balances P posted w ≡ (ok x, u)
      → P.rows accounts u.db ≡ map (stored_balance posted) (P.rows accounts w.db)
  unfolding persist_balances
  persist_balances-rows [] _ w h =
      ap (λ v. P.rows accounts v.db) (sym (pure-ok h).1) ∙ sym (map-id _)
  persist_balances-rows (a ∷ more) (exact, exact_more) w h = >>=-elim _ _ w h λ _ w₁ updated rest.
      let same =
        map_congr
          (λ r.
            if true && (r.id == a.id)
            then in_columns P.Decimal P.round accounts (set_balance P a r)
            else r)
          (λ r. if true && (r.id == a.id) then set_balance P a r else r) (P.rows accounts w.db)
          λ r _. ap (λ s. if true && (r.id == a.id) then s else r) (set_balance_exact a exact r) in
      persist_balances-rows more exact_more w₁ rest
      ∙ ap (map (stored_balance more))
          ((update-ok P _ accounts _ (set_balance P a) w updated).0 ∙ same)
      ∙ map-map _ _ _

  -- Storing the balance that the entries give a row is applying them to it, once or again.
  set_balance_once :
      (es : List (LedgerEntryRequest P.Decimal)) (r : Account P.Decimal)
      → set_balance P (post_all P es r) r ≡ post_all P es r
  set_balance_once es r = sym (post_all_balance P es r)

  module _ (es : List (LedgerEntryRequest P.Decimal)) (r : Account P.Decimal) where
    -- Of the accounts in memory, only the row itself has its id.
    abbrev IsOwn : List (Account P.Decimal) → Type 0
    IsOwn = All (λ a. a.id ≡ r.id → a ≡ r)

    same_row :
        (a : Account P.Decimal)
        → (a.id ≡ r.id → a ≡ r)
        → (r.id == (post_all P es a).id) ≡ true
        → a ≡ r
    same_row a own hit = own (sym ((==_iff r.id _).0 hit ∙ post_all-id P es a))

    step_again :
        (a : Account P.Decimal)
        → (a.id ≡ r.id → a ≡ r)
        → (if true && ((post_all P es r).id == (post_all P es a).id)
            then set_balance P (post_all P es a) (post_all P es r)
            else post_all P es r)
          ≡ post_all P es r
    step_again a own = elim (Bool-cases ((post_all P es r).id == (post_all P es a).id)) [
      | inl hit ↦ rw hit (
          ap (λ b. set_balance P (post_all P es b) (post_all P es r))
            (own (
              sym (
                sym (post_all-id P es r)
                ∙ (==_iff (post_all P es r).id _).0 hit
                ∙ post_all-id P es a))))
      | inr miss ↦ rw miss refl
    ]

    stored_balance_again :
        (found : List (Account P.Decimal))
        → IsOwn found
        → stored_balance (map (post_all P es) found) (post_all P es r) ≡ post_all P es r
    stored_balance_again [] own = refl
    stored_balance_again (a ∷ found) (own, rest) =
        ap (stored_balance (map (post_all P es) found)) (step_again a own)
        ∙ stored_balance_again found rest

    step_miss :
        (a : Account P.Decimal)
        → (r.id == a.id) ≡ false
        → (if true && (r.id == (post_all P es a).id) then set_balance P (post_all P es a) r else r)
          ≡ r
    step_miss a miss = rw (post_all-id P es a, miss) refl

    stored_balance_hit :
        (found : List (Account P.Decimal))
        → IsOwn found
        → contains (map (λ a. a.id) found) r.id ≡ true
        → stored_balance (map (post_all P es) found) r ≡ post_all P es r
    stored_balance_hit [] own h = cc
    stored_balance_hit (a ∷ found) (own, rest) h = elim (Bool-cases (r.id == a.id)) [
      | inl hit ↦
          let is_r : a ≡ r = own (sym ((==_iff r.id a.id).0 hit)) in
          ap (stored_balance (map (post_all P es) found)) (
            rw (post_all-id P es a, hit)
              (ap (λ b. set_balance P (post_all P es b) r) is_r ∙ set_balance_once es r))
          ∙ stored_balance_again found rest
      | inr miss ↦
          ap (stored_balance (map (post_all P es) found)) (step_miss a miss)
          ∙ stored_balance_hit found rest (rw miss at h)
    ]

    -- A row that no account in memory shares its id with keeps its balance.
    stored_balance_miss :
        (found : List (Account P.Decimal))
        → contains (map (λ a. a.id) found) r.id ≡ false
        → stored_balance (map (post_all P es) found) r ≡ r
    stored_balance_miss [] h = refl
    stored_balance_miss (a ∷ found) h =
        let miss : (r.id == a.id) ≡ false = ground arith in
        ap (stored_balance (map (post_all P es) found)) (step_miss a miss)
        ∙ stored_balance_miss found (rw miss at h)

  post_all_miss :
      (es : List (LedgerEntryRequest P.Decimal)) (r : Account P.Decimal)
      → All (λ e. (r.id == e.account_id) ≡ false) es
      → post_all P es r ≡ r
  post_all_miss [] r h = refl
  post_all_miss (e ∷ es) r (miss, h) = ap (post_all P es) (rw miss refl) ∙ post_all_miss es r h

  -- An id that the collection has missed is the id of no entry.
  account_ids_miss :
      (es : List (LedgerEntryRequest P.Decimal)) (seen : List ℕ) (x : ℕ)
      → contains (account_ids seen es) x ≡ false
      → (contains seen x ≡ false) × All (λ e. (x == e.account_id) ≡ false) es
  account_ids_miss [] seen x h = (h, tt)
  account_ids_miss (e ∷ es) seen x h =
      let more : List ℕ = if contains seen e.account_id then seen else seen ++ e.account_id ∷ [] in
      let (a, b) = account_ids_miss es more x h in
      let (p, q) = added_miss seen e.account_id x a in (p, (q, b))
    where
      added_miss :
          (seen : List ℕ) (id x : ℕ)
          → contains (if contains seen id then seen else seen ++ id ∷ []) x ≡ false
          → (contains seen x ≡ false) × ((x == id) ≡ false)
      added_miss seen id x h = ground (arith, contains-append seen id x)

  -- With the accounts that the locking query has found, storing the balances applies the entries
  -- to every row.
  stored_balance-post_all :
      (es : List (LedgerEntryRequest P.Decimal)) (found rs : List (Account P.Decimal))
      → Distinct (map (λ a. a.id) rs)
      → All (λ a. Memᴰ a rs) found
      → ((r : Account P.Decimal)
          → Memᴰ r rs
          → contains (account_ids [] es) r.id ≡ true
          → Memᴰ r found)
      → (r : Account P.Decimal) → Memᴰ r rs
      → stored_balance (map (post_all P es) found) r ≡ post_all P es r
  stored_balance-post_all es found rs distinct sound complete r m =
      elim (Bool-cases (contains (map (λ a. a.id) found) r.id)) [
        | inl hit ↦
            stored_balance_hit es r found
              (All-imp found (λ a n same. Distinct-inj (λ b. b.id) a r rs distinct n m same) sound)
              hit
        | inr miss ↦
            let unlisted : contains (account_ids [] es) r.id ≡ false =
              elim (Bool-cases (contains (account_ids [] es) r.id)) [
                | inl listed ↦
                    cc (contains-map_of_Memᴰ (λ a. a.id) r found (complete r m listed), miss)
                | inr no_entry ↦ no_entry
              ] in
            stored_balance_miss es r found miss
            ∙ sym (post_all_miss es r (account_ids_miss es [] r.id unlisted).1)
      ]

  -- The stored balances are those of all rows with the entries applied, if the amounts are exact.
  pub persist_balances-post_all :
      (es : List (LedgerEntryRequest P.Decimal)) (found : List (Account P.Decimal)) (w : World P)
      {u : World P} {x : Unit {0}}
      → All (λ a. Memᴰ a (P.rows accounts w.db)) found
      → ((r : Account P.Decimal)
          → Memᴰ r (P.rows accounts w.db)
          → contains (account_ids [] es) r.id ≡ true
          → Memᴰ r found)
      → persist_balances P (map (post_all P es) found) w ≡ (ok x, u)
      → (All (λ e. IsExact P e.amount) es
          → P.rows accounts u.db ≡ map (post_all P es) (P.rows accounts w.db))
        × ((t : Table) → t ≢ accounts → P.rows t u.db ≡ P.rows t w.db)
  persist_balances-post_all es found w sound complete h = (
    λ exact.
        persist_balances-rows (map (post_all P es) found)
          (post_all-IsExact P es found exact (rows-IsExact P w.db found sound)) w h
        ∙ map_congr _ _ (P.rows accounts w.db) (
            stored_balance-post_all es found (P.rows accounts w.db) (P.accounts_distinct w.db) sound
              complete),
    persist_balances-others (map (post_all P es) found) w h,
  )
