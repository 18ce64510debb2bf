-- ===== src/Example/Tables.antt =====
-- The rows of all tables as a record of lists.
use mathlib.Core.List.{Memᴰ}
use finance_project.Prelude.{
  String, str_eq, eq_iff, ◌||◌, false, sym, ap, ◌∙◌, ℕ, ◌≡◌, ◌≢◌, refl, Bool, true, not, ◌&&◌, List,
  [], ◌∷◌, contains, Distinct, arith,
}
use finance_project.Models.{
  Table, users, accounts, records, entries, events, outbox, tokens, keys, Row, User, Account,
  FinancialRecord, LedgerEntry, AuditEvent, OutboxEntry, RefreshToken, IdempotencyKey,
}

pub record Tables (D : Type 0) : Type 0 where
  pub user_rows : List User
  pub account_rows : List (Account D)
  pub record_rows : List (FinancialRecord D)
  pub entry_rows : List (LedgerEntry D)
  pub event_rows : List AuditEvent
  pub outbox_rows : List OutboxEntry
  pub token_rows : List RefreshToken
  pub key_rows : List IdempotencyKey

module _ (D : Type 0) where
  abbrev pub get : (t : Table) → Tables D → List (Row D t)
  get users x = x.user_rows
  get accounts x = x.account_rows
  get records x = x.record_rows
  get entries x = x.entry_rows
  get events x = x.event_rows
  get outbox x = x.outbox_rows
  get tokens x = x.token_rows
  get keys x = x.key_rows

  abbrev pub put : (t : Table) → List (Row D t) → Tables D → Tables D
  put users rs x = record x { user_rows = rs }
  put accounts rs x = record x { account_rows = rs }
  put records rs x = record x { record_rows = rs }
  put entries rs x = record x { entry_rows = rs }
  put events rs x = record x { event_rows = rs }
  put outbox rs x = record x { outbox_rows = rs }
  put tokens rs x = record x { token_rows = rs }
  put keys rs x = record x { key_rows = rs }

  pub get-put_self : (t : Table) (rs : List (Row D t)) (x : Tables D) → get t (put t rs x) ≡ rs
  get-put_self users rs x = refl
  get-put_self accounts rs x = refl
  get-put_self records rs x = refl
  get-put_self entries rs x = refl
  get-put_self events rs x = refl
  get-put_self outbox rs x = refl
  get-put_self tokens rs x = refl
  get-put_self keys rs x = refl

  pub get-put_ne :
      (t u : Table) (rs : List (Row D t)) (x : Tables D) → u ≢ t → get u (put t rs x) ≡ get u x
  get-put_ne users users rs x n = absurd (n refl)
  get-put_ne users _ rs x n = refl
  get-put_ne accounts accounts rs x n = absurd (n refl)
  get-put_ne accounts _ rs x n = refl
  get-put_ne records records rs x n = absurd (n refl)
  get-put_ne records _ rs x n = refl
  get-put_ne entries entries rs x n = absurd (n refl)
  get-put_ne entries _ rs x n = refl
  get-put_ne events events rs x n = absurd (n refl)
  get-put_ne events _ rs x n = refl
  get-put_ne outbox outbox rs x n = absurd (n refl)
  get-put_ne outbox _ rs x n = refl
  get-put_ne tokens tokens rs x n = absurd (n refl)
  get-put_ne tokens _ rs x n = refl
  get-put_ne keys keys rs x n = absurd (n refl)
  get-put_ne keys _ rs x n = refl

abbrev pub is_distinct : List ℕ → Bool
is_distinct [] = true
is_distinct (x ∷ xs) = not (contains xs x) && is_distinct xs

pub is_distinct-Distinct : (xs : List ℕ) → is_distinct xs ≡ true → Distinct xs
is_distinct-Distinct [] h = tt
is_distinct-Distinct (x ∷ xs) h = (ground arith, is_distinct-Distinct xs (ground arith))

module _ {A : Type 0} (f : A → String) where
  abbrev pub has_text : String → List A → Bool
  has_text s [] = false
  has_text s (t ∷ ts) = str_eq s (f t) || has_text s ts

  abbrev pub has_distinct_texts : List A → Bool
  has_distinct_texts [] = true
  has_distinct_texts (t ∷ ts) = not (has_text (f t) ts) && has_distinct_texts ts

  member-has_text : (t : A) (ts : List A) → Memᴰ t ts → has_text (f t) ts ≡ true
  member-has_text t [] m = elim m [ ]
  member-has_text t (x ∷ xs) (Memᴰ.head e) = rw ((eq_iff (f t) (f x)).1 (ap f e)) refl
  member-has_text t (x ∷ xs) (Memᴰ.tail m) = ground (arith, member-has_text t xs m)

  -- Distinct texts: a text has one row.
  pub has_distinct_texts-inj :
      (ts : List A) (a b : A)
      → has_distinct_texts ts ≡ true
      → Memᴰ a ts
      → Memᴰ b ts
      → f a ≡ f b
      → a ≡ b
  has_distinct_texts-inj [] a b d m n h = elim m [ ]
  has_distinct_texts-inj (x ∷ xs) a b d (Memᴰ.head p) (Memᴰ.head q) h = p ∙ sym q
  has_distinct_texts-inj (x ∷ xs) a b d (Memᴰ.head p) (Memᴰ.tail n) h =
      let hit : has_text (f x) xs ≡ true = rw (ap f (sym p) ∙ h) (member-has_text b xs n) in
      cc (rw hit at d)
  has_distinct_texts-inj (x ∷ xs) a b d (Memᴰ.tail m) (Memᴰ.head q) h =
      let hit : has_text (f x) xs ≡ true = rw (ap f (sym q) ∙ sym h) (member-has_text a xs m) in
      cc (rw hit at d)
  has_distinct_texts-inj (x ∷ xs) a b d (Memᴰ.tail m) (Memᴰ.tail n) h =
      has_distinct_texts-inj xs a b (ground arith) m n h
