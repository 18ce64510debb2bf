-- ===== src/Example/Accepting.antt =====
-- The database in memory accepts every update that retires a token.
use finance_project.Prelude.{
  ℕ, ℤ, String, ◌≡◌, ◌≢◌, refl, Bool, true, false, List, [], ◌∷◌, Bool-cases, inl, inr, ◌==◌,
}
use finance_project.Models.{Uuid, RefreshToken, tokens, outbox}
use finance_project.Platform.Reply.{done, failed}
use finance_project.Outbox.{publish_at}
use finance_project.Outbox.Liveness.{AcceptsMarks}
use finance_project.Platform.Database.{update_where}
use finance_project.Tokens.{replace_by}
use finance_project.Example.Machine.{machine}
use finance_project.Example.Tables.{Tables, put, has_text, has_distinct_texts}
use finance_project.Example.Memory.{MemoryDb, both, rows_of, is_keyed, store_if, update_rows_of}

-- An update that keeps a text of each row keeps the texts distinct.
module _ {A : Type 0} (text : A → String) (p : A → Bool) (f : A → A)
    (keep : (a : A) → text (f a) ≡ text a) where
  update-has_text :
      (s : String) (rs : List A) → has_text text s (update_where p f rs) ≡ has_text text s rs
  update-has_text s [] = refl
  update-has_text s (r ∷ rs) = elim (Bool-cases (p r)) [
    | inl hit ↦ rw (hit, keep r, update-has_text s rs) refl
    | inr miss ↦ rw (miss, update-has_text s rs) refl
  ]

  pub update-has_distinct_texts :
      (rs : List A) → has_distinct_texts text (update_where p f rs) ≡ has_distinct_texts text rs
  update-has_distinct_texts [] = refl
  update-has_distinct_texts (r ∷ rs) = elim (Bool-cases (p r)) [
    | inl hit ↦ rw (hit, keep r, update-has_text (text r) rs, update-has_distinct_texts rs) refl
    | inr miss ↦ rw (miss, update-has_text (text r) rs, update-has_distinct_texts rs) refl
  ]

store_if-ne-failed :
    (x : Tables ℤ) (b : Bool) (e : is_keyed x ≡ b) (c : String)
    → b ≡ true
    → store_if x b e ≢ failed c
store_if-ne-failed x true e c k h = cc
store_if-ne-failed x false e c k h = cc

pub retiring_accepted :
    (p : RefreshToken → Bool) (now : ℕ) (id : Uuid) (d : MemoryDb) (c : String)
    → update_rows_of tokens p (replace_by now id) d ≢ failed c
retiring_accepted p now id d c =
    store_if-ne-failed
      (put ℤ tokens (update_where (both ℤ tokens p) (replace_by now id) (rows_of tokens d))
        d.tables)
      _ refl c
      (rw
        (update-has_distinct_texts (λ t. t.token_hash) (both ℤ tokens p) (replace_by now id)
          (λ t. refl) d.tables.token_rows)
        d.keyed)

store_if-accepted :
    (x : Tables ℤ) (b : Bool) (e : is_keyed x ≡ b)
    → b ≡ true
    → (d : MemoryDb) × (store_if x b e ≡ done d)
store_if-accepted x true e k = (record { tables = x; keyed = e }, refl)
store_if-accepted x false e k = cc

-- The database in memory accepts that entries are marked, which touches no key.
pub machine-AcceptsMarks : AcceptsMarks machine
machine-AcceptsMarks x now d =
    store_if-accepted
      (put ℤ outbox
        (update_where (both ℤ outbox (λ r. r.id == x.id)) (publish_at now) (rows_of outbox d))
        d.tables)
      _ refl d.keyed
