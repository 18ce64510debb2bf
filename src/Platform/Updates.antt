-- ===== src/Platform/Updates.antt =====
-- A JSON object that gives the new values of some fields, and gorm's `Updates` with such a map.
pub mod Lookup
use finance_project.Prelude.{
  String, ◌≡◌, Bool, false, Option, none, some, List, [], ◌∷◌, str_eq, if◌then◌else◌,
}
use finance_project.Models.{Table, Row, users, records}

-- What `interface{}` holds after `json.Unmarshal`, and a decimal that the code puts in.
pub data Value (D : Type 0) : Type 0 where
  text : String → Value D
  number : String → Value D
  decimal : D → Value D
  flag : Bool → Value D
  null : Value D
  compound : Value D

abbrev pub Updates : Type 0 → Type 0
Updates D = List (String × Value D)

module _ {A : Type 0} where
  abbrev pub lookup : String → List (String × A) → Option A
  lookup k [] = none
  lookup k ((k', v) ∷ m) = if str_eq k k' then some v else lookup k m

  -- `delete(m, k)`
  abbrev pub without : String → List (String × A) → List (String × A)
  without k [] = []
  without k ((k', v) ∷ m) = if str_eq k k' then without k m else (k', v) ∷ without k m

  -- `m[k] = v`
  abbrev pub with_value : String → A → List (String × A) → List (String × A)
  with_value k v m = (k, v) ∷ without k m

-- No other key than its own name gives a column a value, where `field` is the column that a key names.
abbrev pub OnlyUnder : {D : Type 0} → (String → String) → String → Updates D → Type 0
OnlyUnder field column m =
    (k : String) → str_eq k column ≡ false → field k ≡ column → lookup k m ≡ none

-- gorm finds the field that a key names by its column, by its name in Go, or by the column that its
-- naming strategy makes of the key.
pub record Columns (D : Type 0) : Type 0 where
  pub assign : (t : Table) → Updates D → Row D t → Row D t
  -- the column of the field that a key names, or the key
  pub field_of : Table → String → String
  pub field_of_amount : field_of records "amount" ≡ "amount"
  pub field_of_type : field_of records "type" ≡ "type"
  pub field_of_currency : field_of records "currency" ≡ "currency"
  pub field_of_role : field_of users "role" ≡ "role"
  pub field_of_password : field_of users "password" ≡ "password"
  pub assign_amount :
      (m : Updates D) (r : Row D records) (x : D)
      → lookup "amount" m ≡ some (decimal x)
      → OnlyUnder (field_of records) "amount" m
      → (assign records m r).amount ≡ x
  pub keep_amount :
      (m : Updates D) (r : Row D records)
      → lookup "amount" m ≡ none
      → OnlyUnder (field_of records) "amount" m
      → (assign records m r).amount ≡ r.amount
  pub assign_type :
      (m : Updates D) (r : Row D records) (s : String)
      → lookup "type" m ≡ some (text s)
      → OnlyUnder (field_of records) "type" m
      → (assign records m r).record_type ≡ s
  pub keep_type :
      (m : Updates D) (r : Row D records)
      → lookup "type" m ≡ none
      → OnlyUnder (field_of records) "type" m
      → (assign records m r).record_type ≡ r.record_type
  pub assign_currency :
      (m : Updates D) (r : Row D records) (s : String)
      → lookup "currency" m ≡ some (text s)
      → OnlyUnder (field_of records) "currency" m
      → (assign records m r).currency ≡ s
  pub keep_currency :
      (m : Updates D) (r : Row D records)
      → lookup "currency" m ≡ none
      → OnlyUnder (field_of records) "currency" m
      → (assign records m r).currency ≡ r.currency
  pub assign_role :
      (m : Updates D) (r : Row D users) (s : String)
      → lookup "role" m ≡ some (text s)
      → OnlyUnder (field_of users) "role" m
      → (assign users m r).role ≡ s
  pub keep_role :
      (m : Updates D) (r : Row D users)
      → lookup "role" m ≡ none
      → OnlyUnder (field_of users) "role" m
      → (assign users m r).role ≡ r.role
  pub keep_password :
      (m : Updates D) (r : Row D users)
      → lookup "password" m ≡ none
      → OnlyUnder (field_of users) "password" m
      → (assign users m r).password ≡ r.password
