-- ===== src/Example/Assign.antt =====
-- Updates with a map, on the columns that the laws speak of.
use finance_project.Prelude.{ℤ, String, ◌≡◌, refl, Option, none, some, str_eq, if◌then◌else◌}
use finance_project.Models.{Table, Row, users, records}
use finance_project.Platform.Updates.{Value, text, decimal, Updates, lookup, Columns}

abbrev pub text_or : Option (Value ℤ) → String → String
text_or (some (text s)) old = s
text_or _ old = old

abbrev pub decimal_or : Option (Value ℤ) → ℤ → ℤ
decimal_or (some (decimal x)) old = x
decimal_or _ old = old

-- The value under the name in Go, and else the one under the column.
abbrev pub either_key : Option (Value ℤ) → Option (Value ℤ) → Option (Value ℤ)
either_key (some v) column = some v
either_key none column = column

abbrev pub named : String → String → Updates ℤ → Option (Value ℤ)
named column name m = either_key (lookup name m) (lookup column m)

abbrev pub assign_row : (t : Table) → Updates ℤ → Row ℤ t → Row ℤ t
assign_row users m r = record r {
  role = text_or (named "role" "Role" m) r.role;
  password = text_or (named "password" "Password" m) r.password;
}
assign_row records m r = record r {
  amount = decimal_or (named "amount" "Amount" m) r.amount;
  record_type = text_or (named "type" "Type" m) r.record_type;
  currency = text_or (named "currency" "Currency" m) r.currency;
}
assign_row _ m r = r

pub named_column :
    (column name : String) (m : Updates ℤ) (o : Option (Value ℤ))
    → lookup column m ≡ o
    → lookup name m ≡ none
    → named column name m ≡ o
named_column column name m o h k = rw (k, h) refl

pub text_or_named :
    (column name old s : String) (m : Updates ℤ)
    → lookup column m ≡ some (text s)
    → lookup name m ≡ none
    → text_or (named column name m) old ≡ s
text_or_named column name old s m h k = rw (named_column column name m (some (text s)) h k) refl

pub text_or-none :
    (column name old : String) (m : Updates ℤ)
    → lookup column m ≡ none
    → lookup name m ≡ none
    → text_or (named column name m) old ≡ old
text_or-none column name old m h k = rw (named_column column name m none h k) refl

pub decimal_or_named :
    (column name : String) (old x : ℤ) (m : Updates ℤ)
    → lookup column m ≡ some (decimal x)
    → lookup name m ≡ none
    → decimal_or (named column name m) old ≡ x
decimal_or_named column name old x m h k =
    rw (named_column column name m (some (decimal x)) h k) refl

pub decimal_or-none :
    (column name : String) (old : ℤ) (m : Updates ℤ)
    → lookup column m ≡ none
    → lookup name m ≡ none
    → decimal_or (named column name m) old ≡ old
decimal_or-none column name old m h k = rw (named_column column name m none h k) refl

-- The column that a key names.
abbrev pub column_of : Table → String → String
column_of t k =
    if str_eq k "Amount"
    then "amount"
    else if str_eq k "Type"
    then "type"
    else if str_eq k "Currency"
    then "currency"
    else if str_eq k "Role"
    then "role"
    else if str_eq k "Password"
    then "password"
    else k

abbrev pub columns_in_memory : Columns ℤ
columns_in_memory = record {
  assign = assign_row;
  field_of = column_of;
  field_of_amount = refl;
  field_of_type = refl;
  field_of_currency = refl;
  field_of_role = refl;
  field_of_password = refl;
  assign_amount =
      λ m r x h only. decimal_or_named "amount" "Amount" r.amount x m h (only "Amount" refl refl);
  keep_amount =
      λ m r h only. decimal_or-none "amount" "Amount" r.amount m h (only "Amount" refl refl);
  assign_type =
      λ m r s h only. text_or_named "type" "Type" r.record_type s m h (only "Type" refl refl);
  keep_type = λ m r h only. text_or-none "type" "Type" r.record_type m h (only "Type" refl refl);
  assign_currency = λ m r s h only.
      text_or_named "currency" "Currency" r.currency s m h (only "Currency" refl refl);
  keep_currency =
      λ m r h only. text_or-none "currency" "Currency" r.currency m h (only "Currency" refl refl);
  assign_role = λ m r s h only. text_or_named "role" "Role" r.role s m h (only "Role" refl refl);
  keep_role = λ m r h only. text_or-none "role" "Role" r.role m h (only "Role" refl refl);
  keep_password =
      λ m r h only. text_or-none "password" "Password" r.password m h (only "Password" refl refl);
}
