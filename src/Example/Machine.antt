-- ===== src/Example/Machine.antt =====
-- The platform of the examples: time and UUIDs count up, a UUID is written in unary, hashes and
-- tokens keep their text, and every statement of the database succeeds if the account keys stay
-- distinct.
use finance_project.Prelude.{
  length, filter, str_eq, eq_iff, sym, String, ltb, if◌then◌else◌, true, ℤ, ℕ, suc, ◌≡◌, refl, ap,
  some, arith, subst,
}
use mathlib.Core.List.{Permᴰ}
use mathlib.Core.List.Permᴰ
use finance_project.Platform.{Platform}
use finance_project.Platform.Reply.{Reply, done}
use finance_project.Platform.Runtime.{Host}
use finance_project.Platform.Database.{Gorm}
use finance_project.Example.Int.{integers}
use finance_project.Example.Tables.{is_distinct, is_distinct-Distinct, has_distinct_texts-inj}
use finance_project.Example.Unary.{unary, count_marks, count_marks-unary}
use finance_project.Example.Signing.{sign, parse, parse-sign}
use finance_project.Example.Assign.{columns_in_memory}
use finance_project.Example.Memory.{
  MemoryDb, account_keys, record_keys, has_distinct_hashes, has_distinct_keys, update_map_of,
  delete_rows_of, page_of, page_of_rows, All-fits, both, rows_of, select_rows, first_row,
  insert_row, update_rows_of, write_rows, write_others, select_rows_sound, select_rows_complete,
  first_row-none, first_row-some, kept,
}

-- A token holds no date after 100.
abbrev pub up_to_100 : ℕ → ℕ
up_to_100 t = if ltb t 100 then t else 100

pub up_to_100_idempotent : (t : ℕ) → up_to_100 (up_to_100 t) ≡ up_to_100 t
up_to_100_idempotent t = ground arith

pub matches_itself :
    (i : ℕ) (password hash : String)
    → ◌≡◌ {A = Reply String} (done password) (done hash)
    → str_eq hash password ≡ true
matches_itself i password hash h =
    let same : password ≡ hash = cc in (eq_iff hash password).1 (sym same)

abbrev pub machine_host : Host ℤ
machine_host = record {
  time_now = λ i. i;
  new_uuid = λ i. suc i;
  new_uuid-ne-nil = λ i. omega arith;
  new_uuid_distinct = λ i j n h. n (omega arith);
  uuid_string = unary;
  parse_uuid = λ s. some (count_marks s);
  uuid_input = λ s. some (count_marks s);
  uuid_input-uuid_string = λ u. ap some (count_marks-unary u);
  parse_uuid-uuid_string = λ u. ap some (count_marks-unary u);
  to_char_month = unary;
  marshal_event = λ e. done e.entity_id;
  marshal_changes = λ c. done "changes";
  bcrypt_hash = λ i password. done password;
  bcrypt_matches = str_eq;
  bcrypt_matches-bcrypt_hash = matches_itself;
  rand_read = λ i. done (unary i);
  hex_encode = λ s. s;
  sha256_sum = λ s. s;
  numeric_date = up_to_100;
  numeric_date_idempotent = up_to_100_idempotent;
  sign_claims = sign;
  parse_claims = parse;
  parse_claims-sign_claims = λ c secret token key now _ _. parse-sign c secret token key now;
}

pub distinct_ids : (d : MemoryDb) → is_distinct (account_keys d.tables) ≡ true
distinct_ids d = ground (arith, d.keyed)

pub distinct_records : (d : MemoryDb) → is_distinct (record_keys d.tables) ≡ true
distinct_records d = ground (arith, d.keyed)

pub distinct_hashes : (d : MemoryDb) → has_distinct_hashes d.tables ≡ true
distinct_hashes d = ground (arith, d.keyed)

pub distinct_keys : (d : MemoryDb) → has_distinct_keys d.tables ≡ true
distinct_keys d = ground (arith, d.keyed)

abbrev pub machine_gorm : Gorm ℤ (λ a. a)
machine_gorm = record {
  Db = MemoryDb;
  rows = rows_of;
  begin = done;
  commit = done;
  rollback = λ d e. d;
  insert = insert_row;
  select = select_rows;
  first = first_row;
  update = update_rows_of;
  order_by = λ clause rs. rs;
  order_by_rows = λ clause rs. Permᴰ.refl rs;
  select_rows = λ t p d rs h.
      subst (λ xs. Permᴰ xs (filter (both ℤ t p) (rows_of t d))) (cc)
        (Permᴰ.refl (filter (both ℤ t p) (rows_of t d)));
  begin_rows = kept;
  commit_rows = kept;
  rollback_rows = λ t d e. refl;
  insert_rows = λ t r d e h. write_rows t _ d e h;
  insert_others = λ t u r d e n h. write_others t u _ d e n h;
  select_sound = select_rows_sound;
  select_complete = select_rows_complete;
  first_none = first_row-none;
  first_some = first_row-some;
  update_rows = λ t p f d e h. write_rows t _ d e h;
  update_others = λ t u p f d e n h. write_others t u _ d e n h;
  columns = columns_in_memory;
  update_map = update_map_of;
  delete = delete_rows_of;
  count = λ t p d. done (length (filter (both ℤ t p) (rows_of t d)));
  page = page_of;
  update_map_rows = λ t p m d e h. write_rows t _ d e h;
  update_map_others = λ t u p m d e n _ h. write_others t u _ d e n h;
  delete_rows = λ t p d e h. write_rows t _ d e h;
  delete_others = λ t u p d e n _ h. write_others t u _ d e n h;
  count_rows = λ t p d n h. cc;
  page_rows = page_of_rows;
  rows_in_columns = λ t d. All-fits t (rows_of t d);
  accounts_distinct = λ d. is_distinct-Distinct (account_keys d.tables) (distinct_ids d);
  records_distinct = λ d. is_distinct-Distinct (record_keys d.tables) (distinct_records d);
  hashes_distinct = λ d a b.
      has_distinct_texts-inj (λ t. t.token_hash) d.tables.token_rows a b (distinct_hashes d);
  keys_distinct =
      λ d a b. has_distinct_texts-inj (λ k. k.key) d.tables.key_rows a b (distinct_keys d);
}

abbrev pub machine : Platform
machine = record { decimals = integers; host = machine_host; gorm = machine_gorm }
