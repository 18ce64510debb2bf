-- ===== src/Example/RecordTests.antt =====
-- The theorems on records, users, reports and requests in a small state.
use finance_project.Prelude.{
  String, ◌∙◌, sym, ap, false, str_eq, eq_iff, Bool-cases, inl, inr, ℤ, pos, true, none, [], ◌∷◌,
  All, map, ◌≡◌, ◌≢◌, refl,
}
use finance_project.Models.{Table, FinancialRecord, users, records}
use finance_project.Action.{ok, ◌>>=◌}
use finance_project.Platform.Updates.{OnlyUnder, text, Updates}
use finance_project.Session.{
  World, exec, query, read_clock, create, before_create, fresh_uuid, transaction,
}
use finance_project.Audit.{build_audit_event, log_event}
use finance_project.Auth.{is_valid_role}
use finance_project.Records.{
  audit_record, create_record, update_record, delete_record, delete_body, get_record_by_id,
}
use finance_project.Records.Deletion.{delete_record-hides}
use finance_project.Records.Validity.{AllValid}
use finance_project.Records.Invariant.{operations-AllValid}
use finance_project.Records.Updating.{NamesNoField}
use finance_project.Example.Assign.{column_of}
use finance_project.Users.{update_user}
use finance_project.Users.Safety.{NoOtherPassword, update_user-keeps_passwords}
use finance_project.Example.Machine.{machine}
use finance_project.Example.Web.{running}

abbrev groceries : FinancialRecord ℤ
groceries = record {
  id = 0;
  user_id = 3;
  amount = pos 12;
  currency = "usd";
  record_type = "expense";
  category = "Food";
  date = 9;
  notes = "";
  deleted_at = none;
}

abbrev in_town : World machine
in_town = record running { calls = 6 }

abbrev after_shopping : World machine
after_shopping = (create_record machine true groceries in_town).1

abbrev stored_groceries : FinancialRecord ℤ
stored_groceries = record groceries { id = 7; currency = "USD" }

running-AllValid : AllValid machine running.db
running-AllValid = (record { known_type = refl; positive = refl; known_currency = refl }, tt)

abbrev raise : Updates ℤ
raise = ("amount", text "30") ∷ ("role", text "admin") ∷ []

-- A key of another column is another key.
key_apart :
    (t : Table) (k j column : String)
    → column_of t j ≡ j
    → str_eq j column ≡ false
    → column_of t k ≡ column
    → str_eq k j ≡ false
key_apart t k j column own apart names = elim (Bool-cases (str_eq k j)) [
  | inl same ↦
      let k_is_j = (eq_iff k j).0 same in
      cc (apart, (eq_iff j column).1 (sym own ∙ ap (column_of t) (sym k_is_j) ∙ names))
  | inr differ ↦ differ
]

raise-NamesNoField : NamesNoField machine raise
raise-NamesNoField = (
  λ k other names.
      rw
        (
          key_apart records k "amount" "type" refl refl names,
          key_apart records k "role" "type" refl refl names,
        )
        refl,
  λ k other names. rw (other, key_apart records k "role" "amount" refl refl names) refl,
  λ k other names.
      rw
        (
          key_apart records k "amount" "currency" refl refl names,
          key_apart records k "role" "currency" refl refl names,
        )
        refl,
)

raise-NoOtherPassword : NoOtherPassword machine raise
raise-NoOtherPassword k lower upper names =
    rw
      (
        key_apart users k "amount" "password" refl refl names,
        key_apart users k "role" "password" refl refl names,
      )
      refl

operations-AllValid_example :
    AllValid machine (create_record machine true groceries running).1.db
    × AllValid machine (update_record machine true "uuuuu" raise running).1.db
    × AllValid machine (delete_record machine true "uuuuu" running).1.db
operations-AllValid_example =
    operations-AllValid machine true groceries "uuuuu" raise running refl raise-NamesNoField
      (λ v x there read. refl) running-AllValid

update_user-keeps_passwords_example :
    (map (λ u. u.password) (machine.rows users (update_user machine true "uuu" raise running).1.db)
      ≡ map (λ u. u.password) (machine.rows users running.db))
    × (OnlyUnder (column_of users) "role" raise
        → All (λ u. is_valid_role u.role ≡ true) (machine.rows users running.db)
        → All
            (λ u. is_valid_role u.role ≡ true)
            (machine.rows users (update_user machine true "uuu" raise running).1.db))
update_user-keeps_passwords_example =
    update_user-keeps_passwords machine true "uuu" raise running raise-NoOtherPassword

abbrev without_rent : World machine
without_rent = (delete_record machine true "uuuuu" running).1

rent_is_deleted : delete_record machine true "uuuuu" running ≡ (ok tt, without_rent)
unfolding delete_record delete_body get_record_by_id audit_record create before_create fresh_uuid
    exec query read_clock build_audit_event log_event transaction ◌>>=◌
rent_is_deleted = refl

delete_record-hides_example :
    ((r : FinancialRecord ℤ) (y : World machine)
      → get_record_by_id machine "uuuuu" without_rent ≢ (ok r, y))
    × ((r : FinancialRecord ℤ) (y : World machine)
        → update_record machine true "uuuuu" raise without_rent ≢ (ok r, y))
    × ((y : World machine) → delete_record machine true "uuuuu" without_rent ≢ (ok tt, y))
delete_record-hides_example =
    delete_record-hides machine true true "uuuuu" raise running without_rent rent_is_deleted refl
