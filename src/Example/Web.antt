-- ===== src/Example/Web.antt =====
-- A small state of the program with a record, a user and a waiting event, and requests to it.
use finance_project.Prelude.{ℤ, pos, String, true, none, some, [], ◌∷◌, refl}
use finance_project.Models.{User, FinancialRecord, OutboxEntry, role_viewer}
use finance_project.Platform.Reply.{done, failed}
use finance_project.Session.{World}
use finance_project.Http.{Context}
use finance_project.Http.Requests.{Json}
use finance_project.Example.Tables.{Tables}
use finance_project.Example.Machine.{machine}

abbrev pub analyst : User
analyst = record {
  id = 3;
  name = "Ann";
  email = "ann@example.com";
  password = "hash";
  role = "analyst";
  is_active = true;
}

abbrev pub rent : FinancialRecord ℤ
rent = record {
  id = 5;
  user_id = 3;
  amount = pos 20;
  currency = "INR";
  record_type = "expense";
  category = "Rent";
  date = 7;
  notes = "";
  deleted_at = none;
}

abbrev pub waiting : OutboxEntry
waiting = record {
  id = 8;
  event_id = 9;
  event_type = "user.registered";
  payload = "3";
  published_at = none;
}

abbrev pub stored_tables : Tables ℤ
stored_tables = record {
  user_rows = analyst ∷ [];
  account_rows = [];
  record_rows = rent ∷ [];
  entry_rows = [];
  event_rows = [];
  outbox_rows = waiting ∷ [];
  token_rows = [];
  key_rows = [];
}

abbrev pub running : World machine
running = record { db = record { tables = stored_tables; keyed = refl }; calls = 4 }

-- Bodies are never read.
abbrev pub no_json : Json ℤ
no_json = record {
  bind_transaction = λ s. failed "none";
  bind_account = λ s. failed "none";
  bind_record = λ s. failed "none";
  bind_updates = λ s. failed "none";
  bind_register = λ s. failed "none";
  bind_login = λ s. failed "none";
  bind_refresh = λ s. failed "none";
  render = λ r. r.message;
  is_address = λ s. true;
}

-- A request of the viewer with the id 3, whose headers all hold the given text.
abbrev pub request : String → String → Context
request method header = record {
  method = method;
  path = "/";
  get_header = λ name. header;
  query = λ name. "";
  param_id = "uuuuu";
  body = done "{}";
  client_ip = "localhost";
  request_id = none;
  user_id = some "uuu";
  user_email = some "viewer@example.com";
  user_role = some role_viewer;
}
