-- ===== src/Example/StartTests.antt =====
-- Starts of the program in a small environment.
use finance_project.Prelude.{
  String, false, none, some, List, [], All, ◌≡◌, ◌≢◌, refl, str_eq, if◌then◌else◌,
}
use finance_project.Action.{ok, ◌>>=◌}
use finance_project.Platform.Reply.{done, failed}
use finance_project.Text.{atoi}
use finance_project.Config.{Environment, load}
use finance_project.Startup.{
  Effect, migrated, Surroundings, connect_db, auto_migrate, launch, start_up,
}
use finance_project.Startup.Order.{IsStarted, start_up-IsStarted, start_up_in_production}

-- A secret is set, and the name of the environment.
abbrev variables : String → Environment
variables name key =
    if str_eq key "JWT_SECRET" then some "k" else if str_eq key "APP_ENV" then some name else none

abbrev place : String → Surroundings
place name = record {
  env = variables name;
  gorm_open = λ dsn. done tt;
  pool = done tt;
  migrate = done tt;
  shutdown = λ time. done tt;
  last_pool = failed "closed";
}

abbrev trace : List Effect
trace = (start_up (place "staging") false []).1

starts : start_up (place "staging") false [] ≡ (ok (some ":8080"), trace)
unfolding start_up load atoi connect_db auto_migrate launch ◌>>=◌
starts = refl

start_up-IsStarted_example : IsStarted (place "staging") false ":8080" trace
start_up-IsStarted_example = start_up-IsStarted (place "staging") false starts

start_up_in_production_example : All (λ x. x ≢ migrated) (start_up (place "production") false []).1
start_up_in_production_example = start_up_in_production (place "production") refl
