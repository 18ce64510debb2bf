-- ===== src/Startup.antt =====
-- cmd/main.go: the start of the program, up to the listening server, and its shutdown; `ConnectDB` of
-- config/config.go. The state is the list of the effects so far, and a fatal error ends the program.
pub mod Order
use Prim.Native.String.{◌++◌ as join}
use finance_project.Prelude.{
  ℕ, ◌*◌, String, Bool, true, false, not, ◌||◌, Option, none, some, List, [], ◌∷◌, ◌++◌, str_eq,
  if◌then◌else◌,
}
use finance_project.Errors.{GoError, other}
use finance_project.Action.{Action, Result, ok, err, pure, fail, refuse_if, ◌>>=◌, ◌>>◌}
use finance_project.Platform.Reply.{Reply, done, failed}
use finance_project.Tokens.{TokenService, minute}
use finance_project.Routes.{token_service}
use finance_project.Config.{Environment, get_env, Config, load, dsn}

-- What `main` does to the outside, times in nanoseconds.
pub data Effect : Type 0 where
  opened : String → Effect
  pool_configured : ℕ → ℕ → ℕ → Effect
  migrated : Effect
  publisher_started : ℕ → Effect
  listening : String → Effect
  publisher_cancelled : Effect
  drained : Effect
  pool_closed : Effect

-- The environment, and the calls of gorm and net/http: opening the database, its pool, the migration,
-- the shutdown of the server within a time, and the pool at the end.
pub record Surroundings : Type 0 where
  pub env : Environment
  pub gorm_open : String → Reply (Unit {0})
  pub pool : Reply (Unit {0})
  pub migrate : Reply (Unit {0})
  pub shutdown : ℕ → Reply (Unit {0})
  pub last_pool : Reply (Unit {0})

abbrev pub second : ℕ
second = 1000000000

abbrev pub emit : Effect → Action (List Effect) (Unit {0})
emit e trace = (ok tt, trace ++ e ∷ [])

-- A call that must succeed.
abbrev pub must : String → Reply (Unit {0}) → Action (List Effect) (Unit {0})
must message (done _) = pure tt
must message (failed cause) = fail (other (join message cause))

abbrev pub loaded : Option Config → Action (List Effect) Config
loaded none = fail (other "Invalid JWT_EXPIRY_HOURS value")
loaded (some c) = pure c

module _ (M : Surroundings) where
  unfoldable pub connect_db : Config → Action (List Effect) (Unit {0})
  connect_db c = do
    must "Failed to connect to database: " (M.gorm_open (dsn c))
    emit (opened (dsn c))
    must "Failed to get underlying sql.DB: " M.pool
    emit (pool_configured 25 10 (5 * minute))

  unfoldable pub auto_migrate : Action (List Effect) (Unit {0})
  auto_migrate = do must "Failed to auto-migrate database: " M.migrate; emit migrated

  abbrev pub migrates : Bool → Config → Bool
  migrates flag c = not (str_eq c.app_env "production") || flag

  abbrev pub migrate_if_due : Bool → Config → Action (List Effect) (Unit {0})
  migrate_if_due flag c = if migrates flag c then auto_migrate else pure tt

  abbrev pub address : Config → String
  address c = join ":" (if str_eq c.port "" then "8080" else c.port)

  -- The publisher and the server, whose loops run on; the address of the server.
  unfoldable pub launch : Config → Action (List Effect) String
  launch c = do
    emit (publisher_started (5 * second))
    emit (listening (address c))
    pure (address c)

  -- `None` when the program exits with code 0 after a migration that was asked for.
  abbrev pub launch_unless : Bool → Config → Action (List Effect) (Option String)
  launch_unless true c = pure none
  launch_unless false c = do where_served ← launch c; pure (some where_served)

  unfoldable pub start_up : Bool → Action (List Effect) (Option String)
  start_up flag = do
    c ← loaded (load M.env)
    refuse_if (str_eq c.jwt_secret "") (other "FATAL: JWT_SECRET environment variable must be set")
    connect_db c
    migrate_if_due flag c
    launch_unless flag c

  abbrev pub close_pool : Reply (Unit {0}) → Action (List Effect) (Unit {0})
  close_pool (done _) = emit pool_closed
  close_pool (failed cause) = pure tt

  -- After SIGINT or SIGTERM.
  unfoldable pub shut_down : Action (List Effect) (Unit {0})
  shut_down = do
    emit publisher_cancelled
    must "Server forced to shutdown: " (M.shutdown (30 * second))
    emit drained
    close_pool M.last_pool

  -- What `SetupRoutes` reads from the environment again.
  abbrev pub routes_service : TokenService
  routes_service =
      token_service (get_env M.env "JWT_SECRET" "") (get_env M.env "ACCESS_TOKEN_EXPIRY_MINUTES" "")
        (get_env M.env "REFRESH_TOKEN_EXPIRY_DAYS" "")
