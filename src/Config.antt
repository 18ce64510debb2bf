-- ===== src/Config.antt =====
-- config/config.go: the settings that are read from the environment, and the connection.
use Prim.Native.Char.{code}
use Prim.Native.String.{String, ◌++◌ as join}
use finance_project.Prelude.{ℕ, ◌+◌, ◌*◌, ℤ, pos, Option, none, some, ltb, ◌==◌, if◌then◌else◌}
use finance_project.Text.{atoi, digit_of, negated}

-- The variables once godotenv has loaded the file .env, which may be missing.
abbrev pub Environment : Type 0
Environment = String → Option String

-- `getEnv`
abbrev pub get_env : Environment → String → String → String
get_env env key fallback = elim (env key) [ none ↦ fallback | some value ↦ value ]

-- `strconv.ParseUint`: reading stops at the first number over 64 bits, with the greatest one.
unfoldable pub scan_digits : String → ℕ → Option ℕ
scan_digits String.[] n = some n
scan_digits (String.◌∷◌ c s) n = elim (digit_of c) [
  | none ↦ none
  | some d ↦
      let rest = scan_digits s (n * 10 + d) in
      if ltb (n * 10 + d) 0x10000000000000000 then rest else some 0xFFFFFFFFFFFFFFFF
]

abbrev clamp_positive : Option ℕ → ℤ
clamp_positive none = pos 0
clamp_positive (some n) = if ltb n 0x8000000000000000 then pos n else pos 0x7FFFFFFFFFFFFFFF

abbrev clamp_negative : Option ℕ → ℤ
clamp_negative none = pos 0
clamp_negative (some n) = if ltb n 0x8000000000000000 then negated n else negated 0x8000000000000000

abbrev scan_number : String → Option ℕ
scan_number String.[] = none
scan_number (String.◌∷◌ c s) = scan_digits (String.◌∷◌ c s) 0

-- The number that `Atoi` gives whether or not it also gives an error.
unfoldable pub atoi_value : String → ℤ
atoi_value String.[] = pos 0
atoi_value (String.◌∷◌ c s) =
    if code c == 45
    then clamp_negative (scan_number s)
    else if code c == 43
    then clamp_positive (scan_number s)
    else clamp_positive (scan_number (String.◌∷◌ c s))

pub record Config : Type 0 where
  pub db_host : String
  pub db_port : String
  pub db_user : String
  pub db_password : String
  pub db_name : String
  pub db_ssl_mode : String
  pub jwt_secret : String
  pub jwt_expiry_hrs : ℤ
  pub port : String
  pub app_env : String
  pub rate_limit_per_minute : ℤ
  pub access_token_expiry_minutes : ℤ
  pub refresh_token_expiry_days : ℤ

abbrev pub config_of : Environment → ℤ → Config
config_of env jwt_expiry = record {
  db_host = get_env env "DB_HOST" "localhost";
  db_port = get_env env "DB_PORT" "5432";
  db_user = get_env env "DB_USER" "postgres";
  db_password = get_env env "DB_PASSWORD" "";
  db_name = get_env env "DB_NAME" "finance_dashboard";
  db_ssl_mode = get_env env "DB_SSL_MODE" "require";
  jwt_secret = get_env env "JWT_SECRET" "";
  jwt_expiry_hrs = jwt_expiry;
  port = get_env env "PORT" "8080";
  app_env = get_env env "APP_ENV" "development";
  rate_limit_per_minute = atoi_value (get_env env "RATE_LIMIT_PER_MINUTE" "100");
  access_token_expiry_minutes = atoi_value (get_env env "ACCESS_TOKEN_EXPIRY_MINUTES" "15");
  refresh_token_expiry_days = atoi_value (get_env env "REFRESH_TOKEN_EXPIRY_DAYS" "7");
}

-- `Load`, which ends the program if the legacy expiry is no number.
unfoldable pub load : Environment → Option Config
load env = elim (atoi (get_env env "JWT_EXPIRY_HOURS" "24")) [
  | none ↦ none
  | some hours ↦ some (config_of env hours)
]

-- The connection string of `ConnectDB`.
abbrev pub dsn : Config → String
dsn c = join "host=" (
    join c.db_host (
      join " port=" (
        join c.db_port (
          join " user=" (
            join c.db_user (
              join " password=" (
                join c.db_password
                  (join " dbname=" (join c.db_name (join " sslmode=" c.db_ssl_mode))))))))))
