-- ===== src/Config.antt =====
-- backend/config/config.go. `environment` is what the operating system and the .env file give: the
-- empty text for a variable that is not set. A number is a Go int, a duration a number of
-- nanoseconds in an int64.
pub mod Loaded
use Prim.Native.Char.{Char, code}
use Prim.Native.String.{[], ◌∷◌}
use notifyx.Prelude.{
  ℕ, suc, ◌+◌, ◌-◌, ◌*◌, ◌^◌, String, ◌<>◌, Bool, true, false, ◌&&◌, ◌||◌, not, Option, none, some,
  ltb, leb, ◌==◌, if◌then◌else◌, str_eq, Error, message, wrap, Result, ok, err, ℤ, pos, negsuc,
  is_positive, is_below, ◌*ℤ◌,
}

pub record Config : Type 0 where
  pub port : String
  pub env : String
  pub log_level : String
  pub database_url : String
  pub db_max_conns : ℤ
  pub db_min_conns : ℤ
  pub redis_url : String
  pub kafka_bootstrap_servers : String
  pub kafka_api_key : String
  pub kafka_api_secret : String
  pub resend_api_key : String
  pub resend_from_email : String
  pub firebase_credentials_json : String
  pub fast2sms_api_key : String
  pub default_rate_limit_per_min : ℤ
  pub default_global_cap : ℤ
  pub dedup_ttl : ℤ

-- The value of a text of decimal digits, after the digits that gave `value`.
unfoldable pub digits_value : ℕ → String → Option ℕ
digits_value value [] = some value
digits_value value (c ∷ s) =
    let rest = digits_value (value * 10 + (code c - 48)) s in
    if leb 48 (code c) && leb (code c) 57 then rest else none

-- The number of at least one digit.
unfoldable pub natural : String → Option ℕ
unfolding digits_value
natural [] = none
natural (c ∷ s) = digits_value 0 (c ∷ s)

-- An int: at most 2^63 − 1, and at least −2^63.
unfoldable pub in_range : Bool → ℕ → Option ℤ
in_range true n =
    if n == 0 then some (pos 0) else if leb n (2 ^ 63) then some (negsuc (n - 1)) else none
in_range false n = if ltb n (2 ^ 63) then some (pos n) else none

unfoldable pub signed : Bool → Option ℕ → Option ℤ
unfolding in_range
signed negative none = none
signed negative (some n) = in_range negative n

-- strconv.Atoi
unfoldable pub atoi : String → Option ℤ
unfolding natural signed
atoi [] = none
atoi (c ∷ s) =
    if code c == 45
    then signed true (natural s)
    else if code c == 43
    then signed false (natural s)
    else signed false (natural (c ∷ s))

-- getEnv
unfoldable pub get_env : (String → String) → String → String → String
get_env environment key fallback =
    if not (str_eq (environment key) "") then environment key else fallback

-- getEnvInt
unfoldable pub get_env_int : (String → String) → String → ℤ → ℤ
unfolding atoi
get_env_int environment key fallback =
    if not (str_eq (environment key) "")
    then elim (atoi (environment key)) [ none ↦ fallback | some n ↦ n ]
    else fallback

abbrev pub hour : ℤ
hour = pos (3600 * 1000000000)

-- a > b
unfoldable pub exceeds : ℤ → ℤ → Bool
exceeds a (pos n) = not (is_below a (suc n))
exceeds (pos m) (negsuc n) = true
exceeds (negsuc m) (negsuc n) = ltb m n

-- The `cfg` of Load.
unfoldable pub read_config : (String → String) → Config
unfolding get_env get_env_int
read_config environment = record {
  port = get_env environment "PORT" "8080";
  env = get_env environment "APP_ENV" "development";
  log_level = get_env environment "LOG_LEVEL" "";
  database_url = get_env environment "DATABASE_URL" "";
  db_max_conns = get_env_int environment "DB_MAX_CONNS" (pos 10);
  db_min_conns = get_env_int environment "DB_MIN_CONNS" (pos 0);
  redis_url = get_env environment "REDIS_URL" "";
  kafka_bootstrap_servers = get_env environment "KAFKA_BOOTSTRAP_SERVERS" "";
  kafka_api_key = get_env environment "KAFKA_API_KEY" "";
  kafka_api_secret = get_env environment "KAFKA_API_SECRET" "";
  resend_api_key = get_env environment "RESEND_API_KEY" "";
  resend_from_email = get_env environment "RESEND_FROM_EMAIL" "";
  firebase_credentials_json = get_env environment "FIREBASE_CREDENTIALS_JSON" "";
  fast2sms_api_key = get_env environment "FAST2SMS_API_KEY" "";
  default_rate_limit_per_min = get_env_int environment "DEFAULT_RATE_LIMIT_PER_MIN" (pos 60);
  default_global_cap = get_env_int environment "DEFAULT_GLOBAL_CAP" (pos 300);
  dedup_ttl = get_env_int environment "DEDUP_TTL_HOURS" (pos 24) *ℤ hour;
}

-- The errors of Validate; the numbers are those that the text shows.
pub data ConfigError : Type 0 where
  database_url_required : ConfigError
  bad_app_env : String → ConfigError
  bad_max_conns : ℤ → ConfigError
  bad_min_conns : ℤ → ℤ → ConfigError
  bad_dedup_ttl : ℤ → ConfigError
  resend_from_email_required : ConfigError

-- Config.Validate: the error, or `none`.
unfoldable pub validate_config : Config → Option ConfigError
unfolding exceeds
validate_config c =
    if str_eq c.database_url ""
    then some database_url_required
    else if not (str_eq c.env "development") && not (str_eq c.env "production")
    then some (bad_app_env c.env)
    else if is_below c.db_max_conns 1
    then some (bad_max_conns c.db_max_conns)
    else if is_below c.db_min_conns 0 || exceeds c.db_min_conns c.db_max_conns
    then some (bad_min_conns c.db_max_conns c.db_min_conns)
    else if not (is_positive c.dedup_ttl)
    then some (bad_dedup_ttl c.dedup_ttl)
    else if not (str_eq c.resend_api_key "") && str_eq c.resend_from_email ""
    then some resend_from_email_required
    else none

-- Load: the configuration, or the error that it wraps as "invalid config".
pub data Load : Type 0 where
  loaded : Config → Load
  invalid_config : ConfigError → Load

unfoldable pub load : (String → String) → Load
unfolding read_config validate_config
load environment =
    let cfg = read_config environment in
    elim (validate_config cfg) [ none ↦ loaded cfg | some e ↦ invalid_config e ]
