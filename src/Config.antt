-- ===== src/Config.antt =====
-- service/src/config.rs, with ConfigError of error.rs: the configuration from a map of texts. The
-- parser of a socket address is a parameter.
pub mod Keys
pub mod Ranges
pub mod File
pub mod Precedence
pub mod Blame
pub mod Tests
use green_relay.Prelude.{
  ℕ, ◌*◌, ◌^◌, ◌-◌, Bool, true, false, not, ◌&&◌, List, [], ◌∷◌, ◌++◌, Option, none, some, leb,
  if◌then◌else◌, Result, u32_max, usize_max,
}
use green_relay.Text.{Text, codes, trim}
use green_relay.Text.Decimal.{parse_uint}
use green_relay.Text.Case.{to_ascii_uppercase, to_ascii_lowercase, named}
use green_relay.HashMap.{HashMap, get}
use green_relay.Logging.{LogRotation, daily, parse_rotation}
use green_relay.Config.Keys.*

pub data LogLevel : Type 0 where
  trace debug info warn error : LogLevel

unfoldable pub as_str : LogLevel → Text
as_str trace = codes "TRACE"
as_str debug = codes "DEBUG"
as_str info = codes "INFO"
as_str warn = codes "WARN"
as_str error = codes "ERROR"

abbrev pub level_names : List (Text × LogLevel)
level_names =
    (codes "TRACE", trace)
    ∷ (codes "DEBUG", debug)
    ∷ (codes "INFO", info)
    ∷ (codes "WARN", warn)
    ∷ (codes "ERROR", error)
    ∷ []

unfoldable pub parse : Text → Option LogLevel
unfolding trim to_ascii_uppercase named
parse s = named level_names (to_ascii_uppercase (trim s))

pub record Config (SocketAddr : Type 0) : Type 0 where
  pub listen_addr : SocketAddr
  pub serial_port : Text
  pub baud_rate : ℕ
  pub database_path : Text
  pub service_center_number : Option Text
  pub at_timeout_secs : ℕ
  pub default_rate_limit : ℕ
  pub rate_window_secs : ℕ
  pub log_level : LogLevel
  pub log_dir : Option Text
  pub log_file_prefix : Text
  pub log_rotation : LogRotation
  pub log_max_files : ℕ
  pub reopen_max_attempts : ℕ
  pub send_max_attempts : ℕ
  pub send_retry_delay_secs : ℕ
  pub admin_cookie_secure : Bool

pub data ConfigError : Type 0 where
  missing_key : Text → ConfigError
  invalid_value : Text → Text → Text → ConfigError
  file_read : Text → Text → ConfigError

-- `ConfigError::key`
unfoldable pub key : ConfigError → Option Text
key (missing_key k) = some k
key (invalid_value k value reason) = some k
key (file_read path reason) = none

infixl 5 ◌>>=◌ ◌>>◌
unfoldable pub ◌>>=◌ : {A B E : Type 0} → Result A E → (A → Result B E) → Result B E
Result.ok a >>= f = f a
Result.err e >>= f = Result.err e

abbrev pub ◌>>◌ : {B E : Type 0} → Result Unit E → Result B E → Result B E
m >> k = m >>= λ _. k

abbrev pub is_empty : Text → Bool
is_empty [] = true
is_empty (c ∷ s) = false

abbrev pub Settings : Type 0
Settings = HashMap Text

-- a value that is there and not blank
abbrev pub require_in : Text → Option Text → Result Text ConfigError
require_in k none = Result.err (missing_key k)
require_in k (some v) = if not (is_empty (trim v)) then Result.ok v else Result.err (missing_key k)

unfoldable pub require : Settings → Text → Result Text ConfigError
unfolding get trim
require settings k = require_in k (get settings k)

abbrev pub filled : Option Text → Option Text
filled none = none
filled (some v) = let v' = trim v in if not (is_empty v') then some v' else none

unfoldable pub optional_string : Settings → Text → Option Text
unfolding get trim
optional_string settings k = filled (get settings k)

abbrev pub or_default {ℓ} : {A : Type ℓ} → A → Option A → A
or_default d none = d
or_default d (some a) = a

abbrev pub ok_or : {A : Type 0} → ConfigError → Option A → Result A ConfigError
ok_or e none = Result.err e
ok_or e (some a) = Result.ok a

-- the default, or what `read` makes of a value that is set
abbrev pub read_or :
    {A : Type 0} → (Text → Option A) → Text → Text → A → Option Text → Result A ConfigError
read_or read k reason default none = Result.ok default
read_or read k reason default (some raw) = ok_or (invalid_value k raw reason) (read raw)

unfoldable pub parse_u32_or_default : Settings → Text → ℕ → Result ℕ ConfigError
unfolding optional_string parse_uint
parse_u32_or_default settings k default =
    read_or (parse_uint u32_max) k (codes "expected a non-negative integer") default
      (optional_string settings k)

unfoldable pub parse_u64_or_default : Settings → Text → ℕ → Result ℕ ConfigError
unfolding optional_string parse_uint
parse_u64_or_default settings k default =
    read_or (parse_uint (2 ^ 64 - 1)) k (codes "expected a non-negative integer") default
      (optional_string settings k)

abbrev pub bool_names : List (Text × Bool)
bool_names =
    (codes "true", true)
    ∷ (codes "1", true)
    ∷ (codes "yes", true)
    ∷ (codes "on", true)
    ∷ (codes "false", false)
    ∷ (codes "0", false)
    ∷ (codes "no", false)
    ∷ (codes "off", false)
    ∷ []

abbrev pub read_bool : Text → Option Bool
read_bool raw = named bool_names (to_ascii_lowercase (trim raw))

unfoldable pub parse_bool_or_default : Settings → Text → Bool → Result Bool ConfigError
unfolding optional_string trim to_ascii_lowercase named
parse_bool_or_default settings k default =
    read_or read_bool k (codes "expected a boolean (true/false)") default
      (optional_string settings k)

unfoldable pub out_of_range : Settings → Text → Text → ConfigError
unfolding get
out_of_range settings k reason = invalid_value k (or_default [] (get settings k)) reason

-- `if !test { return Err(out_of_range(..)) }`
abbrev pub ensure : Bool → ConfigError → Result Unit ConfigError
ensure true e = Result.ok tt
ensure false e = Result.err e

abbrev pub within : ℕ → ℕ → ℕ → Bool
within lo hi n = leb lo n && leb n hi

abbrev pub addr_reason : Text → Text
addr_reason e = codes "expected a socket address like 0.0.0.0:8080 (" ++ e ++ codes ")"

module _ {SocketAddr : Type 0} (from_str : Text → Result SocketAddr Text) where
  abbrev pub checked_addr : Text → Result SocketAddr Text → Result SocketAddr ConfigError
  checked_addr raw (Result.ok a) = Result.ok a
  checked_addr raw (Result.err e) = Result.err (invalid_value key_listen_addr raw (addr_reason e))

  unfoldable pub from_map : Settings → Result (Config SocketAddr) ConfigError
  unfolding require optional_string parse_u32_or_default parse_u64_or_default parse_bool_or_default
      out_of_range parse parse_rotation
  from_map settings = do
    listen_addr_raw ← require settings key_listen_addr
    listen_addr ← checked_addr listen_addr_raw (from_str listen_addr_raw)
    let serial_port = or_default (codes "/dev/ttyUSB2") (optional_string settings key_serial_port)
    baud_rate ← parse_u32_or_default settings key_baud_rate 115200
    ensure (leb 1 baud_rate) (out_of_range settings key_baud_rate (codes "must be greater than 0"))
    database_path ← require settings key_database_path
    let service_center_number = optional_string settings key_service_center_number
    at_timeout_secs ← parse_u64_or_default settings key_at_timeout_secs 5
    ensure (within 1 60 at_timeout_secs)
        (out_of_range settings key_at_timeout_secs (codes "must be between 1 and 60 seconds"))
    default_rate_limit ← parse_u32_or_default settings key_default_rate_limit 100
    ensure (within 1 10000 default_rate_limit) (
        out_of_range settings key_default_rate_limit (codes "must be between 1 and 10000 requests"))
    rate_window_secs ← parse_u64_or_default settings key_rate_window_secs 60
    ensure (leb 1 rate_window_secs)
        (out_of_range settings key_rate_window_secs (codes "must be greater than 0"))
    log_level ←
        read_or parse key_log_level (codes "must be one of TRACE, DEBUG, INFO, WARN, ERROR") info
          (optional_string settings key_log_level)
    let log_dir = optional_string settings key_log_dir
    let log_file_prefix =
        or_default (codes "green_relay") (optional_string settings key_log_file_prefix)
    log_rotation ←
        read_or parse_rotation key_log_rotation
          (codes "must be one of MINUTELY, HOURLY, DAILY, NEVER") daily
          (optional_string settings key_log_rotation)
    log_max_files ← parse_u32_or_default settings key_log_max_files 7
    ensure (leb log_max_files 10000)
        (out_of_range settings key_log_max_files (codes "must be at most 10000"))
    reopen_max_attempts ← parse_u32_or_default settings key_reopen_max_attempts 10
    ensure (within 1 1000 reopen_max_attempts)
        (out_of_range settings key_reopen_max_attempts (codes "must be between 1 and 1000"))
    send_max_attempts ← parse_u32_or_default settings key_send_max_attempts 3
    ensure (within 1 100 send_max_attempts)
        (out_of_range settings key_send_max_attempts (codes "must be between 1 and 100"))
    send_retry_delay_secs ← parse_u64_or_default settings key_send_retry_delay_secs 5
    ensure (leb send_retry_delay_secs 3600)
        (out_of_range settings key_send_retry_delay_secs (codes "must be at most 3600 seconds"))
    admin_cookie_secure ← parse_bool_or_default settings key_admin_cookie_secure false
    Result.ok (record {
      listen_addr = listen_addr;
      serial_port = serial_port;
      baud_rate = baud_rate;
      database_path = database_path;
      service_center_number = service_center_number;
      at_timeout_secs = at_timeout_secs;
      default_rate_limit = default_rate_limit;
      rate_window_secs = rate_window_secs;
      log_level = log_level;
      log_dir = log_dir;
      log_file_prefix = log_file_prefix;
      log_rotation = log_rotation;
      log_max_files = log_max_files;
      reopen_max_attempts = reopen_max_attempts;
      send_max_attempts = send_max_attempts;
      send_retry_delay_secs = send_retry_delay_secs;
      admin_cookie_secure = admin_cookie_secure;
    })
