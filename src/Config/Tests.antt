-- ===== src/Config/Tests.antt =====
-- Examples for service/src/config.rs.
use green_relay.Prelude.{◌≡◌, refl, false, [], ◌∷◌, none, some, Result}
use green_relay.Text.{Text, codes, is_whitespace}
use green_relay.HashMap.{get}
use green_relay.Config.{
  Config, ConfigError, invalid_value, Settings, require, from_map, parse_u32_or_default,
  parse_u64_or_default, parse_bool_or_default, optional_string, out_of_range, info,
}
use green_relay.Logging.{daily}
use green_relay.Config.Keys.{
  key_listen_addr, key_baud_rate, key_database_path, key_at_timeout_secs, known_keys,
}
use green_relay.Config.Blame.{IsBlamed}
use green_relay.Config.Ranges.{IsValid, from_map-IsValid, from_map-IsBlamed}
use green_relay.Config.Precedence.{get-merged, known_var, or_else}
use green_relay.Config.File.{env_map, merge_env_over_file}

-- Every text is an address.
abbrev any_addr : Text → Result Text Text
any_addr raw = Result.ok raw

abbrev settings : Settings
settings =
    (key_listen_addr, codes "0.0.0.0:80")
    ∷ (key_database_path, codes "a.db")
    ∷ (key_baud_rate, codes " 9600 ")
    ∷ []

abbrev out_of_range_settings : Settings
out_of_range_settings = (key_at_timeout_secs, codes "61") ∷ settings

abbrev pub config : Config Text
config = record {
  listen_addr = codes "0.0.0.0:80";
  serial_port = codes "/dev/ttyUSB2";
  baud_rate = 9600;
  database_path = codes "a.db";
  service_center_number = none;
  at_timeout_secs = 5;
  default_rate_limit = 100;
  rate_window_secs = 60;
  log_level = info;
  log_dir = none;
  log_file_prefix = codes "green_relay";
  log_rotation = daily;
  log_max_files = 7;
  reopen_max_attempts = 10;
  send_max_attempts = 3;
  send_retry_delay_secs = 5;
  admin_cookie_secure = false;
}

settings_read : from_map any_addr settings ≡ Result.ok config
unfolding from_map is_whitespace green_relay.Config.◌>>=◌
settings_read = refl

abbrev too_long : ConfigError
too_long = invalid_value key_at_timeout_secs (codes "61") (codes "must be between 1 and 60 seconds")

out_of_range_refused : from_map any_addr out_of_range_settings ≡ Result.err too_long
unfolding from_map is_whitespace green_relay.Config.◌>>=◌
out_of_range_refused = refl

from_map-IsBlamed_example : IsBlamed out_of_range_settings too_long
from_map-IsBlamed_example =
    from_map-IsBlamed any_addr out_of_range_settings too_long out_of_range_refused

from_map-IsValid_example : IsValid any_addr settings config
from_map-IsValid_example = from_map-IsValid any_addr settings config settings_read

get-merged_example :
    get (merge_env_over_file settings (env_map (λ k. some (codes "x")))) key_baud_rate
    ≡ or_else
        (known_var (λ k. some (codes "x")) known_keys key_baud_rate)
        (get settings key_baud_rate)
get-merged_example = get-merged (λ k. some (codes "x")) settings key_baud_rate
