-- ===== src/Config/Keys.antt =====
-- service/src/config.rs: the names of the configuration keys.
use green_relay.Prelude.{List, [], ◌∷◌}
use green_relay.Text.{Text, codes}

abbrev pub key_listen_addr : Text
key_listen_addr = codes "LISTEN_ADDR"

abbrev pub key_serial_port : Text
key_serial_port = codes "SERIAL_PORT"

abbrev pub key_baud_rate : Text
key_baud_rate = codes "BAUD_RATE"

abbrev pub key_database_path : Text
key_database_path = codes "DATABASE_PATH"

abbrev pub key_service_center_number : Text
key_service_center_number = codes "SERVICE_CENTER_NUMBER"

abbrev pub key_at_timeout_secs : Text
key_at_timeout_secs = codes "AT_TIMEOUT_SECS"

abbrev pub key_default_rate_limit : Text
key_default_rate_limit = codes "DEFAULT_RATE_LIMIT"

abbrev pub key_rate_window_secs : Text
key_rate_window_secs = codes "RATE_WINDOW_SECS"

abbrev pub key_log_level : Text
key_log_level = codes "LOG_LEVEL"

abbrev pub key_log_dir : Text
key_log_dir = codes "LOG_DIR"

abbrev pub key_log_file_prefix : Text
key_log_file_prefix = codes "LOG_FILE_PREFIX"

abbrev pub key_log_rotation : Text
key_log_rotation = codes "LOG_ROTATION"

abbrev pub key_log_max_files : Text
key_log_max_files = codes "LOG_MAX_FILES"

abbrev pub key_reopen_max_attempts : Text
key_reopen_max_attempts = codes "REOPEN_MAX_ATTEMPTS"

abbrev pub key_send_max_attempts : Text
key_send_max_attempts = codes "SEND_MAX_ATTEMPTS"

abbrev pub key_send_retry_delay_secs : Text
key_send_retry_delay_secs = codes "SEND_RETRY_DELAY_SECS"

abbrev pub key_admin_cookie_secure : Text
key_admin_cookie_secure = codes "ADMIN_COOKIE_SECURE"

abbrev pub key_config_file : Text
key_config_file = codes "SMS_CONFIG_FILE"

abbrev pub default_config_filename : Text
default_config_filename = codes "config.yaml"

unfoldable pub known_keys : List Text
known_keys =
    key_listen_addr ∷ key_serial_port ∷ key_baud_rate ∷ key_database_path
    ∷ key_service_center_number ∷ key_at_timeout_secs ∷ key_default_rate_limit
    ∷ key_rate_window_secs ∷ key_log_level ∷ key_log_dir ∷ key_log_file_prefix ∷ key_log_rotation
    ∷ key_log_max_files ∷ key_reopen_max_attempts ∷ key_send_max_attempts
    ∷ key_send_retry_delay_secs ∷ key_admin_cookie_secure ∷ []
