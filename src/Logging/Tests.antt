-- ===== src/Logging/Tests.antt =====
-- Tests of the model of service/src/logging.rs.
use green_relay.Prelude.{◌≡◌, refl, true, some}
use green_relay.Text.{codes, is_whitespace}
use green_relay.Logging.{parse, warn, parse_rotation, hourly}
use green_relay.Logging.Record.{is_credential_field}

parse_warning : parse (codes " warning ") ≡ some warn
unfolding parse is_whitespace
parse_warning = refl

parse_hourly : parse_rotation (codes "Hourly") ≡ some hourly
unfolding parse_rotation is_whitespace
parse_hourly = refl

credential_password : is_credential_field (codes "PassWord") ≡ true
unfolding is_credential_field
credential_password = refl
