-- ===== src/Logging.antt =====
-- service/src/logging.rs: severities, the rotation of log files, log records as JSON objects, and
-- the redaction of credentials. A JSON value is a parameter; a `BTreeMap` keeps its keys in order.
pub mod Record
pub mod Laws
pub mod Tests
use green_relay.Prelude.{ℕ, ◌≡◌, refl, Bool, List, [], ◌∷◌, Option, none, some, leb, if◌then◌else◌}
use green_relay.Text.{Text, codes, trim, is_whitespace}
use green_relay.Text.Case.{to_ascii_uppercase, named}

pub data Severity : Type 0 where
  trace debug info warn error : Severity

unfoldable pub as_str : Severity → Text
as_str trace = codes "TRACE"
as_str debug = codes "DEBUG"
as_str info = codes "INFO"
as_str warn = codes "WARN"
as_str error = codes "ERROR"

abbrev pub severity_names : List (Text × Severity)
severity_names =
    (codes "TRACE", trace)
    ∷ (codes "DEBUG", debug)
    ∷ (codes "INFO", info)
    ∷ (codes "WARN", warn)
    ∷ (codes "WARNING", warn)
    ∷ (codes "ERROR", error)
    ∷ []

unfoldable pub parse : Text → Option Severity
unfolding trim to_ascii_uppercase named
parse s = named severity_names (to_ascii_uppercase (trim s))

-- the derived order of the variants
abbrev pub rank : Severity → ℕ
rank trace = 0
rank debug = 1
rank info = 2
rank warn = 3
rank error = 4

pub data LogRotation : Type 0 where
  minutely hourly daily never : LogRotation

unfoldable pub rotation_str : LogRotation → Text
rotation_str minutely = codes "MINUTELY"
rotation_str hourly = codes "HOURLY"
rotation_str daily = codes "DAILY"
rotation_str never = codes "NEVER"

abbrev pub rotation_names : List (Text × LogRotation)
rotation_names =
    (codes "MINUTELY", minutely)
    ∷ (codes "HOURLY", hourly)
    ∷ (codes "DAILY", daily)
    ∷ (codes "NEVER", never)
    ∷ []

unfoldable pub parse_rotation : Text → Option LogRotation
unfolding trim to_ascii_uppercase named
parse_rotation s = named rotation_names (to_ascii_uppercase (trim s))

pub parse-as_str : (s : Severity) → parse (as_str s) ≡ some s
unfolding parse as_str is_whitespace
parse-as_str trace = refl
parse-as_str debug = refl
parse-as_str info = refl
parse-as_str warn = refl
parse-as_str error = refl

pub parse_rotation-str : (r : LogRotation) → parse_rotation (rotation_str r) ≡ some r
unfolding parse_rotation rotation_str is_whitespace
parse_rotation-str minutely = refl
parse_rotation-str hourly = refl
parse_rotation-str daily = refl
parse_rotation-str never = refl
