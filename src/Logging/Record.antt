-- ===== src/Logging/Record.antt =====
-- service/src/logging.rs: `LogRecord`, `is_credential_field` and `redact_credentials`.
use green_relay.Prelude.{Bool, not, List, [], ◌∷◌, Option, none, some, leb, if◌then◌else◌}
use green_relay.Text.{Text, codes, text_eq}
use green_relay.Text.Case.{to_ascii_lowercase, member}
use green_relay.Text.Order.{text_lt}
use green_relay.Logging.{Severity, as_str, rank}

unfoldable pub credential_fields : List Text
credential_fields =
    codes "api_key"
    ∷ codes "apikey"
    ∷ codes "key"
    ∷ codes "password"
    ∷ codes "passwd"
    ∷ codes "secret"
    ∷ codes "credential"
    ∷ codes "credentials"
    ∷ codes "authorization"
    ∷ codes "token"
    ∷ codes "cookie"
    ∷ codes "set_cookie"
    ∷ codes "session"
    ∷ []

abbrev pub redacted : Text
redacted = codes "[REDACTED]"

unfoldable pub reserved_keys : List Text
reserved_keys = codes "timestamp" ∷ codes "severity" ∷ codes "message" ∷ []

unfoldable pub is_credential_field : Text → Bool
unfolding to_ascii_lowercase member credential_fields
is_credential_field name = member (to_ascii_lowercase name) credential_fields

module _ {V : Type 0} where
  -- `BTreeMap::insert`
  unfoldable pub put : Text → V → List (Text × V) → List (Text × V)
  put k v [] = (k, v) ∷ []
  put k v ((j, w) ∷ m) =
      if text_eq j k
      then (k, v) ∷ m
      else if text_lt k j
      then (k, v) ∷ (j, w) ∷ m
      else (j, w) ∷ put k v m

  unfoldable pub field : List (Text × V) → Text → Option V
  field [] k = none
  field ((j, w) ∷ m) k = if text_eq j k then some w else field m k

pub record LogRecord (V : Type 0) : Type 0 where
  pub timestamp : Text
  pub severity : Severity
  pub message : Text
  pub fields : List (Text × V)

module _ {V : Type 0} (string : Text → V) where
  unfoldable pub with_timestamp : Severity → Text → Text → LogRecord V
  with_timestamp severity message timestamp = record {
    timestamp = timestamp;
    severity = severity;
    message = message;
    fields = [];
  }

  unfoldable pub with_field : LogRecord V → Text → V → LogRecord V
  unfolding member reserved_keys put
  with_field r key value =
      if not (member key reserved_keys) then record r { fields = put key value r.fields } else r

  unfoldable pub should_emit : LogRecord V → Severity → Bool
  should_emit r min_severity = leb (rank min_severity) (rank r.severity)

  -- the object that `to_json_value` builds: later insertions replace earlier ones
  unfoldable pub put_all : List (Text × V) → List (Text × V) → List (Text × V)
  unfolding put
  put_all [] m = m
  put_all ((k, v) ∷ rest) m = put_all rest (put k v m)

  unfoldable pub to_json_value : LogRecord V → List (Text × V)
  unfolding put_all put as_str
  to_json_value r = put_all r.fields (
      put (codes "message") (string r.message) (
        put (codes "severity") (string (as_str r.severity))
          (put (codes "timestamp") (string r.timestamp) [])))

  unfoldable pub redact_credentials : List (Text × V) → List (Text × V)
  unfolding is_credential_field
  redact_credentials [] = []
  redact_credentials ((k, v) ∷ m) =
      (k, if is_credential_field k then string redacted else v) ∷ redact_credentials m
