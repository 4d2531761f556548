-- ===== src/Auth.antt =====
-- service/src/auth.rs: authentication by API key. SHA-256 and the store of keys are parameters; the
-- tracker is passed from call to call.
pub mod Hex
pub mod Laws
pub mod Attempts
pub mod Tests
use green_relay.Prelude.{
  ℕ, ◌+◌, ◌*◌, ◌/◌, ◌%◌, Bool, true, false, not, ◌&&◌, List, [], ◌∷◌, Option, none, some, ltb, leb,
  if◌then◌else◌, length, get_elem?,
}
use green_relay.Text.{Text, codes, as_bytes}
use green_relay.Lockout.{Policy, seconds, is_locked_out}
use green_relay.Lockout.Tracker.{Failures, record_failure, record_success, is_locked}

abbrev pub max_key_len : ℕ
max_key_len = 256

abbrev pub auth_policy : Policy
auth_policy = record {
  threshold = 5;
  window = seconds 60;
  duration = seconds 300;
  max_tracked = 50_000;
  max_failures = 32;
}

-- an id of a key is a row of the database and never negative
pub data AuthOutcome : Type 0 where
  authorized : ℕ → AuthOutcome
  unauthorized : AuthOutcome
  locked_out : AuthOutcome

abbrev pub hex_digits : Text
hex_digits = codes "0123456789abcdef"

-- `unwrap_or(&b'0')`
abbrev pub or_zero_digit : Option ℕ → ℕ
or_zero_digit none = 48
or_zero_digit (some d) = d

-- `b >> 4` and `b & 0x0f` of a byte
unfoldable pub to_hex : List ℕ → Text
to_hex [] = []
to_hex (b ∷ bytes) =
    or_zero_digit (get_elem? hex_digits (b / 16))
    ∷ or_zero_digit (get_elem? hex_digits (b % 16))
    ∷ to_hex bytes

unfoldable pub passes_guard : Text → Bool
passes_guard presented = let len = length presented in leb 1 len && leb len max_key_len

pub data AuthResult : Type 0 where
  result_authorized : AuthResult
  result_unauthorized : AuthResult
  result_locked_out : AuthResult

abbrev pub result_of : AuthOutcome → AuthResult
result_of (authorized id) = result_authorized
result_of unauthorized = result_unauthorized
result_of locked_out = result_locked_out

-- the time is passed through
pub record AuthAuditRecord : Type 0 where
  pub event_type : Text
  pub result : AuthResult
  pub identifier : Text
  pub timestamp : ℕ

unfoldable pub build_audit_record_with_identifier : Text → AuthOutcome → ℕ → AuthAuditRecord
build_audit_record_with_identifier key_id outcome at = record {
  event_type = codes "api_key_auth";
  result = result_of outcome;
  identifier = key_id;
  timestamp = at;
}

-- what is done with the answer of the store
abbrev pub conclude : Failures → Text → ℕ → Option ℕ → Failures × AuthOutcome
conclude tracker key_id now (some id) = (record_success tracker key_id, authorized id)
conclude tracker key_id now none = (record_failure auth_policy tracker key_id now, unauthorized)

unfoldable pub authenticate_identified :
    (Text → Option ℕ) → Text → Failures → ℕ → Failures × AuthOutcome
authenticate_identified lookup_active key_id tracker now =
    if is_locked (is_locked_out auth_policy) tracker key_id now
    then (tracker, locked_out)
    else conclude tracker key_id now (lookup_active key_id)

module _ (sha256 : List ℕ → List ℕ) where
  unfoldable pub key_identifier : Text → Text
  unfolding to_hex
  key_identifier presented_key = to_hex (sha256 (as_bytes presented_key))

  unfoldable pub authenticate : (Text → Option ℕ) → Text → Failures → ℕ → Failures × AuthOutcome
  unfolding passes_guard key_identifier authenticate_identified
  authenticate lookup_active presented tracker now =
      if not (passes_guard presented)
      then (tracker, unauthorized)
      else authenticate_identified lookup_active (key_identifier presented) tracker now

  unfoldable pub build_audit_record : Text → AuthOutcome → ℕ → AuthAuditRecord
  unfolding key_identifier build_audit_record_with_identifier
  build_audit_record presented outcome at =
      build_audit_record_with_identifier (key_identifier presented) outcome at
