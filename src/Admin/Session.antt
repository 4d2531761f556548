-- ===== src/Admin/Session.antt =====
-- service/src/admin/session.rs: the sessions of administrators, their anti-forgery tokens and the
-- limits of the login. The random tokens of a new session are arguments.
pub mod Lifetime
pub mod Csrf
use green_relay.Prelude.{
  ℕ, ◌+◌, ◌-◌, ◌*◌, Bool, true, false, not, ◌&&◌, List, [], ◌∷◌, Option, none, some, ltb, leb,
  if◌then◌else◌, length,
}
use green_relay.Text.{Text, as_bytes}
use green_relay.HashMap.{HashMap, get, insert, remove}
use green_relay.Lockout.{Policy, seconds}
use green_relay.Lockout.Tracker.{is_empty}
use green_relay.Admin.Bytes.{constant_time_eq}
use green_relay.Admin.Cookie.{session_idle_secs, session_token_from_headers}

abbrev pub session_idle_timeout : ℕ
session_idle_timeout = seconds session_idle_secs

pub record Session : Type 0 where
  pub admin_id : ℕ
  pub last_activity : ℕ
  pub csrf_token : Text

abbrev pub session_valid : Session → ℕ → Bool
session_valid session now = ltb (now - session.last_activity) session_idle_timeout

-- the constants of the login's lockout
abbrev pub admin_policy : Policy
admin_policy = record {
  threshold = 5;
  window = seconds (15 * 60);
  duration = seconds (15 * 60);
  max_tracked = 50_000;
  max_failures = 32;
}

abbrev pub SessionStore : Type 0
SessionStore = HashMap Session

-- with the two random tokens that are drawn
unfoldable pub create : SessionStore → ℕ → ℕ → Text → Text → SessionStore × Text
create sessions id now token csrf = (
  insert token (record { admin_id = id; last_activity = now; csrf_token = csrf }) sessions,
  token,
)

abbrev pub csrf_of : ℕ → Option Session → Option Text
csrf_of now none = none
csrf_of now (some session) = if session_valid session now then some session.csrf_token else none

-- `SessionStore::csrf_token`
unfoldable pub csrf_token_of : SessionStore → Text → ℕ → Option Text
csrf_token_of sessions token now = csrf_of now (get sessions token)

-- what `validate` does with what it finds
abbrev pub validate_found : SessionStore → Text → ℕ → Option Session → SessionStore × Option ℕ
validate_found sessions token now none = (sessions, none)
validate_found sessions token now (some session) =
    if session_valid session now
    then (insert token (record session { last_activity = now }) sessions, some session.admin_id)
    else (remove token sessions, none)

unfoldable pub validate : SessionStore → Text → ℕ → SessionStore × Option ℕ
validate sessions token now = validate_found sessions token now (get sessions token)

-- `SessionStore::remove`
abbrev pub remove_session : SessionStore → Text → SessionStore
remove_session sessions token = remove token sessions

unfoldable pub sweep_expired : SessionStore → ℕ → SessionStore
sweep_expired [] now = []
sweep_expired ((token, session) ∷ sessions) now =
    let rest = sweep_expired sessions now in
    if session_valid session now then (token, session) ∷ rest else rest

pub data Authz : Type 0 where
  authz_authorized : ℕ → Authz
  redirect : Authz

abbrev pub authz_of : Option ℕ → Authz
authz_of none = redirect
authz_of (some id) = authz_authorized id

abbrev pub authorize_token : SessionStore → ℕ → Option Text → SessionStore × Authz
authorize_token sessions now none = (sessions, redirect)
authorize_token sessions now (some token) =
    let (sessions', found) = validate sessions token now in (sessions', authz_of found)

-- The headers are those of `session_token_from_headers`.
unfoldable pub authorize : SessionStore → Option Text → ℕ → SessionStore × Authz
authorize sessions headers now = authorize_token sessions now (session_token_from_headers headers)

abbrev pub csrf_for_token : SessionStore → ℕ → Option Text → Option Text
csrf_for_token sessions now none = none
csrf_for_token sessions now (some token) = csrf_token_of sessions token now

unfoldable pub csrf_token_for_request : SessionStore → Option Text → ℕ → Option Text
csrf_token_for_request sessions headers now =
    csrf_for_token sessions now (session_token_from_headers headers)

abbrev pub csrf_matches : Text → Option Text → Bool
csrf_matches submitted none = false
csrf_matches submitted (some expected) =
    not (is_empty expected) && constant_time_eq (as_bytes expected) (as_bytes submitted)

unfoldable pub csrf_valid : SessionStore → Option Text → Text → ℕ → Bool
csrf_valid sessions headers submitted now =
    csrf_matches submitted (csrf_token_for_request sessions headers now)
