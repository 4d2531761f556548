-- ===== src/Api.antt =====
-- service/src/api/mod.rs and service/src/error.rs (ApiError): responses, the state that the requests
-- share, and the headers that carry a key.
pub mod Middleware
pub mod Send
pub mod Read
pub mod Tests
use green_relay.Prelude.{
  ℕ, Bool, true, false, not, List, [], ◌∷◌, Option, none, some, if◌then◌else◌,
}
use green_relay.Text.{Text, codes, strip_prefix}
use green_relay.HashMap.{HashMap}
use green_relay.Models.{MessageStatus, OutboundMessage, InboundMessage}
use green_relay.Lockout.Tracker.{Failures}
use green_relay.Metrics.{Metrics}
use green_relay.Events.{ServiceEvent}
use green_relay.Db.{Store}
use green_relay.KeyCache.{KeyCache, Shared}

pub record ApiError : Type 0 where
  pub error : Text
  pub fields : List Text

pub record SendResponse : Type 0 where
  pub id : ℕ
  pub status : MessageStatus
  pub parts : ℕ

pub record SyncSendResponse : Type 0 where
  pub id : ℕ
  pub status : MessageStatus
  pub reference : Option Text
  pub parts : ℕ

pub record HealthResponse : Type 0 where
  pub health : Text
  pub serial_connected : Bool
  pub sim_status : Text

pub record StatusResponse : Type 0 where
  pub signal_percent : Option ℕ
  pub registered : Option Bool
  pub operator : Option Text
  pub unavailable : List Text

-- what is put into a body as JSON
pub data Body : Type 0 where
  failure : ApiError → Body
  queued_send : SendResponse → Body
  resolved_send : SyncSendResponse → Body
  inbound_list : List InboundMessage → Body
  outbound : OutboundMessage → Body
  health_body : HealthResponse → Body
  status_body : StatusResponse → Body

-- the status code, the two headers that are set by hand, and the body
pub record Response : Type 0 where
  pub code : ℕ
  pub retry_after : Option ℕ
  pub www_authenticate : Option Text
  pub body : Body

abbrev pub json : ℕ → Body → Response
json code body = record { code = code; retry_after = none; www_authenticate = none; body = body }

abbrev pub api_error : Text → List Text → Body
api_error error fields = failure (record { error = error; fields = fields })

abbrev pub json_with_retry_after : ℕ → ℕ → Body → Response
json_with_retry_after code retry_after_secs body = record {
  code = code;
  retry_after = some retry_after_secs;
  www_authenticate = none;
  body = body;
}

unfoldable pub unauthorized_response : Response
unauthorized_response = record {
  code = 401;
  retry_after = none;
  www_authenticate = some (codes "ApiKey, Bearer");
  body = api_error (codes "unauthorized") [];
}

abbrev pub internal_error : Response
internal_error = json 500 (api_error (codes "internal server error") [])

-- what is fixed when the service starts
pub record ApiConfig : Type 0 where
  pub retry_after_secs : ℕ
  pub default_rate_limit : ℕ
  pub rate_window : ℕ

-- what the requests change; the states of the rate limiter are those of its cache
pub record ApiState (L : Type 0) : Type 0 where
  pub shared : Shared
  pub auth_failures : Failures
  pub rate_limiter : L
  pub metrics : Metrics
  pub published : List ServiceEvent

abbrev pub set_metrics : {L : Type 0} → ApiState L → Metrics → ApiState L
set_metrics s m = record s { metrics = m }

-- the two headers, where their values are visible ASCII text
pub record Headers : Type 0 where
  pub x_api_key : Option Text
  pub authorization : Option Text

abbrev pub or_else : Option Text → Option Text → Option Text
or_else none o = o
or_else (some t) o = some t

abbrev pub unwrap_or : Option Text → Text → Text
unwrap_or none t = t
unwrap_or (some s) t = s

abbrev pub bearer_token : Text → Text
bearer_token value =
    unwrap_or
      (or_else (strip_prefix (codes "Bearer ") value) (strip_prefix (codes "bearer ") value)) value

abbrev pub from_authorization : Option Text → Option Text
from_authorization none = none
from_authorization (some value) = some (bearer_token value)

abbrev pub from_x_api_key : Option Text → Option Text → Option Text
from_x_api_key none a = from_authorization a
from_x_api_key (some []) a = from_authorization a
from_x_api_key (some (c ∷ s)) a = some (c ∷ s)

unfoldable pub extract_api_key : Headers → Option Text
unfolding strip_prefix
extract_api_key h = from_x_api_key h.x_api_key h.authorization
