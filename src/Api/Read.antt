-- ===== src/Api/Read.antt =====
-- service/src/api/v1.rs: the routes that read messages and the status.
pub mod Laws
use green_relay.Prelude.{
  ℕ, zero, suc, Bool, true, false, List, [], ◌∷◌, ◌++◌, Option, none, some, min, max, if◌then◌else◌,
  Result,
}
use green_relay.Text.{Text, codes}
use green_relay.Models.{OutboundMessage, InboundMessage, Rfc3339}
use green_relay.Health.{
  SimStatus, ready, unknown, ServiceHealth, healthy, degraded, unhealthy, ModemStatusSnapshot,
  derive_health,
}
use green_relay.Db.{Store, DbError, is_not_ready}
use green_relay.Db.Outbound.{get_outbound_message}
use green_relay.Db.Inbound.{list_inbound_messages}
use green_relay.Api.{
  HealthResponse, StatusResponse, inbound_list, outbound, health_body, status_body, Response, json,
  api_error, json_with_retry_after, internal_error, ApiConfig,
}

-- an `i64`; `negsuc n` is -(n + 1)
pub data ℤ : Type 0 where
  pos negsuc : ℕ → ℤ

abbrev pub default_page_limit : ℕ
default_page_limit = 100

abbrev pub max_page_limit : ℕ
max_page_limit = 1000

pub record Pagination : Type 0 where
  pub limit : Option ℤ
  pub offset : Option ℤ

-- `clamp(1, MAX_PAGE_LIMIT)` and `max(0)`
abbrev pub clamp : ℤ → ℕ
clamp (pos n) = min (max 1 n) max_page_limit
clamp (negsuc n) = 1

abbrev pub at_least_zero : ℤ → ℕ
at_least_zero (pos n) = n
at_least_zero (negsuc n) = 0

abbrev pub unwrap_or : Option ℤ → ℤ → ℤ
unwrap_or none d = d
unwrap_or (some n) d = n

unfoldable pub resolve : Pagination → ℕ × ℕ
resolve p =
    (clamp (unwrap_or p.limit (pos default_page_limit)), at_least_zero (unwrap_or p.offset (pos 0)))

unfoldable pub db_error_response : DbError → ℕ → Response
unfolding is_not_ready
db_error_response e retry_after_secs =
    if is_not_ready e
    then json_with_retry_after 503 retry_after_secs
        (api_error (codes "the service is not ready") [])
    else internal_error

unfoldable pub health_str : ServiceHealth → Text
health_str healthy = codes "healthy"
health_str degraded = codes "degraded"
health_str unhealthy = codes "unhealthy"

unfoldable pub sim_str : SimStatus → Text
sim_str ready = codes "ready"
sim_str SimStatus.not_ready = codes "not_ready"
sim_str unknown = codes "unknown"

abbrev pub health_code : ServiceHealth → ℕ
health_code unhealthy = 503
health_code healthy = 200
health_code degraded = 200

unfoldable pub build_health_response : ModemStatusSnapshot → ℕ × HealthResponse
unfolding derive_health health_str sim_str
build_health_response snapshot =
    let health = derive_health snapshot in
    (
      health_code health,
      record {
        health = health_str health;
        serial_connected = snapshot.serial_connected;
        sim_status = sim_str snapshot.sim_status;
      },
    )

-- a field that is missing is listed by its name
abbrev pub unless_some : {A : Type 0} → Option A → Text → List Text
unless_some none name = name ∷ []
unless_some (some a) name = []

unfoldable pub build_status_response : ModemStatusSnapshot → StatusResponse
build_status_response snapshot =
    let registered : Option Bool = if snapshot.responsive then some snapshot.registered else none in
    record {
      signal_percent = snapshot.signal_percent;
      registered = registered;
      operator = snapshot.operator;
      unavailable =
          unless_some snapshot.signal_percent (codes "signal")
          ++ (unless_some registered (codes "registration")
              ++ unless_some snapshot.operator (codes "operator"));
    }

unfoldable pub health_handler : ModemStatusSnapshot → Response
unfolding build_health_response
health_handler snapshot =
    let (code, body) = build_health_response snapshot in json code (health_body body)

unfoldable pub status_handler : ModemStatusSnapshot → Response
unfolding build_status_response
status_handler snapshot = json 200 (status_body (build_status_response snapshot))

module _ (chrono : Rfc3339) (config : ApiConfig) where
  abbrev pub listed : Store × Result (List InboundMessage) DbError → Store × Response
  listed (s, Result.ok messages) = (s, json 200 (inbound_list messages))
  listed (s, Result.err e) = (s, db_error_response e config.retry_after_secs)

  unfoldable pub inbound_handler : Pagination → Store → Store × Response
  unfolding resolve list_inbound_messages db_error_response
  inbound_handler page s =
      let (limit, offset) = resolve page in listed (list_inbound_messages chrono limit offset s)

  abbrev pub shown : Store × Result (Option OutboundMessage) DbError → Store × Response
  shown (s, Result.ok (some message)) = (s, json 200 (outbound message))
  shown (s, Result.ok none) = (s, json 404 (api_error (codes "message not found") []))
  shown (s, Result.err e) = (s, db_error_response e config.retry_after_secs)

  unfoldable pub outbound_status_handler : ℕ → Store → Store × Response
  unfolding get_outbound_message db_error_response
  outbound_status_handler id s = shown (get_outbound_message chrono id s)
