-- ===== src/Api/Tests.antt =====
-- Examples for service/src/api/mod.rs and service/src/api/v1.rs.
use green_relay.Prelude.{ℕ, ◌≢◌, true, List, [], none, some}
use green_relay.Text.{codes}
use green_relay.Models.{sent}
use green_relay.Health.{ModemStatusSnapshot, ready}
use green_relay.Modem.Send.{SendResult}
use green_relay.RateLimit.Tests.{windows}
use green_relay.Metrics.{Metrics}
use green_relay.Db.Tests.{numbers, store}
use green_relay.KeyCache.Tests.{empty_cache}
use green_relay.Api.{ApiConfig, ApiState, Headers, json, api_error}
use green_relay.Api.Middleware.{Handler, AuthContext, auth_middleware}
use green_relay.Api.Middleware.Laws.{Authed, auth_middleware-Authed}
use green_relay.Api.Send.{SendRequest, prepare_send, dispatch_send}
use green_relay.Api.Send.Laws.{Verdict, prepare_send-Verdict}
use green_relay.Api.Send.Dispatch.{Agrees, dispatch_send-Agrees}
use green_relay.Api.Read.{Pagination, outbound_status_handler, inbound_handler}
use green_relay.Api.Read.Laws.{read_routes-ne-503}

abbrev none_counted : Metrics
none_counted = record {
  auth_failures = 0;
  rate_limited = 0;
  messages_accepted = 0;
  messages_sent = 0;
  messages_failed = 0;
}

abbrev api_config : ApiConfig
api_config = record { retry_after_secs = 30; default_rate_limit = 100; rate_window = 60 }

abbrev api_state : ApiState windows.States
api_state = record {
  shared = empty_cache;
  auth_failures = [];
  rate_limiter = λ k. none;
  metrics = none_counted;
  published = [];
}

-- a hash that is the text itself
abbrev no_hash : List ℕ → List ℕ
no_hash bytes = bytes

abbrev with_key : Headers
with_key = record { x_api_key = some (codes "sk_secret"); authorization = none }

abbrev answer_200 : AuthContext → Handler windows
answer_200 ctx s = (s, json 200 (api_error [] []))

auth_middleware-Authed_example :
    Authed windows no_hash with_key 9 api_state answer_200
      (auth_middleware windows no_hash with_key 9 answer_200 api_state)
auth_middleware-Authed_example =
    auth_middleware-Authed windows no_hash with_key 9 api_state answer_200

abbrev connected : ModemStatusSnapshot
connected = record {
  serial_connected = true;
  sim_status = ready;
  registered = true;
  responsive = true;
  signal_percent = some 80;
  operator = none;
}

abbrev request : SendRequest
request = record { to = some (codes "+491700000000"); body = some (codes "hello") }

abbrev api_on_store : ApiState windows.States
api_on_store = record api_state { shared = record { store = store; cache = [] } }

prepare_send-Verdict_example :
    Verdict numbers api_config 9 connected request api_on_store
      (prepare_send numbers api_config 9 connected request api_on_store)
prepare_send-Verdict_example =
    prepare_send-Verdict numbers api_config 9 connected request api_on_store

abbrev delivered : SendResult
delivered = record { status = sent; reference = some (codes "7"); error_code = none; error = none }

dispatch_send-Agrees_example :
    Agrees numbers api_config 9 1 delivered api_on_store sent
      (dispatch_send numbers api_config 9 1 delivered api_on_store)
dispatch_send-Agrees_example = dispatch_send-Agrees numbers api_config 9 1 delivered api_on_store

abbrev first_page : Pagination
first_page = record { limit = none; offset = none }

read_routes-ne-503_example :
    ((outbound_status_handler numbers api_config 1 store).1.code ≢ 503)
    × ((inbound_handler numbers api_config first_page store).1.code ≢ 503)
read_routes-ne-503_example = read_routes-ne-503 numbers api_config 1 first_page store
