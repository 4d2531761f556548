-- ===== src/Api/Send.antt =====
-- service/src/api/v1.rs: the two routes that send a message. The modem's answer to a message is an
-- argument, and so is whether it comes within the wait of the synchronous route.
pub mod Laws
pub mod Dispatch
use green_relay.Prelude.{
  ℕ, Bool, true, false, not, ◌&&◌, List, [], ◌∷◌, ◌++◌, Option, none, some, leb, if◌then◌else◌,
  length, Result,
}
use green_relay.Text.{Text, codes}
use green_relay.Text.Decimal.{to_decimal}
use green_relay.Models.{MessageStatus, queued, sent, failed, OutboundMessage, Rfc3339}
use green_relay.Health.{
  ModemStatusSnapshot, DeliverabilityOutcome, deliverable, rejected, deliverability_gate,
}
use green_relay.Sms.Validate.{
  ValidationError, missing_fields, invalid_phone_number, body_empty, body_too_long, Checked,
  validate_e164, validate_body, check_required_fields,
}
use green_relay.Sms.Segment.{Segmented, too_many_parts, segment_message}
use green_relay.Modem.Send.{SendResult}
use green_relay.Metrics.{record_message_accepted, record_message_sent, record_message_failed}
use green_relay.Events.{MessageStatusEvent, message_status, publish}
use green_relay.Db.{Store, DbError, Sql, is_not_ready}
use green_relay.Db.Outbound.{create_outbound_message, set_outbound_status}
use green_relay.KeyCache.{Shared}
use green_relay.Api.{
  SendResponse, SyncSendResponse, queued_send, resolved_send, Response, json, api_error,
  json_with_retry_after, internal_error, ApiConfig, ApiState, set_metrics,
}

pub record SendRequest : Type 0 where
  pub to : Option Text
  pub body : Option Text

pub data SendDecision : Type 0 where
  accepted : SendResponse → SendDecision
  invalid : ValidationError → SendDecision
  too_many : ℕ → SendDecision
  gated : ℕ → SendDecision
  not_ready : ℕ → SendDecision
  server_error : SendDecision

unfoldable pub validation_response : ValidationError → Response
validation_response (missing_fields fields) =
    json 400 (api_error (codes "missing required fields") fields)
validation_response invalid_phone_number =
    json 400 (api_error (codes "phone number is not a valid E.164 number") (codes "to" ∷ []))
validation_response body_empty =
    json 400 (api_error (codes "message body must not be empty") (codes "body" ∷ []))
validation_response body_too_long =
    json 400
      (api_error (codes "message body exceeds the maximum allowed length") (codes "body" ∷ []))

-- `SendDecision::into_response`
unfoldable pub into_response : SendDecision → Response
unfolding validation_response to_decimal
into_response (accepted r) = json 202 (queued_send r)
into_response (invalid e) = validation_response e
into_response (too_many required) = json 400 (
    api_error
      (codes "message requires "
        ++ (to_decimal required ++ codes " parts which exceeds the maximum allowed"))
      (codes "body" ∷ []))
into_response (gated retry) =
    json_with_retry_after 503 retry
      (api_error (codes "the modem cannot deliver messages right now; retry later") [])
into_response (not_ready retry) =
    json_with_retry_after 503 retry
      (api_error (codes "the service is not ready to accept messages") [])
into_response server_error = internal_error

pub record PreparedSend : Type 0 where
  pub id : ℕ
  pub to : Text
  pub body : Text
  pub parts : ℕ

pub record DispatchOutcome : Type 0 where
  pub status : MessageStatus
  pub reference : Option Text

abbrev pub on_shared : {L : Type 0} → ApiState L → Store → ApiState L
on_shared s store = record s { shared = record (s.shared) { store = store } }

-- `.err().unwrap_or(MissingFields(vec![]))`
abbrev pub err_or_missing : Checked → ValidationError
err_or_missing (Result.ok u) = missing_fields []
err_or_missing (Result.err e) = e

-- `u8::try_from(segments.len())`
abbrev pub parts_of : Segmented → Result ℕ SendDecision
parts_of (Result.ok segments) =
    if leb (length segments) 255
    then Result.ok (length segments)
    else Result.err (too_many (length segments))
parts_of (Result.err (too_many_parts required)) = Result.err (too_many required)

abbrev pub is_queued : MessageStatus → Bool
is_queued queued = true
is_queued _ = false

abbrev pub to_detail : Option ℕ → Option Text → Option Text
to_detail none error = error
to_detail (some code) error = some (to_decimal code)

abbrev pub bad_json : Response
bad_json = json 400 (api_error (codes "request body must be valid JSON") [])

module _ {L : Type 0} (chrono : Rfc3339) (config : ApiConfig) where
  -- the row that `create_outbound_message` returns, or its error
  abbrev pub recorded :
      ApiState L
      → Text
      → Text
      → ℕ
      → Store × Result OutboundMessage DbError
      → ApiState L × Result PreparedSend SendDecision
  recorded s to body parts (store, Result.ok m) = (
    set_metrics (on_shared s store) (record_message_accepted s.metrics),
    Result.ok (record { id = m.id; to = to; body = body; parts = parts }),
  )
  recorded s to body parts (store, Result.err e) = (
    on_shared s store,
    Result.err (if is_not_ready e then not_ready config.retry_after_secs else server_error),
  )

  abbrev pub if_deliverable :
      ℕ
      → ApiState L
      → Text
      → Text
      → ℕ
      → DeliverabilityOutcome
      → ApiState L × Result PreparedSend SendDecision
  if_deliverable now s to body parts (rejected retry) = (s, Result.err (gated retry))
  if_deliverable now s to body parts deliverable =
      recorded s to body parts
        (create_outbound_message chrono now to body queued parts s.shared.store)

  abbrev pub with_parts :
      ℕ
      → ModemStatusSnapshot
      → ApiState L
      → Text
      → Text
      → Result ℕ SendDecision
      → ApiState L × Result PreparedSend SendDecision
  with_parts now snapshot s to body (Result.err d) = (s, Result.err d)
  with_parts now snapshot s to body (Result.ok parts) =
      if_deliverable now s to body parts (deliverability_gate snapshot config.retry_after_secs)

  abbrev pub if_valid :
      ApiState L
      → Checked
      → ApiState L × Result PreparedSend SendDecision
      → ApiState L × Result PreparedSend SendDecision
  if_valid s (Result.err e) next = (s, Result.err (invalid e))
  if_valid s (Result.ok u) next = next

  abbrev pub prepare_fields :
      ℕ
      → ModemStatusSnapshot
      → Option Text
      → Option Text
      → ApiState L
      → ApiState L × Result PreparedSend SendDecision
  prepare_fields now snapshot (some to) (some body) s = if_valid s (validate_e164 to) (
      if_valid s (validate_body body)
        (with_parts now snapshot s to body (parts_of (segment_message body))))
  prepare_fields now snapshot to body s =
      (s, Result.err (invalid (err_or_missing (check_required_fields to body))))

  unfoldable pub prepare_send :
      ℕ
      → ModemStatusSnapshot
      → SendRequest
      → ApiState L
      → ApiState L × Result PreparedSend SendDecision
  unfolding validate_e164 validate_body segment_message deliverability_gate create_outbound_message
      check_required_fields is_not_ready
  prepare_send now snapshot request s = prepare_fields now snapshot request.to request.body s

  abbrev pub answered : ApiState L × Result PreparedSend SendDecision → ApiState L × SendDecision
  answered (s, Result.err d) = (s, d)
  answered (s, Result.ok p) = (s, accepted (record { id = p.id; status = queued; parts = p.parts }))

  -- the dispatch that it starts is a step of its own
  unfoldable pub queue_send :
      ℕ → ModemStatusSnapshot → SendRequest → ApiState L → ApiState L × SendDecision
  unfolding prepare_send
  queue_send now snapshot request s = answered (prepare_send now snapshot request s)

  abbrev pub settle : ℕ → ℕ → MessageStatus → Option Text → Option Text → ApiState L → ApiState L
  settle now id status reference detail s =
      on_shared s (set_outbound_status chrono now id status reference detail s.shared.store).0

  abbrev pub announce : ℕ → MessageStatus → Option Text → ApiState L → ApiState L
  announce id status reference s = record s {
    published =
        publish s.published
          (message_status (record { id = id; status = status; reference = reference }));
  }

  abbrev pub dispatch_by :
      ℕ → ℕ → SendResult → MessageStatus → ApiState L → ApiState L × DispatchOutcome
  dispatch_by now id result sent s =
      let done = settle now id sent result.reference none s in
      (
        announce id sent result.reference (set_metrics done (record_message_sent done.metrics)),
        record { status = sent; reference = result.reference },
      )
  dispatch_by now id result failed s =
      let done = settle now id failed none (to_detail result.error_code result.error) s in
      (
        announce id failed none (set_metrics done (record_message_failed done.metrics)),
        record { status = failed; reference = none },
      )
  dispatch_by now id result queued s = (s, record { status = queued; reference = none })

  unfoldable pub dispatch_send : ℕ → ℕ → SendResult → ApiState L → ApiState L × DispatchOutcome
  unfolding set_outbound_status to_decimal
  dispatch_send now id result s = dispatch_by now id result result.status s

  abbrev pub respond : Bool → PreparedSend → ApiState L × DispatchOutcome → ApiState L × Response
  respond in_time p (s, outcome) =
      if in_time && not (is_queued outcome.status)
      then (
        s,
        json 200 (
            resolved_send (record {
              id = p.id;
              status = outcome.status;
              reference = outcome.reference;
              parts = p.parts;
            })),
      )
      else (s, json 202 (queued_send (record { id = p.id; status = queued; parts = p.parts })))

  abbrev pub dispatch_and_respond :
      ℕ
      → Bool
      → (Text → Text → SendResult)
      → ApiState L × Result PreparedSend SendDecision
      → ApiState L × Response
  dispatch_and_respond later in_time send (s, Result.err d) = (s, into_response d)
  dispatch_and_respond later in_time send (s, Result.ok p) =
      respond in_time p (dispatch_send later p.id (send p.to p.body) s)

  unfoldable pub sync_send :
      ℕ
      → ℕ
      → Bool
      → (Text → Text → SendResult)
      → ModemStatusSnapshot
      → SendRequest
      → ApiState L
      → ApiState L × Response
  unfolding prepare_send dispatch_send into_response
  sync_send now later in_time send snapshot request s =
      dispatch_and_respond later in_time send (prepare_send now snapshot request s)

  -- a body that is not JSON of the right form is `none`
  abbrev pub on_request :
      Option SendRequest
      → (SendRequest → ApiState L → ApiState L × Response)
      → ApiState L
      → ApiState L × Response
  on_request none handle s = (s, bad_json)
  on_request (some request) handle s = handle request s

  abbrev pub as_response : ApiState L × SendDecision → ApiState L × Response
  as_response (s, d) = (s, into_response d)

  unfoldable pub send_handler :
      ℕ → ModemStatusSnapshot → Option SendRequest → ApiState L → ApiState L × Response
  unfolding queue_send into_response
  send_handler now snapshot body =
      on_request body (λ request s. as_response (queue_send now snapshot request s))

  unfoldable pub send_sync_handler :
      ℕ
      → ℕ
      → Bool
      → (Text → Text → SendResult)
      → ModemStatusSnapshot
      → Option SendRequest
      → ApiState L
      → ApiState L × Response
  unfolding sync_send
  send_sync_handler now later in_time send snapshot body =
      on_request body (λ request s. sync_send now later in_time send snapshot request s)
