-- ===== src/Api/Send/Dispatch.antt =====
-- service/src/api/v1.rs: the delivery of a message leaves the database, the events, the counters and
-- the answer in agreement.
use green_relay.Prelude.{ℕ, ◌≡◌, refl, Bool, not, ◌&&◌, List, [], ◌∷◌, ◌++◌, Option, none}
use mathlib.Core.Path.{sym}
use mathlib.Core.List.{append-nil}
use green_relay.Text.{Text}
use green_relay.Models.{MessageStatus, queued, sent, failed, Rfc3339}
use green_relay.Modem.Send.{SendResult}
use green_relay.Metrics.{Metrics, record_message_sent, record_message_failed}
use green_relay.Events.{ServiceEvent, message_status}
use green_relay.Db.{succeeded}
use green_relay.Db.Outbound.{set_status, set_outbound_status}
use green_relay.Db.Outbound.Laws.{row_at}
use green_relay.Db.Outbound.Statuses.{changed, set_outbound_status-row_at}
use green_relay.Api.{ApiConfig, ApiState}
use green_relay.Api.Send.{DispatchOutcome, is_queued, to_detail, dispatch_by, dispatch_send}

-- the reference and the error that are stored with a status
abbrev pub reference_of : MessageStatus → SendResult → Option Text
reference_of sent r = r.reference
reference_of failed r = none
reference_of queued r = none

abbrev pub detail_of : MessageStatus → SendResult → Option Text
detail_of sent r = none
detail_of failed r = to_detail r.error_code r.error
detail_of queued r = none

abbrev pub count_status : MessageStatus → Metrics → Metrics
count_status sent m = record_message_sent m
count_status failed m = record_message_failed m
count_status queued m = m

abbrev pub events_of : ℕ → MessageStatus → Option Text → List ServiceEvent
events_of id queued reference = []
events_of id sent reference =
    message_status (record { id = id; status = sent; reference = reference }) ∷ []
events_of id failed reference =
    message_status (record { id = id; status = failed; reference = reference }) ∷ []

module _ {L : Type 0} (chrono : Rfc3339) (config : ApiConfig) (now id : ℕ) (result : SendResult)
    (s : ApiState L) where
  -- whether the database accepts the change of status
  abbrev pub is_stored : MessageStatus → Bool
  is_stored status =
      succeeded
        (set_outbound_status chrono now id status (reference_of status result)
          (detail_of status result) s.shared.store).1

  -- What a dispatch leaves: the row of the message, if it is there to be changed, has the status that
  -- is counted, published and answered; a message that stays queued changes nothing.
  pub record Agrees (status : MessageStatus) (r : ApiState L × DispatchOutcome) : Type 0 where
    pub answer : r.1.status ≡ status
    pub reference : r.1.reference ≡ reference_of status result
    pub rows :
        (j : ℕ)
        → row_at r.0.shared.store.disk j
          ≡ changed
              (not (is_queued status) && is_stored status)
              id
              (set_status status
                (reference_of status result)
                (detail_of status result)
                (chrono.print now))
              s.shared.store.disk
              j
    pub counters : r.0.metrics ≡ count_status status s.metrics
    pub events : r.0.published ≡ s.published ++ events_of id status (reference_of status result)

  dispatch_by-Agrees :
      (status : MessageStatus) → Agrees status (dispatch_by chrono config now id result status s)
  dispatch_by-Agrees sent = record {
    answer = refl;
    reference = refl;
    rows = set_outbound_status-row_at chrono now id sent result.reference none s.shared.store;
    counters = refl;
    events = refl;
  }
  dispatch_by-Agrees failed = record {
    answer = refl;
    reference = refl;
    rows =
        set_outbound_status-row_at chrono now id failed none
          (to_detail result.error_code result.error) s.shared.store;
    counters = refl;
    events = refl;
  }
  dispatch_by-Agrees queued = record {
    answer = refl;
    reference = refl;
    rows = λ j. refl;
    counters = refl;
    events = sym (append-nil s.published);
  }

  -- After the delivery of a message the answer has the status of the modem; for sent and failed the
  -- row of the message is changed to that status if the write succeeds, one event is published and
  -- one counter raised; for queued nothing is changed; the rows of all other messages are as they
  -- were.
  pub dispatch_send-Agrees : Agrees result.status (dispatch_send chrono config now id result s)
  unfolding dispatch_send
  dispatch_send-Agrees = dispatch_by-Agrees result.status
