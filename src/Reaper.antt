-- ===== src/Reaper.antt =====
-- service/src/lib.rs: `reap_queued_messages`, one cycle of it. The modem's answers are an argument.
pub mod Laws
pub mod Tests
use green_relay.Prelude.{ℕ, ◌-◌, ◌*◌, List, [], ◌∷◌, Option, none, some, Result}
use green_relay.Text.{Text}
use green_relay.Models.{MessageStatus, queued, sent, failed, OutboundMessage, Rfc3339}
use green_relay.Modem.Send.{SendResult}
use green_relay.Events.{ServiceEvent, message_status, publish}
use green_relay.Db.{Store, DbError}
use green_relay.Db.Outbound.{set_outbound_status, queued_outbound_messages}
use green_relay.Api.Send.{to_detail}

abbrev pub queued_reap_batch : ℕ
queued_reap_batch = 200

-- in nanoseconds
abbrev pub queued_reap_grace : ℕ
queued_reap_grace = 300 * 1000000000

pub record Reaped : Type 0 where
  pub store : Store
  pub published : List ServiceEvent

-- `clock` is the time at which the message of an id is marked
module _ (chrono : Rfc3339) (now : ℕ) (clock : ℕ → ℕ) where
  -- the change of status, whose error is ignored, and the event
  abbrev pub mark : ℕ → MessageStatus → Option Text → Option Text → Reaped → Reaped
  mark id status reference detail s = record {
    store = (set_outbound_status chrono (clock id) id status reference detail s.store).0;
    published =
        publish s.published
          (message_status (record { id = id; status = status; reference = reference }));
  }

  abbrev pub reap_by : ℕ → SendResult → MessageStatus → Reaped → Reaped
  reap_by id result sent s = mark id sent result.reference none s
  reap_by id result failed s = mark id failed none (to_detail result.error_code result.error) s
  reap_by id result queued s = s

  unfoldable pub reap_all : (Text → Text → SendResult) → List OutboundMessage → Reaped → Reaped
  unfolding set_outbound_status
  reap_all send [] s = s
  reap_all send (m ∷ ms) s =
      let result = send m.to_number m.body in reap_all send ms (reap_by m.id result result.status s)

  abbrev pub reap_found :
      (Text → Text → SendResult)
      → List ServiceEvent
      → Store × Result (List OutboundMessage) DbError
      → Reaped
  reap_found send published (store, Result.ok stuck) =
      reap_all send stuck (record { store = store; published = published })
  reap_found send published (store, Result.err e) = record { store = store; published = published }

  unfoldable pub reap_queued_messages : (Text → Text → SendResult) → Reaped → Reaped
  unfolding queued_outbound_messages reap_all
  reap_queued_messages send s = reap_found send s.published (
      queued_outbound_messages chrono (chrono.print (now - queued_reap_grace)) queued_reap_batch
        s.store)
