-- ===== src/Modem/Session.antt =====
-- service/src/modem/session.rs: the loop of a session. What the loop finds at each turn, whether the
-- status is due, and a request, a line or the end of the channel, is an argument.
pub mod Budget
pub mod Drain
pub mod Replies
use green_relay.Prelude.{
  ℕ, zero, suc, ◌+◌, Bool, true, false, not, List, [], ◌∷◌, ◌++◌, Option, none, some, if◌then◌else◌,
  length, Result,
}
use green_relay.Text.{Text}
use green_relay.Health.{ModemStatusSnapshot}
use green_relay.Modem.Protocol.Line.{AtExchange}
use green_relay.Modem.Protocol.Inbound.{parse_cmti_index}
use green_relay.Modem.Io.{
  IoError, Reading, line, elapsed, lost, World, Io, after, ◌>>=◌, ◌>>◌, pure,
}
use green_relay.Modem.Transport.{exchange, is_timeout}
use green_relay.Modem.Setup.{refresh_status}
use green_relay.Modem.Send.{SendConfig, SendResult, handle_send}
use green_relay.Modem.Inbox.{push_index, scan_cmti, handle_inbound}

pub data ModemRequest : Type 0 where
  raw : Text → ModemRequest
  send_sms : Text → Text → ModemRequest

-- what is sent back over the channel of a request
pub data Reply : Type 0 where
  raw_reply : AtExchange → Reply
  send_reply : SendResult → Reply

-- what `tokio::select!` finds first
pub data Found : Type 0 where
  request : ModemRequest → Found
  reading : Reading → Found
  closed : Found

pub record Turn : Type 0 where
  pub due : Bool
  pub found : Found

pub data SessionOutcome : Type 0 where
  channel_closed disconnected : SessionOutcome

-- what the session works on, besides the port and the database
pub record Desk : Type 0 where
  pub status : ModemStatusSnapshot
  pub pending : List ℕ
  pub replies : List Reply

module _ {R E : Type 0} (show_error : E → Text) (insert_audit : R → Text → Text → R)
    (create_inbound_message : R → Text → Text → R × Result ℕ E) where
  abbrev pub read_next : Bool → List ℕ → (List ℕ → Io R (List ℕ)) → Io R (List ℕ)
  read_next has_events [] again = pure []
  read_next has_events (index ∷ pending) again = do
    pending' ←
        handle_inbound show_error insert_audit create_inbound_message index has_events pending
    again pending'

  -- the loop over the pending indices, on fuel
  unfoldable pub drain_pending : ℕ → Bool → List ℕ → Io R (List ℕ)
  drain_pending zero has_events pending = pure pending
  drain_pending (suc fuel) has_events pending =
      read_next has_events pending (drain_pending fuel has_events)

  unfoldable pub handle_request : SendConfig → ModemRequest → Desk → Io R Desk
  handle_request cfg (raw cmd) desk = do
    ex ← exchange cmd
    pure (record {
      status = record desk.status { responsive = not (is_timeout ex.result) };
      pending = scan_cmti ex.lines desk.pending;
      replies = desk.replies ++ raw_reply ex ∷ [];
    })
  handle_request cfg (send_sms to body) desk = do
    result ← handle_send insert_audit cfg desk.status to body
    pure (record desk { replies = desk.replies ++ send_reply result ∷ [] })

  -- a line outside an exchange
  abbrev pub take_line : Text → Desk → Desk
  take_line l desk = record desk { pending = push_index (parse_cmti_index l) desk.pending }

  abbrev pub refresh_if : Bool → Desk → Io R Desk
  refresh_if due desk =
      if due
      then (do status ← refresh_status; pure (record desk { status = status }))
      else pure desk

  -- the world, the desk, and how the session ended, if it did
  abbrev pub Run : Type 0
  Run = World R × Desk × Option SessionOutcome

  -- The answer to a request that is cut short by the loss of the port is never sent.
  abbrev pub on_request : Desk → (Desk → World R → Run) → World R × Result Desk IoError → Run
  on_request desk rest (w, Result.ok desk') = rest desk' w
  on_request desk rest (w, Result.err e) = (w, desk, some disconnected)

  abbrev pub on_found : SendConfig → Found → Desk → (Desk → World R → Run) → World R → Run
  on_found cfg (request r) desk rest w = on_request desk rest (handle_request cfg r desk w)
  on_found cfg (reading (line l)) desk rest w = rest (take_line l desk) w
  on_found cfg (reading elapsed) desk rest w = rest desk w
  on_found cfg (reading lost) desk rest w = (w, desk, some disconnected)
  on_found cfg closed desk rest w = (w, desk, some channel_closed)

  abbrev pub on_refresh :
      SendConfig → Found → Desk → (Desk → World R → Run) → World R × Result Desk IoError → Run
  on_refresh cfg found desk rest (w, Result.ok desk') = on_found cfg found desk' rest w
  on_refresh cfg found desk rest (w, Result.err e) = (w, desk, some disconnected)

  abbrev pub on_drain :
      SendConfig → Turn → Desk → (Desk → World R → Run) → World R × Result (List ℕ) IoError → Run
  on_drain cfg turn desk rest (w, Result.ok pending) =
      let desk' = record desk { pending = pending } in
      on_refresh cfg turn.found desk' rest (refresh_if turn.due desk' w)
  on_drain cfg turn desk rest (w, Result.err e) = (w, desk, some disconnected)

  -- `run_session_inner`, for the turns given; there are fewer indices to read than the fuel of
  -- `drain_pending`
  unfoldable pub run_session : SendConfig → Bool → List Turn → Desk → World R → Run
  run_session cfg has_events [] desk w = (w, desk, none)
  run_session cfg has_events (turn ∷ turns) desk w =
      on_drain cfg turn desk (run_session cfg has_events turns)
        (drain_pending (length desk.pending + length w.readings) has_events desk.pending w)
