-- ===== src/Modem/Session/Replies.antt =====
-- service/src/modem/session.rs: the requests of a session and the replies to them.
use green_relay.Prelude.{
  ℕ, suc, ◌+◌, ◌≡◌, refl, Bool, true, false, not, List, [], ◌∷◌, ◌++◌, Option, none, some, length,
  length-append, Result, arith,
}
use green_relay.Text.{Text}
use green_relay.Modem.Io.{line, elapsed, lost, IoError, World, Io, after, pure}
use green_relay.Modem.Transport.{exchange, is_timeout}
use green_relay.Modem.Inbox.{scan_cmti}
use green_relay.Modem.Setup.{refresh_status}
use green_relay.Modem.Send.{SendConfig, handle_send}
use green_relay.Modem.Session.{
  ModemRequest, raw, send_sms, raw_reply, send_reply, Found, request, reading, closed, Turn,
  SessionOutcome, Desk, handle_request, take_line, refresh_if, on_request, on_found, on_refresh,
  on_drain, drain_pending, run_session,
}

abbrev pub is_request : Found → ℕ
is_request (request r) = 1
is_request (reading r) = 0
is_request closed = 0

-- the requests among the turns
abbrev pub requests : List Turn → ℕ
requests [] = 0
requests (turn ∷ turns) = is_request turn.found + requests turns

-- a run that has not ended has so many replies
abbrev pub Replied : {R : Type 0} → ℕ → World R × Desk × Option SessionOutcome → Type 0
Replied n (w, desk, none) = length desk.replies ≡ n
Replied n (w, desk, some outcome) = Unit

module _ {R E : Type 0} (show_error : E → Text) (insert_audit : R → Text → Text → R)
    (create_inbound_message : R → Text → Text → R × Result ℕ E) where
  -- a step that succeeds leaves so many replies
  abbrev Leaves : ℕ → World R × Result Desk IoError → Type 0
  Leaves n (w, Result.ok desk) = length desk.replies ≡ n
  Leaves n (w, Result.err e) = Unit

  after-Leaves :
      {A : Type 0} (n : ℕ) (f : A → Io R Desk) (p : World R × Result A IoError)
      → ((a : A) (w : World R) → Leaves n (f a w))
      → Leaves n (after f p)
  after-Leaves n f (w, Result.ok a) h = h a w
  after-Leaves n f (w, Result.err e) h = tt

  refresh-Leaves :
      (due : Bool) (desk : Desk) (w : World R)
      → Leaves
          (length desk.replies)
          (refresh_if show_error insert_audit create_inbound_message due desk w)
  refresh-Leaves true desk w =
      after-Leaves (length desk.replies) (λ status. pure (record desk { status = status }))
        (refresh_status w) (λ s v. refl)
  refresh-Leaves false desk w = refl

  handle_request-Leaves :
      (cfg : SendConfig) (r : ModemRequest) (desk : Desk) (w : World R)
      → Leaves
          (suc (length desk.replies))
          (handle_request show_error insert_audit create_inbound_message cfg r desk w)
  unfolding handle_request
  handle_request-Leaves cfg (raw cmd) desk w =
      after-Leaves (suc (length desk.replies))
        (λ ex. pure (record {
          status = record desk.status { responsive = not (is_timeout ex.result) };
          pending = scan_cmti ex.lines desk.pending;
          replies = desk.replies ++ raw_reply ex ∷ [];
        }))
        (exchange cmd w) (λ ex v. omega (arith, length-append desk.replies (raw_reply ex ∷ [])))
  handle_request-Leaves cfg (send_sms to body) desk w =
      after-Leaves (suc (length desk.replies))
        (λ result. pure (record desk { replies = desk.replies ++ send_reply result ∷ [] }))
        (handle_send insert_audit cfg desk.status to body w)
        (λ result v. omega (arith, length-append desk.replies (send_reply result ∷ [])))

  module _ (cfg : SendConfig) (n total : ℕ)
      (rest : Desk → World R → World R × Desk × Option SessionOutcome)
      (rest-Replied : (desk : Desk) (w : World R)
        → length desk.replies + n ≡ total
        → Replied total (rest desk w)) where
    on_request-Replied :
        (m : ℕ) (desk : Desk) (p : World R × Result Desk IoError)
        → m + n ≡ total
        → Leaves m p
        → Replied total (on_request show_error insert_audit create_inbound_message desk rest p)
    on_request-Replied m desk (w, Result.ok desk') e h = rest-Replied desk' w (omega (arith, e, h))
    on_request-Replied m desk (w, Result.err x) e h = tt

    on_found-Replied :
        (found : Found) (desk : Desk) (w : World R)
        → length desk.replies + (is_request found + n) ≡ total
        → Replied total
            (on_found show_error insert_audit create_inbound_message cfg found desk rest w)
    on_found-Replied (request r) desk w e =
        on_request-Replied (suc (length desk.replies)) desk
          (handle_request show_error insert_audit create_inbound_message cfg r desk w)
          (omega (arith, e)) (handle_request-Leaves cfg r desk w)
    on_found-Replied (reading (line l)) desk w e =
        rest-Replied (take_line show_error insert_audit create_inbound_message l desk) w
          (omega (arith, e))
    on_found-Replied (reading elapsed) desk w e = rest-Replied desk w (omega (arith, e))
    on_found-Replied (reading lost) desk w e = tt
    on_found-Replied closed desk w e = tt

    on_refresh-Replied :
        (found : Found) (m : ℕ) (desk : Desk) (p : World R × Result Desk IoError)
        → m + (is_request found + n) ≡ total
        → Leaves m p
        → Replied total
            (on_refresh show_error insert_audit create_inbound_message cfg found desk rest p)
    on_refresh-Replied found m desk (w, Result.ok desk') e h =
        on_found-Replied found desk' w (omega (arith, e, h))
    on_refresh-Replied found m desk (w, Result.err x) e h = tt

    on_drain-Replied :
        (turn : Turn) (desk : Desk) (p : World R × Result (List ℕ) IoError)
        → length desk.replies + (is_request turn.found + n) ≡ total
        → Replied total
            (on_drain show_error insert_audit create_inbound_message cfg turn desk rest p)
    on_drain-Replied turn desk (w, Result.ok pending) e =
        let desk' : Desk = record desk { pending = pending } in
        on_refresh-Replied turn.found (length desk.replies) desk'
          (refresh_if show_error insert_audit create_inbound_message turn.due desk' w) e
          (refresh-Leaves turn.due desk' w)
    on_drain-Replied turn desk (w, Result.err x) e = tt

  run_session-total :
      (cfg : SendConfig) (has_events : Bool) (turns : List Turn) (total : ℕ) (desk : Desk)
      (w : World R)
      → length desk.replies + requests turns ≡ total
      → Replied total
          (run_session show_error insert_audit create_inbound_message cfg has_events turns desk w)
  unfolding run_session
  run_session-total cfg has_events [] total desk w e = omega (arith, e)
  run_session-total cfg has_events (turn ∷ turns) total desk w e =
      on_drain-Replied cfg (requests turns) total
        (run_session show_error insert_audit create_inbound_message cfg has_events turns)
        (run_session-total cfg has_events turns total) turn desk
        (drain_pending show_error insert_audit create_inbound_message
          (length desk.pending + length w.readings) has_events desk.pending w)
        e

  -- A session that has gone through its turns and has not ended has given one reply more for each
  -- request among them.
  pub run_session-Replied :
      (cfg : SendConfig) (has_events : Bool) (turns : List Turn) (desk : Desk) (w : World R)
      → Replied
          (length desk.replies + requests turns)
          (run_session show_error insert_audit create_inbound_message cfg has_events turns desk w)
  run_session-Replied cfg has_events turns desk w =
      run_session-total cfg has_events turns _ desk w refl
