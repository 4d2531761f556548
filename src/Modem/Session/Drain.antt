-- ===== src/Modem/Session/Drain.antt =====
-- service/src/modem/session.rs: the loop over the pending indices of a session.
use green_relay.Prelude.{
  ℕ, zero, suc, ◌+◌, ◌≤◌, ◌≡◌, refl, inl, inr, Bool, true, false, List, [], ◌∷◌, ◌++◌, Option, none,
  some, length, Result, Bool-cases, arith,
}
use green_relay.Text.{Text}
use green_relay.Modem.Protocol.Line.{AtExchange, is_ok}
use green_relay.Modem.Protocol.Inbound.{ParsedInbound}
use green_relay.Modem.Io.{IoError, World, Io, after}
use green_relay.Modem.Transport.{exchange}
use green_relay.Modem.Inbox.{
  delete_command, read_inbound, after_delete, stored, after_read, handle_inbound,
}
use green_relay.Modem.Session.{drain_pending}
use green_relay.Modem.Session.Budget.{
  Within, after-Within, exchange-Within, Within-more, read_inbound-Within, scan_cmti-length,
}

-- nothing is left to be read, unless the port was lost
abbrev pub IsDrained : Result (List ℕ) IoError → Type 0
IsDrained (Result.ok pending) = pending ≡ []
IsDrained (Result.err e) = Unit

module _ {R : Type 0} where
  module _ {E : Type 0} (show_error : E → Text) (insert_audit : R → Text → Text → R)
      (create_inbound_message : R → Text → Text → R × Result ℕ E) where
    after_delete-Within :
        (index : ℕ) (pending : List ℕ) (ex : AtExchange) (n : ℕ) (w : World R)
        → length pending + (length ex.lines + length w.readings) ≤ n
        → Within n length
            (after_delete show_error insert_audit create_inbound_message index pending ex w)
    after_delete-Within index pending ex n w h = elim (Bool-cases (is_ok ex.result)) [
      | inl fine ↦ rw fine (omega (arith, scan_cmti-length ex.lines pending, h))
      | inr wrong ↦ rw wrong (omega (arith, scan_cmti-length ex.lines pending, h))
    ]

    delete-Within :
        (index : ℕ) (pending : List ℕ) (w : World R)
        → Within (length pending + length w.readings) length (
            after
              (after_delete show_error insert_audit create_inbound_message index pending)
              (exchange (delete_command index) w))
    delete-Within index pending w =
        after-Within (length w.readings) (length pending + length w.readings)
          (λ ex. length ex.lines) length
          (after_delete show_error insert_audit create_inbound_message index pending)
          (exchange (delete_command index) w) (exchange-Within (delete_command index) w)
          (λ ex v k.
            after_delete-Within index pending ex (length pending + length w.readings) v
              (omega (arith, k)))

    stored-Within :
        (index : ℕ) (has_events : Bool) (pending : List ℕ) (message : ParsedInbound)
        (r : Result ℕ E) (w : World R)
        → Within (length pending + length w.readings) length (
            stored show_error insert_audit create_inbound_message index has_events pending message r
              w)
    stored-Within index has_events pending message (Result.err e) w = omega arith
    stored-Within index true pending message (Result.ok id) w =
        delete-Within index pending (record w {
          published =
              w.published ++ (record { id = id; from = message.sender; body = message.body }) ∷ [];
        })
    stored-Within index false pending message (Result.ok id) w = delete-Within index pending w

    after_read-Within :
        (n index : ℕ) (has_events : Bool) (found : List ℕ × Option ParsedInbound) (w : World R)
        → length found.0 + length w.readings ≤ n
        → Within n length
            (after_read show_error insert_audit create_inbound_message index has_events found w)
    after_read-Within n index has_events (pending, none) w h = h
    after_read-Within n index has_events (pending, some message) w h =
        let made = create_inbound_message w.rows message.sender message.body in
        Within-more (length pending + length w.readings) n length
          (stored show_error insert_audit create_inbound_message index has_events pending message
            made.1 (record w { rows = made.0 }))
          h (stored-Within index has_events pending message made.1 (record w { rows = made.0 }))

    handle_inbound-Within :
        (index : ℕ) (has_events : Bool) (pending : List ℕ) (w : World R)
        → Within (length pending + length w.readings) length (
            handle_inbound show_error insert_audit create_inbound_message index has_events pending
              w)
    unfolding handle_inbound
    handle_inbound-Within index has_events pending w =
        let n = length pending + length w.readings in
        after-Within n n (λ r. length r.0) length
          (after_read show_error insert_audit create_inbound_message index has_events)
          (read_inbound index 3 pending w) (read_inbound-Within index 3 pending w)
          (after_read-Within n index has_events)

    after-IsDrained :
        (n : ℕ) (f : List ℕ → Io R (List ℕ)) (p : World R × Result (List ℕ) IoError)
        → Within n length p
        → ((a : List ℕ) (w : World R) → length a + length w.readings ≤ n → IsDrained (f a w).1)
        → IsDrained (after f p).1
    after-IsDrained n f (w, Result.ok a) h k = k a w h
    after-IsDrained n f (w, Result.err e) h k = tt

    -- The loop over the pending indices ends with none left, or with the loss of the port: rounds
    -- as many as there are indices pending and readings to come are enough.
    pub drain_pending-IsDrained :
        (fuel : ℕ) (has_events : Bool) (pending : List ℕ) (w : World R)
        → length pending + length w.readings ≤ fuel
        → IsDrained
            (drain_pending show_error insert_audit create_inbound_message fuel has_events pending
              w).1
    unfolding drain_pending
    drain_pending-IsDrained zero has_events [] w h = refl
    drain_pending-IsDrained zero has_events (i ∷ pending) w h = absurd (omega (arith, h))
    drain_pending-IsDrained (suc fuel) has_events [] w h = refl
    drain_pending-IsDrained (suc fuel) has_events (i ∷ pending) w h =
        after-IsDrained (length pending + length w.readings)
          (drain_pending show_error insert_audit create_inbound_message fuel has_events)
          (handle_inbound show_error insert_audit create_inbound_message i has_events pending w)
          (handle_inbound-Within i has_events pending w)
          (λ a v k. drain_pending-IsDrained fuel has_events a v (omega (arith, h, k)))
