-- ===== src/Modem/Inbox/Laws.antt =====
-- service/src/modem/session.rs: what is written for a message that came in.
use mathlib.Core.List.{append_assoc, append-nil}
use green_relay.Prelude.{
  ℕ, zero, suc, ◌≡◌, refl, sym, ap, ◌∙◌, inl, inr, Bool, List, [], ◌∷◌, ◌++◌, Option, none, some,
  All, All-append, Result,
}
use green_relay.Text.{Text, as_bytes}
use green_relay.Modem.Protocol.Inbound.{ParsedInbound}
use green_relay.Modem.Io.{World, Io, log_write}
use green_relay.Modem.Transport.{exchange}
use green_relay.Modem.Transport.Laws.{Result-cases, write_cases, collect_cases}
use green_relay.Modem.Send.Laws.{after_ok, after_err}
use green_relay.Modem.Inbox.{
  scan_cmti, read_command, message_in, read_again, read_inbound, store, after_read, handle_inbound,
}

-- the bytes of a command
abbrev pub sent_command : Text → List ℕ
sent_command cmd = as_bytes cmd ++ b'\r' ∷ []

module _ {R : Type 0} where
  -- All that was written is some command, however often.
  abbrev pub WritesOnly : Text → World R → World R → Type 0
  WritesOnly cmd w w' =
      (writes : List (List ℕ)) × (w'.log ≡ w.log ++ writes)
      × All (λ bytes. bytes ≡ sent_command cmd) writes

  then_only :
      (cmd : Text) (u v w : World R) → WritesOnly cmd u v → WritesOnly cmd v w → WritesOnly cmd u w
  then_only cmd u v w a b = (
    a.0 ++ b.0,
    b.1 ∙ ap (λ l. l ++ b.0) a.1 ∙ append_assoc u.log a.0 b.0,
    All-append (λ bytes. bytes ≡ sent_command cmd) a.0 b.0 a.2 b.2,
  )

  exchange-only : (cmd : Text) (w : World R) → WritesOnly cmd w (exchange cmd w).0
  unfolding exchange
  exchange-only cmd w = elim (write_cases (sent_command cmd) w) [
    | inl fails ↦ rw fails ([], sym (append-nil w.log), tt)
    | inr written ↦
        let c = collect_cases cmd (log_write w (sent_command cmd)) in
        elim c.2 [
          | inl lost ↦ rw (written, lost) (sent_command cmd ∷ [], c.1, (refl, tt))
          | inr ex ↦ rw (written, ex.1) (sent_command cmd ∷ [], c.1, (refl, tt))
        ]
  ]

  read_again-only :
      (cmd : Text) (pending : List ℕ) (found : Option ParsedInbound)
      (again : Io R (List ℕ × Option ParsedInbound)) (w : World R)
      → WritesOnly cmd w (again w).0
      → WritesOnly cmd w (read_again pending found again w).0
  read_again-only cmd pending none again w h = h
  read_again-only cmd pending (some m) again w h = ([], sym (append-nil w.log), tt)

  read_inbound-only :
      (index left : ℕ) (pending : List ℕ) (w : World R)
      → WritesOnly (read_command index) w (read_inbound index left pending w).0
  unfolding read_inbound
  read_inbound-only index zero pending w = ([], sym (append-nil w.log), tt)
  read_inbound-only index (suc left) pending w =
      let out = exchange (read_command index) w in
      elim (Result-cases out.1) [
        | inr lost ↦ rw (after_err _ out lost) (exchange-only (read_command index) w)
        | inl ex ↦
            let pending' = scan_cmti ex.0.lines pending in
            rw (after_ok _ out ex.0 ex.1) (
              then_only (read_command index) w out.0
                (read_again pending' (message_in ex.0) (read_inbound index left pending') out.0).0
                (exchange-only (read_command index) w)
                (read_again-only (read_command index) pending' (message_in ex.0)
                  (read_inbound index left pending') out.0
                  (read_inbound-only index left pending' out.0)))
      ]

  module _ {E : Type 0} (show_error : E → Text) (insert_audit : R → Text → Text → R)
      (create_inbound_message : R → Text → Text → R × Result ℕ E) (e : E)
      (refused : (rows : R) (sender body : Text)
        → (create_inbound_message rows sender body).1 ≡ Result.err e) where
    store-quiet :
        (index : ℕ) (has_events : Bool) (pending : List ℕ) (message : ParsedInbound) (w : World R)
        → (store show_error insert_audit create_inbound_message index has_events pending message
            w).0.log
          ≡ w.log
    store-quiet index has_events pending message w =
        rw (refused w.rows message.sender message.body) refl

    after_read-quiet :
        (index : ℕ) (has_events : Bool) (found : List ℕ × Option ParsedInbound) (w : World R)
        → (after_read show_error insert_audit create_inbound_message index has_events found w).0.log
          ≡ w.log
    after_read-quiet index has_events (pending, none) w = refl
    after_read-quiet index has_events (pending, some message) w =
        store-quiet index has_events pending message w

    -- As long as the database refuses every message, nothing but the command to read it is written
    -- for an incoming message: it is not deleted before it is stored.
    pub handle_inbound-kept :
        (index : ℕ) (has_events : Bool) (pending : List ℕ) (w : World R)
        → WritesOnly
            (read_command index)
            w
            (handle_inbound show_error insert_audit create_inbound_message index has_events pending
              w).0
    unfolding handle_inbound
    handle_inbound-kept index has_events pending w =
        let out = read_inbound index 3 pending w in
        let only = read_inbound-only index 3 pending w in
        elim (Result-cases out.1) [
          | inr lost ↦ rw (after_err _ out lost) only
          | inl found ↦
              rw (after_ok _ out found.0 found.1)
                (only.0, after_read-quiet index has_events found.0 out.0 ∙ only.1, only.2)
        ]
