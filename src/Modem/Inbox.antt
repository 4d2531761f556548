-- ===== src/Modem/Inbox.antt =====
-- service/src/modem/session.rs: reading, storing and deleting a message that came in. The storage
-- indices that are still to be read are a value here; the database's two operations are parameters.
pub mod Laws
use green_relay.Prelude.{
  ℕ, zero, suc, Bool, true, false, not, List, [], ◌∷◌, ◌++◌, Option, none, some, if◌then◌else◌,
  Result,
}
use green_relay.Text.{Text, codes}
use green_relay.Text.Decimal.{to_decimal}
use green_relay.Text.Split.{join_with}
use green_relay.Modem.Protocol.Line.{AtResult, AtExchange, is_ok, show_result}
use green_relay.Modem.Protocol.Inbound.{ParsedInbound, parse_cmgr, parse_cmti_index}
use green_relay.Modem.Io.{InboundSmsEvent, World, Io, after, ◌>>=◌, ◌>>◌, pure}
use green_relay.Modem.Transport.{exchange}

abbrev pub push_index : Option ℕ → List ℕ → List ℕ
push_index none pending = pending
push_index (some index) pending = pending ++ index ∷ []

unfoldable pub scan_cmti : List Text → List ℕ → List ℕ
scan_cmti [] pending = pending
scan_cmti (l ∷ lines) pending = scan_cmti lines (push_index (parse_cmti_index l) pending)

abbrev pub read_command : ℕ → Text
read_command index = codes "AT+CMGR=" ++ to_decimal index

abbrev pub delete_command : ℕ → Text
delete_command index = codes "AT+CMGD=" ++ to_decimal index

abbrev pub message_in : AtExchange → Option ParsedInbound
message_in ex = if is_ok ex.result then parse_cmgr (join_with b'\n' ex.lines) else none

module _ {R : Type 0} where
  abbrev pub read_again :
      List ℕ
      → Option ParsedInbound
      → Io R (List ℕ × Option ParsedInbound)
      → Io R (List ℕ × Option ParsedInbound)
  read_again pending none again = again
  read_again pending (some message) again = pure (pending, some message)

  -- the loop over the attempts, with so many left
  unfoldable pub read_inbound : ℕ → ℕ → List ℕ → Io R (List ℕ × Option ParsedInbound)
  unfolding scan_cmti
  read_inbound index zero pending = pure (pending, none)
  read_inbound index (suc left) pending = do
    ex ← exchange (read_command index)
    let pending' = scan_cmti ex.lines pending
    read_again pending' (message_in ex) (read_inbound index left pending')

  -- `show_error` is the `Display` of the database's error.
  module _ {E : Type 0} (show_error : E → Text) (insert_audit : R → Text → Text → R)
      (create_inbound_message : R → Text → Text → R × Result ℕ E) where
    abbrev pub audit_inbound : Text → Text → Io R Unit
    audit_inbound event detail w =
        (record w { rows = insert_audit w.rows event detail }, Result.ok tt)

    abbrev pub audit_delete : ℕ → AtExchange → Io R Unit
    audit_delete index delete =
        if not (is_ok delete.result)
        then audit_inbound (codes "inbound_delete_failed") (
            codes "AT+CMGD for index "
            ++ to_decimal index
            ++ codes " returned "
            ++ show_result delete.result)
        else pure tt

    abbrev pub publish_if : Bool → InboundSmsEvent → Io R Unit
    publish_if has_events event w =
        (if has_events then record w { published = w.published ++ event ∷ [] } else w, Result.ok tt)

    abbrev pub after_delete : ℕ → List ℕ → AtExchange → Io R (List ℕ)
    after_delete index pending delete = do
      audit_delete index delete
      pure (scan_cmti delete.lines pending)

    -- once the message is stored, or is not
    abbrev pub stored : ℕ → Bool → List ℕ → ParsedInbound → Result ℕ E → Io R (List ℕ)
    stored index has_events pending message (Result.ok id) = do
      publish_if has_events (record { id = id; from = message.sender; body = message.body })
      delete ← exchange (delete_command index)
      after_delete index pending delete
    stored index has_events pending message (Result.err e) = do
      audit_inbound (codes "inbound_persist_failed") (
          codes "persisting inbound at index "
          ++ to_decimal index
          ++ codes " failed: "
          ++ show_error e)
      pure pending

    abbrev pub store : ℕ → Bool → List ℕ → ParsedInbound → Io R (List ℕ)
    store index has_events pending message w =
        let (rows, result) = create_inbound_message w.rows message.sender message.body in
        stored index has_events pending message result (record w { rows = rows })

    abbrev pub after_read : ℕ → Bool → List ℕ × Option ParsedInbound → Io R (List ℕ)
    after_read index has_events (pending, some message) = store index has_events pending message
    after_read index has_events (pending, none) = do
      audit_inbound (codes "inbound_read_failed")
          (codes "AT+CMGR for index " ++ to_decimal index ++ codes " failed after 3 attempts")
      pure pending

    -- `handle_inbound_inner`; the result is what is still to be read
    unfoldable pub handle_inbound : ℕ → Bool → List ℕ → Io R (List ℕ)
    unfolding read_inbound
    handle_inbound index has_events pending = do
      found ← read_inbound index 3 pending
      after_read index has_events found
