-- ===== src/Modem/Send.antt =====
-- service/src/modem/session.rs: sending a message in parts, with retries. The configuration's two
-- numbers and the database's audit are parameters; the pause before a retry has no effect here.
pub mod Laws
pub mod Attempts
pub mod Queued
use green_relay.Prelude.{
  ℕ, zero, suc, ◌-◌, Bool, true, false, not, ◌&&◌, List, [], ◌∷◌, ◌++◌, Option, none, some,
  if◌then◌else◌, ltb, max, Result,
}
use green_relay.Text.{Text, codes}
use green_relay.Text.Decimal.{to_decimal}
use green_relay.Models.{MessageStatus, queued, sent, failed}
use green_relay.Health.{ModemStatusSnapshot, is_ready}
use green_relay.Sms.Alphabet.{SmsEncoding, gsm7, ucs2, message_encoding}
use green_relay.Sms.Segment.{Segment, SegmentError, too_many_parts, segment_message}
use green_relay.Modem.Protocol.Line.{AtResult, AtExchange, SendOutcome, parse_send_outcome}
use green_relay.Modem.Io.{World, Io, after, ◌>>=◌, ◌>>◌, pure}
use green_relay.Modem.Transport.{exchange, send_sms_part, is_timeout}

pub record SendResult : Type 0 where
  pub status : MessageStatus
  pub reference : Option Text
  pub error_code : Option ℕ
  pub error : Option Text

abbrev pub sent_result : Option Text → SendResult
sent_result reference = record {
  status = sent;
  reference = reference;
  error_code = none;
  error = none;
}

abbrev pub failed_result : Option ℕ → Text → SendResult
failed_result code why = record {
  status = failed;
  reference = none;
  error_code = code;
  error = some why;
}

abbrev pub queued_result : SendResult
queued_result = record {
  status = queued;
  reference = none;
  error_code = none;
  error = some (codes "modem not ready for delivery; will retry");
}

abbrev pub is_sent : MessageStatus → Bool
is_sent sent = true
is_sent _ = false

abbrev pub show_reference : Option ℕ → Option Text
show_reference none = none
show_reference (some r) = some (to_decimal r)

-- `{last_code:?}`
abbrev pub show_code : Option ℕ → Text
show_code none = codes "None"
show_code (some c) = codes "Some(" ++ to_decimal c ++ codes ")"

-- `Display`
abbrev pub show_segment_error : SegmentError → Text
show_segment_error (too_many_parts required) =
    codes "message requires "
    ++ to_decimal required
    ++ codes " parts which exceeds the maximum of 10"

abbrev pub can_deliver : ModemStatusSnapshot → Bool
can_deliver s = is_ready s.sim_status && s.registered

-- the fields of the configuration that are used
pub record SendConfig : Type 0 where
  pub send_max_attempts : ℕ

-- the restoring after an outcome, which stands whatever becomes of it
abbrev pub then_restore : {R A B : Type 0} → Io R A → Io R B → Io R A
then_restore m restore w = let (w', outcome) = m w in ((restore w').0, outcome)

module _ {R : Type 0} (insert_audit : R → Text → Text → R) where
  -- An entry that cannot be written is only logged.
  abbrev pub audit : Text → Text → Io R Unit
  audit event detail w = (record w { rows = insert_audit w.rows event detail }, Result.ok tt)

  abbrev pub exhausted : ℕ → Option ℕ → Text
  exhausted max_attempts code =
      codes "send failed after "
      ++ to_decimal max_attempts
      ++ codes " attempts (last code "
      ++ show_code code
      ++ codes ")"

  -- what follows an attempt, with the attempts that are left
  abbrev pub after_attempt : AtExchange → SendOutcome → Io R SendResult → Io R SendResult
  after_attempt ex outcome again =
      if is_sent outcome.status
      then pure (sent_result (show_reference outcome.reference))
      else if is_timeout ex.result
      then (do
        audit (codes "send_failed") (codes "AT+CMGS timed out with no result")
        pure (failed_result none (codes "timeout")))
      else again

  -- the loop of `send_part_with_retries`, with so many attempts left
  unfoldable pub attempt_part : ℕ → Text → Text → SmsEncoding → ℕ → Option ℕ → Io R SendResult
  attempt_part max_attempts to part encoding zero last_code = do
    audit (codes "send_failed") (exhausted max_attempts last_code)
    pure (failed_result last_code (codes "maximum send attempts exhausted"))
  attempt_part max_attempts to part encoding (suc left) last_code = do
    ex ← send_sms_part to part encoding
    let outcome = parse_send_outcome ex.lines
    after_attempt ex outcome (attempt_part max_attempts to part encoding left outcome.error_code)

  unfoldable pub send_part_with_retries : SendConfig → Text → Text → SmsEncoding → Io R SendResult
  unfolding attempt_part
  send_part_with_retries cfg to part encoding =
      let max_attempts = max cfg.send_max_attempts 1 in
      attempt_part max_attempts to part encoding max_attempts none

  -- after a part: the next ones, or the end of the message
  abbrev pub continue_sent : SendResult → Io R SendResult → Io R SendResult
  continue_sent result next = if is_sent result.status then next else pure result

  -- the loop of `send_all_segments`, with the reference of the part before
  unfoldable pub send_segments :
      SendConfig → Text → SmsEncoding → Option Text → List Segment → Io R SendResult
  send_segments cfg to encoding last_reference [] = pure (sent_result last_reference)
  send_segments cfg to encoding last_reference (segment ∷ segments) = do
    result ← send_part_with_retries cfg to segment.text encoding
    continue_sent result (send_segments cfg to encoding result.reference segments)

  unfoldable pub send_all_segments :
      SendConfig → Text → List Segment → SmsEncoding → Io R SendResult
  unfolding send_segments
  send_all_segments cfg to segments encoding = send_segments cfg to encoding none segments

  unfoldable pub set_charset : Text → Text → Io R Unit
  set_charset cscs csmp = do
    exchange (codes "AT+CSCS=\"" ++ cscs ++ codes "\"")
    exchange (codes "AT+CSMP=" ++ csmp)
    pure tt

  -- the sending itself; for UCS2 between the two settings of the character set
  unfoldable pub send_encoded : SendConfig → Text → SmsEncoding → List Segment → Io R SendResult
  unfolding send_all_segments set_charset
  send_encoded cfg to gsm7 segments = send_all_segments cfg to segments gsm7
  send_encoded cfg to ucs2 segments = do
    set_charset (codes "UCS2") (codes "17,167,0,8")
    then_restore (send_all_segments cfg to segments ucs2)
        (set_charset (codes "IRA") (codes "17,167,0,0"))

  -- with the segments of the message, or the reason why it has none
  unfoldable pub send_segmented :
      SendConfig → Text → SmsEncoding → Result (List Segment) SegmentError → Io R SendResult
  unfolding send_encoded
  send_segmented cfg to encoding (Result.err e) = do
    audit (codes "send_failed") (codes "segmentation error: " ++ show_segment_error e)
    pure (failed_result none (show_segment_error e))
  send_segmented cfg to encoding (Result.ok segments) = do
    exchange (codes "AT+CMGF=1")
    send_encoded cfg to encoding segments

  unfoldable pub handle_send : SendConfig → ModemStatusSnapshot → Text → Text → Io R SendResult
  unfolding send_segmented
  handle_send cfg status to body =
      if not (can_deliver status)
      then pure queued_result
      else send_segmented cfg to (message_encoding body) (segment_message body)
