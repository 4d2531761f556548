-- ===== src/Modem/Send/Queued.antt =====
-- service/src/modem/session.rs: when a message is put back in the queue.
use green_relay.Prelude.{
  ℕ, zero, suc, ◌≡◌, refl, sym, ap, ◌∙◌, inl, inr, Bool, true, false, not, List, [], ◌∷◌, Option,
  none, max, Result, Bool-cases,
}
use green_relay.Text.{Text, codes}
use green_relay.Models.{MessageStatus, queued}
use green_relay.Health.{ModemStatusSnapshot}
use green_relay.Sms.Alphabet.{SmsEncoding, gsm7, ucs2, message_encoding}
use green_relay.Sms.Segment.{Segment, SegmentError, segment_message}
use green_relay.Modem.Protocol.Line.{AtExchange, SendOutcome, parse_send_outcome}
use green_relay.Modem.Io.{IoError, World, Io}
use green_relay.Modem.Transport.{send_sms_part, exchange, is_timeout}
use green_relay.Modem.Transport.Laws.{Result-cases}
use green_relay.Modem.Send.{
  SendResult, SendConfig, is_sent, can_deliver, after_attempt, attempt_part, send_part_with_retries,
  continue_sent, send_segments, send_all_segments, set_charset, send_encoded, send_segmented,
  handle_send,
}
use green_relay.Modem.Send.Laws.{after_ok, after_err}

abbrev pub is_queued_status : MessageStatus → Bool
is_queued_status queued = true
is_queued_status _ = false

abbrev pub is_queued : Result SendResult IoError → Bool
is_queued (Result.ok r) = is_queued_status r.status
is_queued (Result.err e) = false

module _ {R : Type 0} (insert_audit : R → Text → Text → R) where
  abbrev Unqueued : Io R SendResult → Type 0
  Unqueued m = (w : World R) → is_queued (m w).1 ≡ false

  attempt-Unqueued :
      (ex : AtExchange) (outcome : SendOutcome) (again : Io R SendResult)
      → Unqueued again
      → Unqueued (after_attempt insert_audit ex outcome again)
  attempt-Unqueued ex outcome again h w = elim (Bool-cases (is_sent outcome.status)) [
    | inl s ↦ rw s refl
    | inr f ↦
        rw f (elim (Bool-cases (is_timeout ex.result)) [ inl t ↦ rw t refl | inr e ↦ rw e (h w) ])
  ]

  part-Unqueued :
      (m : ℕ) (to part : Text) (encoding : SmsEncoding) (left : ℕ) (code : Option ℕ)
      → Unqueued (attempt_part insert_audit m to part encoding left code)
  unfolding attempt_part
  part-Unqueued m to part encoding zero code w = refl
  part-Unqueued m to part encoding (suc left) code w =
      elim (Result-cases (send_sms_part to part encoding w).1) [
        | inr lost ↦ rw (after_err _ (send_sms_part to part encoding w) lost) refl
        | inl ex ↦
            let outcome = parse_send_outcome ex.0.lines in
            rw (after_ok _ (send_sms_part to part encoding w) ex.0 ex.1) (
              attempt-Unqueued ex.0 outcome
                (attempt_part insert_audit m to part encoding left outcome.error_code)
                (part-Unqueued m to part encoding left outcome.error_code)
                (send_sms_part to part encoding w).0)
      ]

  retries-Unqueued :
      (cfg : SendConfig) (to part : Text) (encoding : SmsEncoding)
      → Unqueued (send_part_with_retries insert_audit cfg to part encoding)
  unfolding send_part_with_retries
  retries-Unqueued cfg to part encoding =
      part-Unqueued (max cfg.send_max_attempts 1) to part encoding (max cfg.send_max_attempts 1)
        none

  continue-Unqueued :
      (result : SendResult) (next : Io R SendResult)
      → is_queued_status result.status ≡ false
      → Unqueued next
      → Unqueued (continue_sent insert_audit result next)
  continue-Unqueued result next h k w = elim (Bool-cases (is_sent result.status)) [
    | inl s ↦ rw s (k w)
    | inr f ↦ rw f h
  ]

  segments-Unqueued :
      (cfg : SendConfig) (to : Text) (encoding : SmsEncoding) (segments : List Segment)
      (reference : Option Text)
      → Unqueued (send_segments insert_audit cfg to encoding reference segments)
  unfolding send_segments
  segments-Unqueued cfg to encoding [] reference w = refl
  segments-Unqueued cfg to encoding (segment ∷ segments) reference w =
      let part = send_part_with_retries insert_audit cfg to segment.text encoding w in
      elim (Result-cases part.1) [
        | inr lost ↦ rw (after_err _ part lost) refl
        | inl r ↦ rw (after_ok _ part r.0 r.1) (
            continue-Unqueued r.0
              (send_segments insert_audit cfg to encoding r.0.reference segments)
              (ap is_queued (sym r.1) ∙ retries-Unqueued cfg to segment.text encoding w)
              (segments-Unqueued cfg to encoding segments r.0.reference) part.0)
      ]

  encoded-Unqueued :
      (cfg : SendConfig) (to : Text) (encoding : SmsEncoding) (segments : List Segment)
      → Unqueued (send_encoded insert_audit cfg to encoding segments)
  unfolding send_encoded send_all_segments
  encoded-Unqueued cfg to gsm7 segments w = segments-Unqueued cfg to gsm7 segments none w
  encoded-Unqueued cfg to ucs2 segments w =
      let set = set_charset insert_audit (codes "UCS2") (codes "17,167,0,8") w in
      elim (Result-cases set.1) [
        | inr lost ↦ rw (after_err _ set lost) refl
        | inl r ↦ rw (after_ok _ set r.0 r.1) (segments-Unqueued cfg to ucs2 segments none set.0)
      ]

  segmented-Unqueued :
      (cfg : SendConfig) (to : Text) (encoding : SmsEncoding)
      (r : Result (List Segment) SegmentError)
      → Unqueued (send_segmented insert_audit cfg to encoding r)
  unfolding send_segmented
  segmented-Unqueued cfg to encoding (Result.err e) w = refl
  segmented-Unqueued cfg to encoding (Result.ok segments) w =
      let mode = exchange (codes "AT+CMGF=1") w in
      elim (Result-cases mode.1) [
        | inr lost ↦ rw (after_err _ mode lost) refl
        | inl r ↦ rw (after_ok _ mode r.0 r.1) (encoded-Unqueued cfg to encoding segments mode.0)
      ]

  -- A message is given back as queued exactly when the SIM is not ready or the modem not
  -- registered.
  pub handle_send-is_queued :
      (cfg : SendConfig) (status : ModemStatusSnapshot) (to body : Text) (w : World R)
      → is_queued (handle_send insert_audit cfg status to body w).1 ≡ not (can_deliver status)
  unfolding handle_send
  handle_send-is_queued cfg status to body w = elim (Bool-cases (can_deliver status)) [
    | inl good ↦
        rw good (segmented-Unqueued cfg to (message_encoding body) (segment_message body) w)
    | inr bad ↦ rw bad refl
  ]
