-- ===== src/Api/Send/Laws.antt =====
-- service/src/api/v1.rs: what `prepare_send` accepts, and what it leaves when it refuses.
use green_relay.Prelude.{
  ℕ, ◌==◌, ◌≡◌, refl, List, Option, none, some, inl, inr, length, leb, if◌then◌else◌, Result,
  Bool-cases,
}
use mathlib.Core.Path.{subst}
use green_relay.Text.{Text}
use green_relay.Models.{queued, OutboundMessage, Rfc3339}
use green_relay.Health.{
  ModemStatusSnapshot, DeliverabilityOutcome, deliverable, rejected, deliverability_gate,
}
use green_relay.Sms.Validate.{Checked, validate_e164, validate_body}
use green_relay.Sms.Segment.{Segment, Segmented, too_many_parts, segment_message}
use green_relay.Metrics.{record_message_accepted}
use green_relay.Db.{Store, DbError}
use green_relay.Db.Outbound.{new_row, create_outbound_message}
use green_relay.Db.Outbound.Laws.{
  Created, refused, created, create-Created, row_at, IsNumbered, create-row_at, create-fresh,
  create-IsNumbered,
}
use green_relay.Api.{ApiConfig, ApiState}
use green_relay.Api.Send.{
  SendRequest, SendDecision, PreparedSend, if_valid, prepare_fields, prepare_send, parts_of,
  with_parts, if_deliverable, recorded,
}

module _ {L : Type 0} (chrono : Rfc3339) (config : ApiConfig) (now : ℕ)
    (snapshot : ModemStatusSnapshot) where
  -- A send that is accepted: the request is valid, its body splits into the parts that are promised,
  -- the modem can deliver, and the row of the message is new and queued.
  pub record IsAccepted (request : SendRequest) (s s' : ApiState L) (p : PreparedSend)
      : Type 0 where
    pub to : request.to ≡ some p.to
    pub body : request.body ≡ some p.body
    pub number : validate_e164 p.to ≡ Result.ok tt
    pub text : validate_body p.body ≡ Result.ok tt
    pub split : (l : List Segment) × (segment_message p.body ≡ Result.ok l) × (length l ≡ p.parts)
    pub gate : deliverability_gate snapshot config.retry_after_secs ≡ deliverable
    pub stored :
        (j : ℕ)
        → IsNumbered s.shared.store.disk
        → row_at s'.shared.store.disk j ≡ (
            if p.id == j
            then some (new_row chrono p.to p.body queued p.parts now p.id)
            else row_at s.shared.store.disk j)
    pub fresh : IsNumbered s.shared.store.disk → row_at s.shared.store.disk p.id ≡ none
    pub numbered : IsNumbered s.shared.store.disk → IsNumbered s'.shared.store.disk
    pub counted : s'.metrics ≡ record_message_accepted s.metrics

  -- What a refused send leaves: no row is changed, and nothing is counted or published.
  pub record IsRefused (s s' : ApiState L) : Type 0 where
    pub disk : s'.shared.store.disk ≡ s.shared.store.disk
    pub metrics : s'.metrics ≡ s.metrics
    pub published : s'.published ≡ s.published

  abbrev pub Verdict :
      SendRequest → ApiState L → ApiState L × Result PreparedSend SendDecision → Type 0
  Verdict request s (s', Result.ok p) = IsAccepted request s s' p
  Verdict request s (s', Result.err d) = IsRefused s s'

  abbrev untouched : (s : ApiState L) → IsRefused s s
  untouched s = record { disk = refl; metrics = refl; published = refl }

  if_valid-Verdict :
      (request : SendRequest) (s : ApiState L) (c : Checked)
      (next : ApiState L × Result PreparedSend SendDecision)
      → (c ≡ Result.ok tt → Verdict request s next)
      → Verdict request s (if_valid chrono config s c next)
  if_valid-Verdict request s (Result.ok u) next h = h refl
  if_valid-Verdict request s (Result.err e) next h = untouched s

  module _ (to body : Text) (s : ApiState L) (number : validate_e164 to ≡ Result.ok tt)
      (text : validate_body body ≡ Result.ok tt) where
    abbrev request : SendRequest
    request = record { to = some to; body = some body }

    module _ (l : List Segment) (split : segment_message body ≡ Result.ok l)
        (gate : deliverability_gate snapshot config.retry_after_secs ≡ deliverable) where
      recorded-Verdict :
          (r : Store × Result OutboundMessage DbError)
          → create_outbound_message chrono now to body queued (length l) s.shared.store ≡ r
          → Verdict request s (recorded chrono config s to body (length l) r)
      recorded-Verdict (store, Result.ok m) e = record {
        to = refl;
        body = refl;
        number = number;
        text = text;
        split = (l, split, refl);
        gate = gate;
        stored = create-row_at chrono now to body queued (length l) s.shared.store store m e;
        fresh = create-fresh chrono now to body queued (length l) s.shared.store store m e;
        numbered = create-IsNumbered chrono now to body queued (length l) s.shared.store store m e;
        counted = refl;
      }
      recorded-Verdict (store, Result.err x) e =
          elim (subst (Created chrono now to body queued (length l) s.shared.store) e
            (create-Created chrono now to body queued (length l) s.shared.store)) [
              | refused y q d ↦ record { disk = d; metrics = refl; published = refl }
              | created t t' id q1 q2 q3 q4 ↦ cc
            ]

    gate-Verdict :
        (l : List Segment) (o : DeliverabilityOutcome)
        → segment_message body ≡ Result.ok l
        → deliverability_gate snapshot config.retry_after_secs ≡ o
        → Verdict request s (if_deliverable chrono config now s to body (length l) o)
    gate-Verdict l deliverable split e =
        recorded-Verdict l split e
          (create_outbound_message chrono now to body queued (length l) s.shared.store) refl
    gate-Verdict l (rejected retry) split e = untouched s

    parts-Verdict :
        (seg : Segmented)
        → segment_message body ≡ seg
        → Verdict request s (with_parts chrono config now snapshot s to body (parts_of seg))
    parts-Verdict (Result.err (too_many_parts n)) e = untouched s
    parts-Verdict (Result.ok l) e = elim (Bool-cases (leb (length l) 255)) [
      | inl y ↦ rw y (gate-Verdict l (deliverability_gate snapshot config.retry_after_secs) e refl)
      | inr y ↦ rw y (untouched s)
    ]

  prepare_fields-Verdict :
      (to body : Option Text) (s : ApiState L)
      → Verdict
          (record { to = to; body = body })
          s
          (prepare_fields chrono config now snapshot to body s)
  prepare_fields-Verdict none body s = untouched s
  prepare_fields-Verdict (some to) none s = untouched s
  prepare_fields-Verdict (some to) (some body) s =
      if_valid-Verdict (record { to = some to; body = some body }) s (validate_e164 to) _
        λ number.
          if_valid-Verdict (record { to = some to; body = some body }) s (validate_body body) _
            λ text. parts-Verdict to body s number text (segment_message body) refl

  -- A send that is accepted has a valid number and body, as many parts as it promises, a modem that
  -- can deliver and is counted once; where the ids of the messages ascend they go on doing so, no
  -- row had the id of the new one, which is queued, and every other row is as it was. One that is
  -- refused, on whatever path, changes no row and counts and publishes nothing.
  pub prepare_send-Verdict :
      (request : SendRequest) (s : ApiState L)
      → Verdict request s (prepare_send chrono config now snapshot request s)
  unfolding prepare_send
  prepare_send-Verdict request s = prepare_fields-Verdict request.to request.body s
