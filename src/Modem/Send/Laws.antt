-- ===== src/Modem/Send/Laws.antt =====
-- service/src/modem/session.rs: how much is written for a part.
use green_relay.Prelude.{ℕ, ◌+◌, ◌≤◌, ◌≡◌, ap, List, length, length-append, Result, arith}
use green_relay.Text.{Text}
use green_relay.Sms.Alphabet.{SmsEncoding}
use green_relay.Sms.Frame.{build_cmgs_header, build_cmgs_body}
use green_relay.Modem.Protocol.Line.{AtResult}
use green_relay.Modem.Io.{Reading, IoError, port_lost, World, Io, after}
use green_relay.Modem.Transport.{send_sms_part}
use green_relay.Modem.Transport.Laws.{
  Submission, no_prompt, answered, taken_back, lost_at_once, lost_waiting, lost_reverting,
  lost_collecting, lost_taking_back, send_sms_part-Submits,
}

Submission-short :
    (h b : List ℕ) (rs : List Reading) (writes : List (List ℕ)) (r : Result AtResult IoError)
    → Submission h b rs writes r
    → length writes ≤ 3
Submission-short h b rs writes r (no_prompt rest x) = omega arith
Submission-short h b rs writes r (answered rest rest' a x y e) = omega arith
Submission-short h b rs writes r (taken_back rest rest' x y) = omega arith
Submission-short h b rs writes r lost_at_once = omega arith
Submission-short h b rs writes r lost_waiting = omega arith
Submission-short h b rs writes r (lost_reverting rest x) = omega arith
Submission-short h b rs writes r (lost_collecting rest x) = omega arith
Submission-short h b rs writes r (lost_taking_back rest rest' x y) = omega arith

pub after_ok :
    {A B R : Type 0} (f : A → Io R B) (p : World R × Result A IoError) (a : A)
    → p.1 ≡ Result.ok a
    → after f p ≡ f a p.0
after_ok f (w, r) a e = ap (λ r. after f (w, r)) e

pub after_err :
    {A B R : Type 0} (f : A → Io R B) (p : World R × Result A IoError)
    → p.1 ≡ Result.err port_lost
    → after f p ≡ (p.0, Result.err port_lost)
after_err f (w, r) e = ap (λ r. after f (w, r)) e

module _ {R : Type 0} where
  pub send_sms_part-short :
      (to body : Text) (encoding : SmsEncoding) (w : World R)
      → length (send_sms_part to body encoding w).0.log ≤ length w.log + 3
  send_sms_part-short to body encoding w =
      let s = send_sms_part-Submits to body encoding w in
      omega (
        arith,
        ap {B = ℕ} length s.1,
        length-append w.log s.0,
        Submission-short (build_cmgs_header to encoding) (build_cmgs_body body encoding) w.readings
            s.0 _ s.2,
      )
