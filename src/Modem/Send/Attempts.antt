-- ===== src/Modem/Send/Attempts.antt =====
-- service/src/modem/session.rs: how often a part is submitted, and how that ends.
use green_relay.Prelude.{
  ℕ, zero, suc, ◌+◌, ◌*◌, ◌≤◌, ◌≡◌, refl, sym, true, false, ap, inl, inr, Option, none, length, max,
  Result, Bool-cases, arith,
}
use green_relay.Text.{Text, codes}
use green_relay.Sms.Alphabet.{SmsEncoding}
use green_relay.Modem.Protocol.Line.{AtExchange, parse_send_outcome}
use green_relay.Modem.Io.{IoError, port_lost, World}
use green_relay.Modem.Transport.{send_sms_part, is_timeout}
use green_relay.Modem.Transport.Laws.{Result-cases}
use green_relay.Modem.Send.{
  sent_result, failed_result, show_reference, SendResult, SendConfig, is_sent, attempt_part,
  send_part_with_retries,
}
use green_relay.Modem.Send.Laws.{after_ok, after_err, send_sms_part-short}

module _ {R : Type 0} (insert_audit : R → Text → Text → R) where
  module _ (to part : Text) (encoding : SmsEncoding) where
    -- The modem answered, but not that the part is sent.
    abbrev pub IsRefused : AtExchange → Type 0
    IsRefused ex =
        (is_sent (parse_send_outcome ex.lines).status ≡ false) × (is_timeout ex.result ≡ false)

    -- A number of submissions one after the other, all but the last refused, and how the last ends.
    pub data Attempts : ℕ → World R → World R × Result AtExchange IoError → Type 0 where
      last :
          (w : World R) (out : World R × Result AtExchange IoError)
          → send_sms_part to part encoding w ≡ out
          → Attempts 1 w out
      again :
          (n : ℕ) (w w' : World R) (ex : AtExchange) (out : World R × Result AtExchange IoError)
          → send_sms_part to part encoding w ≡ (w', Result.ok ex)
          → IsRefused ex
          → Attempts n w' out
          → Attempts (suc n) w out

    -- What the last of `n` submissions comes to: the loss of the port, a part that is sent, a timeout,
    -- which is not tried again, or a refusal, if there have been as many as are allowed.
    pub data Ends (limit n : ℕ) (r : Result AtExchange IoError) (out : Result SendResult IoError)
        : Type 0 where
      lost : r ≡ Result.err port_lost → out ≡ Result.err port_lost → Ends limit n r out
      confirmed :
          (ex : AtExchange)
          → r ≡ Result.ok ex
          → is_sent (parse_send_outcome ex.lines).status ≡ true
          → out ≡ Result.ok (sent_result (show_reference (parse_send_outcome ex.lines).reference))
          → Ends limit n r out
      timed_out :
          (ex : AtExchange)
          → r ≡ Result.ok ex
          → is_sent (parse_send_outcome ex.lines).status ≡ false
          → is_timeout ex.result ≡ true
          → out ≡ Result.ok (failed_result none (codes "timeout"))
          → Ends limit n r out
      used_up :
          (ex : AtExchange)
          → r ≡ Result.ok ex
          → IsRefused ex
          → n ≡ limit
          → out
            ≡ Result.ok (
                failed_result
                  (parse_send_outcome ex.lines).error_code
                  (codes "maximum send attempts exhausted"))
          → Ends limit n r out

    pub record IsTried (limit : ℕ) (w : World R) (out : World R × Result SendResult IoError)
        : Type 0 where
      pub n : ℕ
      pub some_attempt : 1 ≤ n
      pub allowed : n ≤ limit
      pub final : World R × Result AtExchange IoError
      pub attempts : Attempts n w final
      pub ends : Ends limit n final.1 out.1
      pub nothing_else : out.0.log ≡ final.0.log
      pub writes : length out.0.log ≤ length w.log + 3 * n

    once :
        (limit : ℕ) (w : World R) (out : World R × Result SendResult IoError)
        → 1 ≤ limit
        → Ends limit 1 (send_sms_part to part encoding w).1 out.1
        → out.0.log ≡ (send_sms_part to part encoding w).0.log
        → IsTried limit w out
    once limit w out h e same = record {
      n = 1;
      some_attempt = omega arith;
      allowed = h;
      final = send_sms_part to part encoding w;
      attempts = last w (send_sms_part to part encoding w) refl;
      ends = e;
      nothing_else = same;
      writes = omega (arith, send_sms_part-short to part encoding w, ap {B = ℕ} length same);
    }

    one_more :
        (limit : ℕ) (w w' : World R) (ex : AtExchange) (out : World R × Result SendResult IoError)
        → send_sms_part to part encoding w ≡ (w', Result.ok ex)
        → IsRefused ex
        → IsTried limit w' out
        → IsTried (suc limit) w out
    one_more limit w w' ex out e refused t = record {
      n = suc t.n;
      some_attempt = omega arith;
      allowed = omega (arith, t.allowed);
      final = t.final;
      attempts = again t.n w w' ex t.final e refused t.attempts;
      ends = elim t.ends [
        | lost a b ↦ lost a b
        | confirmed x a b c ↦ confirmed x a b c
        | timed_out x a b c d ↦ timed_out x a b c d
        | used_up x a b c d ↦ used_up x a b (ap suc c) d
      ];
      nothing_else = t.nothing_else;
      writes = omega (
        arith,
        t.writes,
        send_sms_part-short to part encoding w,
        ap (λ (x : World R × Result AtExchange IoError). length x.0.log) e,
      );
    }

    module _ (m : ℕ) where
      -- one attempt, if what follows a refusal is as it should be
      first_attempt :
          (left : ℕ) (code : Option ℕ) (w : World R)
          → ((w' : World R) (ex : AtExchange)
              → send_sms_part to part encoding w ≡ (w', Result.ok ex)
              → IsRefused ex
              → IsTried (suc left) w (
                  attempt_part insert_audit m to part encoding left
                    (parse_send_outcome ex.lines).error_code
                    w'))
          → IsTried (suc left) w (attempt_part insert_audit m to part encoding (suc left) code w)
      unfolding attempt_part
      first_attempt left code w rest =
          let s : World R × Result AtExchange IoError = send_sms_part to part encoding w in
          elim (Result-cases (send_sms_part to part encoding w).1) [
            | inr gone ↦
                rw (after_err _ (send_sms_part to part encoding w) gone)
                  (once (suc left) w _ (omega arith) (lost gone refl) refl)
            | inl (ex, q) ↦
                rw (after_ok _ (send_sms_part to part encoding w) ex q)
                  (elim (Bool-cases (is_sent (parse_send_outcome ex.lines).status)) [
                    | inl y ↦ rw y (once (suc left) w _ (omega arith) (confirmed ex q y refl) refl)
                    | inr y ↦ rw y (elim (Bool-cases (is_timeout ex.result)) [
                      | inl z ↦
                          rw z (once (suc left) w _ (omega arith) (timed_out ex q y z refl) refl)
                      | inr z ↦ rw z (rest s.0 ex (ap (λ r. (s.0, r)) q) (y, z))
                    ])
                  ])
          ]

      attempt_part-IsTried :
          (left : ℕ) (code : Option ℕ) (w : World R)
          → IsTried (suc left) w (attempt_part insert_audit m to part encoding (suc left) code w)
      unfolding attempt_part
      attempt_part-IsTried zero code w = first_attempt zero code w λ w' ex e refused.
          once 1 w _ (omega arith) (used_up ex (ap (λ x. x.1) e) refused refl refl)
            (ap (λ x. x.0.log) (sym e))
      attempt_part-IsTried (suc left) code w = first_attempt (suc left) code w λ w' ex e refused.
          one_more (suc left) w w' ex _ e refused
            (attempt_part-IsTried left (parse_send_outcome ex.lines).error_code w')

  at_least_one :
      (limit : ℕ) (to part : Text) (encoding : SmsEncoding) (w : World R)
      → 1 ≤ limit
      → IsTried to part encoding limit w
          (attempt_part insert_audit limit to part encoding limit none w)
  at_least_one zero to part encoding w h = absurd (omega (arith, h))
  at_least_one (suc left) to part encoding w h =
      attempt_part-IsTried to part encoding (suc left) left none w

  -- A part is submitted at least once and at most as many times as are configured; every submission
  -- but the last was answered and not sent; the last one loses the port, is sent, times out, or is
  -- refused, the last only when all attempts are used, and the result says which; nothing else is
  -- written, three times for each submission at most.
  pub send_part_with_retries-IsTried :
      (cfg : SendConfig) (to part : Text) (encoding : SmsEncoding) (w : World R)
      → IsTried to part encoding
          (max cfg.send_max_attempts 1)
          w
          (send_part_with_retries insert_audit cfg to part encoding w)
  unfolding send_part_with_retries
  send_part_with_retries-IsTried cfg to part encoding w =
      at_least_one (max cfg.send_max_attempts 1) to part encoding w (omega arith)
