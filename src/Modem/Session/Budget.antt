-- ===== src/Modem/Session/Budget.antt =====
-- service/src/modem: how many lines an exchange collects, and how many indices they bring.
use green_relay.Prelude.{
  ℕ, zero, suc, ◌+◌, ◌≤◌, inl, inr, not, List, [], ◌∷◌, ◌++◌, Option, none, some, length,
  length-append, Result, Bool-cases, arith,
}
use green_relay.Text.{Text, trim, as_bytes}
use green_relay.Lockout.Tracker.{is_empty}
use green_relay.Modem.Protocol.Line.{
  AtResult, LineClass, terminator, non_terminating, classify_line,
}
use green_relay.Modem.Protocol.Inbound.{ParsedInbound, parse_cmti_index}
use green_relay.Modem.Io.{Reading, line, elapsed, lost, IoError, World, Io, after, pure, log_write}
use green_relay.Modem.Transport.{
  Collected, keep_line, on_class, collect_in, collect_until_terminator, exchange,
}
use green_relay.Modem.Transport.Laws.{write_cases}
use green_relay.Modem.Inbox.{
  push_index, scan_cmti, read_command, message_in, read_again, read_inbound,
}

-- the lines that a loop collects are among the readings that it takes
abbrev Fits : ℕ → Collected (List Text × AtResult) → Type 0
Fits n (rest, Result.ok (lines, r)) = length lines + length rest ≤ n
Fits n (rest, Result.err e) = Unit

keep_line-length : (lines : List Text) (l : Text) → length (keep_line lines l) ≤ length lines + 1
keep_line-length lines l = elim (Bool-cases (not (is_empty (trim l)))) [
  | inl k ↦ rw k (omega (arith, length-append lines (l ∷ [])))
  | inr s ↦ rw s (omega arith)
]

Fits-more : (n m : ℕ) (c : Collected (List Text × AtResult)) → n ≤ m → Fits n c → Fits m c
Fits-more n m (rest, Result.ok (lines, r)) l h = omega (arith, l, h)
Fits-more n m (rest, Result.err e) l h = tt

on_class-Fits :
    (n : ℕ) (c : LineClass) (lines : List Text) (rest : List Reading)
    (more : Collected (List Text × AtResult))
    → length lines + length rest ≤ n
    → Fits n more
    → Fits n (on_class c lines rest more)
on_class-Fits n (terminator r) lines rest more h k = h
on_class-Fits n non_terminating lines rest more h k = k

collect_in-Fits :
    (lines : List Text) (rs : List Reading) → Fits (length lines + length rs) (collect_in lines rs)
unfolding collect_in
collect_in-Fits lines [] = omega arith
collect_in-Fits lines (elapsed ∷ rest) = omega arith
collect_in-Fits lines (lost ∷ rest) = tt
collect_in-Fits lines (line l ∷ rest) =
    on_class-Fits (length lines + suc (length rest)) (classify_line l) (lines ++ l ∷ []) rest _
      (omega (arith, length-append lines (l ∷ [])))
      (Fits-more (length (keep_line lines l) + length rest) (length lines + suc (length rest)) _
        (omega (arith, keep_line-length lines l)) (collect_in-Fits (keep_line lines l) rest))

pub scan_cmti-length :
    (lines : List Text) (pending : List ℕ)
    → length (scan_cmti lines pending) ≤ length pending + length lines
unfolding scan_cmti
scan_cmti-length [] pending = omega arith
scan_cmti-length (l ∷ lines) pending = omega (
  arith,
  scan_cmti-length lines (push_index (parse_cmti_index l) pending),
  pushed (parse_cmti_index l),
)
  where
    pushed : (o : Option ℕ) → length (push_index o pending) ≤ length pending + 1
    pushed none = omega arith
    pushed (some i) = omega (arith, length-append pending (i ∷ []))

module _ {R : Type 0} where
  -- The size of the result and the readings left are at most `n` together.
  abbrev pub Within : {A : Type 0} → ℕ → (A → ℕ) → World R × Result A IoError → Type 0
  Within n size (w, Result.ok a) = size a + length w.readings ≤ n
  Within n size (w, Result.err e) = Unit

  pub after-Within :
      {A B : Type 0} (n m : ℕ) (size : A → ℕ) (size' : B → ℕ) (f : A → Io R B)
      (p : World R × Result A IoError)
      → Within n size p
      → ((a : A) (w : World R) → size a + length w.readings ≤ n → Within m size' (f a w))
      → Within m size' (after f p)
  after-Within n m size size' f (w, Result.ok a) h k = k a w h
  after-Within n m size size' f (w, Result.err e) h k = tt

  Fits-Within :
      (v : World R) (n : ℕ) (c : Collected (List Text × AtResult))
      → Fits n c
      → Within n (λ x. length x.0) (record v { readings = c.0 }, c.1)
  Fits-Within v n (rest, Result.ok (lines, r)) h = h
  Fits-Within v n (rest, Result.err e) h = tt

  collect-Within :
      (cmd : Text) (w : World R)
      → Within (length w.readings) (λ ex. length ex.lines) (collect_until_terminator cmd w)
  unfolding collect_until_terminator
  collect-Within cmd w =
      let n = length w.readings in
      after-Within n n (λ x. length x.0) (λ ex. length ex.lines)
        (λ x. pure (record { command = cmd; lines = x.0; result = x.1 }))
        (record w { readings = (collect_in [] w.readings).0 }, (collect_in [] w.readings).1)
        (Fits-Within w n (collect_in [] w.readings) (
          Fits-more (0 + n) n (collect_in [] w.readings) (omega arith)
            (collect_in-Fits [] w.readings)))
        (λ x v h. h)

  pub exchange-Within :
      (cmd : Text) (w : World R)
      → Within (length w.readings) (λ ex. length ex.lines) (exchange cmd w)
  unfolding exchange
  exchange-Within cmd w = elim (write_cases (as_bytes cmd ++ b'\r' ∷ []) w) [
    | inl fails ↦ rw fails tt
    | inr written ↦ rw written (collect-Within cmd (log_write w (as_bytes cmd ++ b'\r' ∷ [])))
  ]

  pub Within-more :
      {A : Type 0} (n m : ℕ) (size : A → ℕ) (p : World R × Result A IoError)
      → n ≤ m
      → Within n size p
      → Within m size p
  Within-more n m size (w, Result.ok a) l h = omega (arith, l, h)
  Within-more n m size (w, Result.err e) l h = tt

  read_again-Within :
      (n : ℕ) (pending : List ℕ) (found : Option ParsedInbound)
      (again : Io R (List ℕ × Option ParsedInbound)) (w : World R)
      → length pending + length w.readings ≤ n
      → Within n (λ r. length r.0) (again w)
      → Within n (λ r. length r.0) (read_again pending found again w)
  read_again-Within n pending none again w h k = k
  read_again-Within n pending (some m) again w h k = h

  pub read_inbound-Within :
      (index left : ℕ) (pending : List ℕ) (w : World R)
      → Within
          (length pending + length w.readings)
          (λ r. length r.0)
          (read_inbound index left pending w)
  unfolding read_inbound
  read_inbound-Within index zero pending w = omega arith
  read_inbound-Within index (suc left) pending w =
      let n = length pending + length w.readings in
      after-Within (length w.readings) n (λ ex. length ex.lines) (λ r. length r.0)
        (λ ex.
          read_again (scan_cmti ex.lines pending) (message_in ex)
            (read_inbound index left (scan_cmti ex.lines pending)))
        (exchange (read_command index) w) (exchange-Within (read_command index) w)
        (λ ex v h.
          let pending' = scan_cmti ex.lines pending in
          let fits : length pending' + length v.readings ≤ n =
            omega (arith, scan_cmti-length ex.lines pending, h) in
          read_again-Within n pending' (message_in ex) (read_inbound index left pending') v fits (
            Within-more (length pending' + length v.readings) n (λ r. length r.0)
              (read_inbound index left pending' v) fits
              (read_inbound-Within index left pending' v)))
