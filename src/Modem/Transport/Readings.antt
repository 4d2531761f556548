-- ===== src/Modem/Transport/Readings.antt =====
-- service/src/modem/transport.rs: what a port that is read until a prompt, or a result, has given.
use green_relay.Prelude.{
  ◌≡◌, refl, Bool, true, false, List, [], ◌∷◌, ◌++◌, Result, Bool-cases, inl, inr,
}
use green_relay.Text.{Text}
use green_relay.Modem.Protocol.Line.{
  AtResult, timeout, LineClass, terminator, non_terminating, classify_line, is_prompt,
}
use green_relay.Modem.Io.{Reading, line, elapsed, lost, IoError, port_lost}
use green_relay.Modem.Transport.{prompt_in, collect_in, on_class, keep_line, Collected}

-- The readings up to the first prompt, the end of the time or the loss of the port, whichever comes
-- first: whether a prompt came, and the readings that are left.
pub data Waits : List Reading → Result Bool IoError → List Reading → Type 0 where
  silent : Waits [] (Result.ok false) []
  time_up : (rest : List Reading) → Waits (elapsed ∷ rest) (Result.ok false) rest
  broken : (rest : List Reading) → Waits (lost ∷ rest) (Result.err port_lost) rest
  prompted :
      (l : Text) (rest : List Reading)
      → is_prompt l ≡ true
      → Waits (line l ∷ rest) (Result.ok true) rest
  passed_over :
      (l : Text) (rs rest : List Reading) (r : Result Bool IoError)
      → is_prompt l ≡ false
      → Waits rs r rest
      → Waits (line l ∷ rs) r rest

-- The readings up to the first line that ends a response, with its result; a time that is up before
-- it is a timeout.
pub data Collects : List Reading → Result AtResult IoError → List Reading → Type 0 where
  silent : Collects [] (Result.ok timeout) []
  time_up : (rest : List Reading) → Collects (elapsed ∷ rest) (Result.ok timeout) rest
  broken : (rest : List Reading) → Collects (lost ∷ rest) (Result.err port_lost) rest
  ended :
      (l : Text) (rest : List Reading) (r : AtResult)
      → classify_line l ≡ terminator r
      → Collects (line l ∷ rest) (Result.ok r) rest
  passed_over :
      (l : Text) (rs rest : List Reading) (r : Result AtResult IoError)
      → classify_line l ≡ non_terminating
      → Collects rs r rest
      → Collects (line l ∷ rs) r rest

pub prompt_in-Waits : (rs : List Reading) → Waits rs (prompt_in rs).1 (prompt_in rs).0
unfolding prompt_in
prompt_in-Waits [] = Waits.silent
prompt_in-Waits (elapsed ∷ rs) = Waits.time_up rs
prompt_in-Waits (lost ∷ rs) = Waits.broken rs
prompt_in-Waits (line l ∷ rs) = elim (Bool-cases (is_prompt l)) [
  | inl e ↦ rw e (Waits.prompted l rs e)
  | inr e ↦ rw e (Waits.passed_over l rs _ _ e (prompt_in-Waits rs))
]

-- the result alone, without the lines
abbrev pub collected_only : Result (List Text × AtResult) IoError → Result AtResult IoError
collected_only (Result.ok c) = Result.ok c.1
collected_only (Result.err e) = Result.err e

on_class-Collects :
    (k : LineClass) (l : Text) (lines : List Text) (rs : List Reading)
    (more : Collected (List Text × AtResult))
    → classify_line l ≡ k
    → Collects rs (collected_only more.1) more.0
    → Collects
        (line l ∷ rs)
        (collected_only (on_class k lines rs more).1)
        (on_class k lines rs more).0
on_class-Collects (terminator r) l lines rs more e h = Collects.ended l rs r e
on_class-Collects non_terminating l lines rs more e h = Collects.passed_over l rs more.0 _ e h

pub collect_in-Collects :
    (lines : List Text) (rs : List Reading)
    → Collects rs (collected_only (collect_in lines rs).1) (collect_in lines rs).0
unfolding collect_in
collect_in-Collects lines [] = Collects.silent
collect_in-Collects lines (elapsed ∷ rs) = Collects.time_up rs
collect_in-Collects lines (lost ∷ rs) = Collects.broken rs
collect_in-Collects lines (line l ∷ rs) =
    on_class-Collects (classify_line l) l (lines ++ l ∷ []) rs (collect_in (keep_line lines l) rs)
      refl (collect_in-Collects (keep_line lines l) rs)
