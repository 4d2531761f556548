-- ===== src/Modem/Transport.antt =====
-- service/src/modem/transport.rs: from a command to the exchange it brings about. A deadline that has
-- passed and a `read_line` that runs out of time are both the reading `elapsed`, since the code
-- treats them alike. `wait_for_prompt` is the trait's own, on lines.
pub mod Readings
pub mod Laws
use green_relay.Prelude.{
  ℕ, Bool, true, false, List, [], ◌∷◌, ◌++◌, Option, none, some, if◌then◌else◌, not, Result,
}
use green_relay.Text.{Text, codes, as_bytes, trim}
use green_relay.Lockout.Tracker.{is_empty}
use green_relay.Sms.Alphabet.{SmsEncoding}
use green_relay.Sms.Frame.{build_cmgs_header, build_cmgs_body}
use green_relay.Modem.Protocol.Line.{
  AtResult, timeout, LineClass, terminator, non_terminating, classify_line, AtExchange, is_prompt,
  sms_abort,
}
use green_relay.Modem.Io.{
  Reading, line, elapsed, lost, IoError, port_lost, World, Io, after, ◌>>=◌, ◌>>◌, pure,
  write_bytes,
}

-- how a loop over the readings ends: the readings that are left and its result
abbrev pub Collected : Type 0 → Type 0
Collected A = List Reading × Result A IoError

-- the loop of `wait_for_prompt`
unfoldable pub prompt_in : List Reading → Collected Bool
prompt_in [] = ([], Result.ok false)
prompt_in (elapsed ∷ rest) = (rest, Result.ok false)
prompt_in (lost ∷ rest) = (rest, Result.err port_lost)
prompt_in (line l ∷ rest) = if is_prompt l then (rest, Result.ok true) else prompt_in rest

-- a blank line is not kept
abbrev pub keep_line : List Text → Text → List Text
keep_line lines l = if not (is_empty (trim l)) then lines ++ l ∷ [] else lines

abbrev pub on_class :
    LineClass
    → List Text
    → List Reading
    → Collected (List Text × AtResult)
    → Collected (List Text × AtResult)
on_class (terminator result) lines rest more = (rest, Result.ok (lines, result))
on_class non_terminating lines rest more = more

-- the loop of `collect_until_terminator`
unfoldable pub collect_in : List Text → List Reading → Collected (List Text × AtResult)
collect_in lines [] = ([], Result.ok (lines, timeout))
collect_in lines (elapsed ∷ rest) = (rest, Result.ok (lines, timeout))
collect_in lines (lost ∷ rest) = (rest, Result.err port_lost)
collect_in lines (line l ∷ rest) =
    on_class (classify_line l) (lines ++ l ∷ []) rest (collect_in (keep_line lines l) rest)

abbrev pub cmgs : Text
cmgs = codes "AT+CMGS"

abbrev pub is_timeout : AtResult → Bool
is_timeout timeout = true
is_timeout _ = false

module _ {R : Type 0} where
  abbrev pub on_readings : {A : Type 0} → (List Reading → Collected A) → Io R A
  on_readings loop w =
      let (rest, result) = loop w.readings in (record w { readings = rest }, result)

  unfoldable pub wait_for_prompt : Io R Bool
  unfolding prompt_in
  wait_for_prompt = on_readings prompt_in

  unfoldable pub collect_until_terminator : Text → Io R AtExchange
  unfolding collect_in
  collect_until_terminator cmd = do
    collected ← on_readings (collect_in [])
    pure (record { command = cmd; lines = collected.0; result = collected.1 })

  unfoldable pub exchange : Text → Io R AtExchange
  unfolding collect_until_terminator
  exchange cmd = do write_bytes (as_bytes cmd ++ b'\r' ∷ []); collect_until_terminator cmd

  unfoldable pub abort_to_command_mode : Io R Unit
  unfolding collect_until_terminator
  abort_to_command_mode = do
    write_bytes (sms_abort ∷ [])
    collect_until_terminator (codes "ESC")
    pure tt

  abbrev pub recover_command_mode : Io R Unit
  recover_command_mode = abort_to_command_mode

  -- the way back to command mode after a result
  unfoldable pub revert_after : AtExchange → Io R AtExchange
  unfolding abort_to_command_mode
  revert_after ex = if is_timeout ex.result then (do abort_to_command_mode; pure ex) else pure ex

  -- from the prompt on
  unfoldable pub after_prompt : Text → SmsEncoding → Bool → Io R AtExchange
  unfolding abort_to_command_mode collect_until_terminator revert_after
  after_prompt body encoding false = do
    abort_to_command_mode
    pure (record { command = cmgs; lines = []; result = timeout })
  after_prompt body encoding true = do
    write_bytes (build_cmgs_body body encoding)
    ex ← collect_until_terminator cmgs
    revert_after ex

  unfoldable pub send_sms_part : Text → Text → SmsEncoding → Io R AtExchange
  unfolding wait_for_prompt after_prompt
  send_sms_part to body encoding = do
    write_bytes (build_cmgs_header to encoding)
    prompted ← wait_for_prompt
    after_prompt body encoding prompted
