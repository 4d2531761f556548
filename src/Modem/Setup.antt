-- ===== src/Modem/Setup.antt =====
-- service/src/modem/session.rs: setting up the modem and asking for its status.
use green_relay.Prelude.{
  Bool, true, false, not, List, [], ◌∷◌, ◌++◌, Option, none, some, if◌then◌else◌,
}
use green_relay.Text.{Text, codes}
use green_relay.Health.{ModemStatusSnapshot, unknown}
use green_relay.Modem.Protocol.Line.{is_ok}
use green_relay.Modem.Protocol.Status.{
  parse_cpin, parse_creg_registered, parse_csq_percent, parse_cops_operator,
}
use green_relay.Modem.Io.{Io, ◌>>=◌, pure}
use green_relay.Modem.Transport.{exchange, is_timeout}

-- with the configured number of the service center
abbrev pub service_center : Option Text → List Text
service_center none = []
service_center (some csca) = (codes "AT+CSCA=\"" ++ csca ++ codes "\"") ∷ []

abbrev pub init_commands : Option Text → List Text
init_commands csca =
    codes "AT+CMGF=1"
    ∷ codes "AT+CSCS=\"IRA\""
    ∷ codes "AT+CSMP=17,167,0,0"
    ∷ codes "AT+CSDH=1"
    ∷ service_center csca

abbrev pub initial_snapshot : ModemStatusSnapshot
initial_snapshot = record {
  serial_connected = false;
  sim_status = unknown;
  registered = false;
  responsive = false;
  signal_percent = none;
  operator = none;
}

module _ {R : Type 0} where
  -- the loop of `initialize`
  unfoldable pub run_commands : Bool → List Text → Io R Bool
  run_commands all_ok [] = pure all_ok
  run_commands all_ok (cmd ∷ cmds) = do
    ex ← exchange cmd
    run_commands (if is_ok ex.result then all_ok else false) cmds

  unfoldable pub initialize : Option Text → Io R Bool
  unfolding run_commands
  initialize csca = run_commands true (init_commands csca)

  -- The snapshot before is not read: every field is set.
  unfoldable pub refresh_status : Io R ModemStatusSnapshot
  refresh_status = do
    cpin ← exchange (codes "AT+CPIN?")
    creg ← exchange (codes "AT+CREG?")
    csq ← exchange (codes "AT+CSQ")
    cops ← exchange (codes "AT+COPS?")
    pure (record {
      serial_connected = true;
      sim_status = parse_cpin cpin.lines;
      registered = parse_creg_registered creg.lines;
      responsive = not (is_timeout cpin.result);
      signal_percent = parse_csq_percent csq.lines;
      operator = parse_cops_operator cops.lines;
    })
