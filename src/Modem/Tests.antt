-- ===== src/Modem/Tests.antt =====
-- Examples for service/src/modem.
use green_relay.Prelude.{
  ℕ, ◌+◌, ◌≡◌, ◌↔◌, refl, true, false, List, [], ◌∷◌, ◌++◌, none, some, All, map, arith, Result,
}
use green_relay.Text.{Text, codes, is_whitespace}
use green_relay.Text.Split.{split}
use green_relay.Health.{ModemStatusSnapshot, ready}
use green_relay.Sms.Alphabet.{gsm7}
use green_relay.Modem.Protocol.Line.{classify_line, sent_outcome, parse_send_outcome}
use green_relay.Modem.Protocol.Outcome.{IsConfirmed, parse_send_outcome_iff}
use green_relay.Modem.Protocol.Inbound.{parse_cmgr, format_cmgr_response}
use green_relay.Modem.Protocol.Inbound.RoundTrip.{parse_cmgr-format, IsDataLine}
use green_relay.Modem.Protocol.Backoff.{reconnect_backoff_schedule}
use green_relay.Modem.Io.{Reading, line, elapsed, World}
use green_relay.Modem.Send.{SendConfig, send_part_with_retries}
use green_relay.Modem.Send.Attempts.{IsTried, send_part_with_retries-IsTried}
use green_relay.Modem.Inbox.{handle_inbound, read_command}
use green_relay.Modem.Inbox.Laws.{WritesOnly, handle_inbound-kept}
use green_relay.Modem.Session.{
  raw, send_sms, request, reading, Turn, Desk, drain_pending, run_session,
}
use green_relay.Modem.Session.Drain.{IsDrained, drain_pending-IsDrained}
use green_relay.Modem.Session.Replies.{Replied, run_session-Replied}
use green_relay.Modem.Manager.{
  not_opened, slept, gave_up, run_modem_manager, repeat, run_modem_manager_gives_up,
}

-- The rows are the audit entries.
abbrev Rows : Type 0
Rows = List Text

abbrev world : List Reading → World Rows
world readings = record {
  readings = readings;
  write_fails = λ n. false;
  log = [];
  rows = [];
  published = [];
}

abbrev number : Text
number = codes "+15551234567"

abbrev answered_world : World Rows
answered_world = world (line (codes ">") ∷ line (codes "+CMGS: 12") ∷ line (codes "OK") ∷ [])

abbrev insert_audit : Rows → Text → Text → Rows
insert_audit rows event detail = event ∷ rows

abbrev config : SendConfig
config = record { send_max_attempts = 3 }

abbrev failing_world : World Rows
failing_world = world (
    line (codes ">")
    ∷ line (codes "+CMS ERROR: 500")
    ∷ line (codes ">")
    ∷ line (codes "ERROR")
    ∷ line (codes ">")
    ∷ line (codes "+CMGS: 3")
    ∷ line (codes "OK")
    ∷ [])

send_part_with_retries-IsTried_example :
    IsTried insert_audit number
      (codes "hi")
      gsm7
      3
      failing_world
      (send_part_with_retries insert_audit config number (codes "hi") gsm7 failing_world)
send_part_with_retries-IsTried_example =
    send_part_with_retries-IsTried insert_audit config number (codes "hi") gsm7 failing_world

abbrev registered_status : ModemStatusSnapshot
registered_status = record {
  serial_connected = true;
  sim_status = ready;
  registered = true;
  responsive = true;
  signal_percent = some 60;
  operator = none;
}

abbrev refuse_all : Rows → Text → Text → Rows × Result ℕ Text
refuse_all rows sender body = (rows, Result.err (codes "disk full"))

abbrev show_text : Text → Text
show_text s = s

abbrev inbound_world : World Rows
inbound_world = world (
    line (codes "+CMGR: \"REC UNREAD\",\"+15550001111\",,\"24/01/02,03:04:05+00\"")
    ∷ line (codes "hello")
    ∷ line (codes "OK")
    ∷ [])

handle_inbound-kept_example :
    WritesOnly
      (read_command 4)
      inbound_world
      (handle_inbound show_text insert_audit refuse_all 4 true [] inbound_world).0
handle_inbound-kept_example =
    handle_inbound-kept show_text insert_audit refuse_all (codes "disk full")
      (λ rows sender body. refl) 4 true [] inbound_world

abbrev confirmed : List Text
confirmed = codes "+CMGS: 12" ∷ codes "OK" ∷ []

parse_send_outcome_iff_example :
    (parse_send_outcome confirmed ≡ sent_outcome 12) ↔ IsConfirmed none confirmed 12
parse_send_outcome_iff_example = parse_send_outcome_iff confirmed 12

hello-lines : All IsDataLine (split b'\n' (codes "hello\n> you"))
unfolding classify_line split is_whitespace
hello-lines = (refl, (refl, tt))

parse_cmgr-format_example :
    parse_cmgr (format_cmgr_response number (codes "hello\n> you"))
    ≡ some (record { sender = number; body = codes "hello\n> you" })
parse_cmgr-format_example =
    parse_cmgr-format number (codes "hello\n> you") refl refl refl hello-lines

run_modem_manager_gives_up_example :
    run_modem_manager 8 0 (repeat 9 not_opened [])
    ≡ map slept (reconnect_backoff_schedule 8) ++ gave_up ∷ []
run_modem_manager_gives_up_example = run_modem_manager_gives_up 8 [] (omega arith)

abbrev cmti : Text
cmti = codes "+CMTI: \"SM\",5"

drain_pending-IsDrained_example :
    IsDrained (drain_pending show_text insert_audit refuse_all 5 true (4 ∷ []) inbound_world).1
drain_pending-IsDrained_example =
    drain_pending-IsDrained show_text insert_audit refuse_all 5 true (4 ∷ []) inbound_world
      (omega arith)

abbrev turns : List Turn
turns =
    record { due = false; found = reading (line cmti) }
    ∷ record { due = false; found = request (raw (codes "AT")) }
    ∷ record { due = false; found = reading elapsed }
    ∷ record { due = false; found = request (send_sms number (codes "hi")) }
    ∷ []

abbrev desk : Desk
desk = record { status = registered_status; pending = []; replies = [] }

run_session-Replied_example :
    Replied
      (0 + 2)
      (run_session show_text insert_audit refuse_all config true turns desk answered_world)
run_session-Replied_example =
    run_session-Replied show_text insert_audit refuse_all config true turns desk answered_world
