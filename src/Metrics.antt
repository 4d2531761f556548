-- ===== src/Metrics.antt =====
-- service/src/metrics.rs: the counters, which wrap at 64 bits, and their text form.
use green_relay.Prelude.{ℕ, ◌+◌, ◌%◌, ◌^◌, Bool, true, false, [], ◌++◌, Option, none, some}
use green_relay.Text.{Text, codes}
use green_relay.Text.Decimal.{to_decimal}
use green_relay.Health.{ModemStatusSnapshot}

pub record Metrics : Type 0 where
  pub auth_failures : ℕ
  pub rate_limited : ℕ
  pub messages_accepted : ℕ
  pub messages_sent : ℕ
  pub messages_failed : ℕ

abbrev pub new : Metrics
new = record {
  auth_failures = 0;
  rate_limited = 0;
  messages_accepted = 0;
  messages_sent = 0;
  messages_failed = 0;
}

-- `fetch_add(1, ..)`
abbrev pub fetch_add : ℕ → ℕ
fetch_add n = (n + 1) % 2 ^ 64

abbrev pub record_auth_failure : Metrics → Metrics
record_auth_failure m = record m { auth_failures = fetch_add m.auth_failures }

abbrev pub record_rate_limited : Metrics → Metrics
record_rate_limited m = record m { rate_limited = fetch_add m.rate_limited }

abbrev pub record_message_accepted : Metrics → Metrics
record_message_accepted m = record m { messages_accepted = fetch_add m.messages_accepted }

abbrev pub record_message_sent : Metrics → Metrics
record_message_sent m = record m { messages_sent = fetch_add m.messages_sent }

abbrev pub record_message_failed : Metrics → Metrics
record_message_failed m = record m { messages_failed = fetch_add m.messages_failed }

unfoldable pub write_metric : Text → Text → Text → ℕ → Text
unfolding to_decimal
write_metric name help kind value =
    codes "# HELP "
    ++ (name
        ++ (codes " "
            ++ (help
                ++ (codes "\n# TYPE "
                    ++ (name
                        ++ (codes " "
                            ++ (kind
                                ++ (codes "\n"
                                    ++ (name
                                        ++ (codes " " ++ (to_decimal value ++ codes "\n")))))))))))

abbrev pub counter : Text → Text → ℕ → Text
counter name help value = write_metric name help (codes "counter") value

abbrev pub gauge : Text → Text → ℕ → Text
gauge name help value = write_metric name help (codes "gauge") value

-- `u64::from(bool)`
abbrev pub as_number : Bool → ℕ
as_number true = 1
as_number false = 0

abbrev pub signal_gauge : Option ℕ → Text
signal_gauge none = []
signal_gauge (some percent) =
    gauge (codes "green_relay_modem_signal_percent")
      (codes "Modem signal strength as a percentage (0-100); absent when unknown.") percent

unfoldable pub render : Metrics → ModemStatusSnapshot → Text
unfolding write_metric
render m modem =
    counter (codes "green_relay_auth_failures_total")
      (codes "Authentication attempts rejected (invalid, unknown, or locked out).") m.auth_failures
    ++ (counter (codes "green_relay_rate_limited_total")
          (codes "Requests rejected by the per-key rate limiter.") m.rate_limited
        ++ (counter (codes "green_relay_messages_accepted_total")
              (codes "Outbound messages accepted and queued for delivery.") m.messages_accepted
            ++ (counter (codes "green_relay_messages_sent_total")
                  (codes "Outbound messages confirmed sent by the modem.") m.messages_sent
                ++ (counter (codes "green_relay_messages_failed_total")
                      (codes "Outbound messages that failed delivery.") m.messages_failed
                    ++ (gauge (codes "green_relay_modem_serial_connected")
                          (codes
                            "Whether the modem serial port is currently connected (1) or not (0).")
                          (as_number modem.serial_connected)
                        ++ (gauge (codes "green_relay_modem_registered")
                              (codes "Whether the modem is registered to a network (1) or not (0).")
                              (as_number modem.registered)
                            ++ signal_gauge modem.signal_percent))))))
