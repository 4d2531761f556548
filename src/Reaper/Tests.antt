-- ===== src/Reaper/Tests.antt =====
-- Examples for service/src/lib.rs: a cycle in which one message waits.
use green_relay.Prelude.{◌≡◌, some, inr, refl, false, [], ◌∷◌, none, some}
use green_relay.Text.{Text, codes}
use green_relay.Models.{queued, sent, as_db_str}
use green_relay.Db.{OutboundRow}
use green_relay.Db.Outbound.{new_row}
use green_relay.Text.Order.{text_lt}
use green_relay.Db.Rows.{find}
use green_relay.Modem.Send.{SendResult}
use green_relay.Db.Outbound.Laws.{row_at}
use green_relay.Db.Tests.{numbers, store, store-IsNumbered}
use green_relay.Reaper.{Reaped, reap_queued_messages}
use green_relay.Reaper.Laws.{reap_queued_messages_keeps}

abbrev sends : Text → Text → SendResult
sends to body = record {
  status = sent;
  reference = some (codes "7");
  error_code = none;
  error = none;
}

abbrev idle : Reaped
idle = record { store = store; published = [] }

abbrev first_row : OutboundRow
first_row = new_row numbers (codes "+4917") (codes "hi") queued 1 5 1

first_found : row_at store.disk 1 ≡ some first_row
unfolding row_at find as_db_str
first_found = refl

recent : text_lt (5 ∷ []) (3 ∷ []) ≡ false
unfolding text_lt
recent = refl

reap_queued_messages_keeps_example :
    row_at (reap_queued_messages numbers 300000000003 (λ id. 9) sends idle).store.disk 1
    ≡ some first_row
reap_queued_messages_keeps_example =
    reap_queued_messages_keeps numbers 300000000003 (λ id. 9) 1 sends idle first_row
      store-IsNumbered first_found (inr recent)
