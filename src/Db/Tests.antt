-- ===== src/Db/Tests.antt =====
-- Examples for service/src/db.rs.
use green_relay.Prelude.{ℕ, ◌≡◌, refl, true, false, [], ◌∷◌, Option, none, some, Result, arith}
use green_relay.Text.{Text, codes}
use green_relay.Models.{queued, sent, OutboundMessage, Rfc3339, RoundTrips}
use green_relay.Db.{Tables, no_rows, Store, DbError, succeeded}
use green_relay.Db.Migrate.{run_migrations}
use green_relay.Db.Migrate.Stages.{first, at_stage}
use green_relay.Db.Migrate.Laws.{Migrates, run_migrations-Migrates, run_migrations-ok}
use green_relay.Db.Outbound.{
  new_row, create_outbound_message, get_outbound_message, update_outbound_message,
}
use green_relay.Db.Outbound.Laws.{IsNumbered}
use green_relay.Db.Outbound.Statuses.{get-create}
use green_relay.Db.Outbound.Update.{Settles, update_outbound_message-Settles}

-- A time is printed as its number.
abbrev pub read_number : Text → Option ℕ
read_number [] = none
read_number (t ∷ ts) = some t

abbrev pub numbers : Rfc3339
numbers = record { print = λ t. t ∷ []; parse = read_number }

numbers-RoundTrips : RoundTrips numbers
numbers-RoundTrips = record { parse_print = λ t. refl }

abbrev pub tables : Tables
tables = record no_rows {
  outbound_messages = record {
    rows = new_row numbers (codes "+4917") (codes "hi") queued 1 5 1 ∷ [];
    seq = 1;
  };
}

abbrev pub store : Store
store = record {
  fails = λ n. false;
  ran = 0;
  schema_ready = true;
  disk = record { versions = some (2 ∷ 1 ∷ []); tables = some tables; is_indexed = true };
}

pub store-IsNumbered : IsNumbered store.disk
store-IsNumbered = record { rows = (omega arith, omega arith) }

abbrev created : Store × Result OutboundMessage DbError
created = create_outbound_message numbers 7 (codes "+4918") (codes "yo") queued 1 store

abbrev created_message : OutboundMessage
created_message = record {
  id = 2;
  to_number = codes "+4918";
  body = codes "yo";
  status = queued;
  part_count = 1;
  msg_reference = none;
  error_code = none;
  created_at = 7;
  updated_at = 7;
}

created_ok : created ≡ (created.0, Result.ok created_message)
unfolding create_outbound_message
created_ok = refl

created_runs : created.0.fails created.0.ran ≡ false
unfolding create_outbound_message
created_runs = refl

get-create_example : (get_outbound_message numbers 2 created.0).1 ≡ Result.ok (some created_message)
get-create_example =
    get-create numbers numbers-RoundTrips 7 (codes "+4918") (codes "yo") queued 1 store created.0
      created_message (omega arith) store-IsNumbered created_ok created_runs

update_outbound_message-Settles_example :
    Settles numbers 9 1 sent
      (some (codes "7"))
      none
      store.disk
      (update_outbound_message numbers 9 1 sent (some (codes "7")) none store)
update_outbound_message-Settles_example =
    update_outbound_message-Settles numbers 9 1 sent (some (codes "7")) none store

run_migrations-Migrates_example :
    Migrates first tables false (run_migrations (at_stage (λ n. false) 0 false first tables))
run_migrations-Migrates_example = run_migrations-Migrates (λ n. false) 0 false first tables

run_migrations-ok_example :
    succeeded (run_migrations (at_stage (λ n. false) 0 false first tables)).1 ≡ true
run_migrations-ok_example = run_migrations-ok (λ n. false) 0 false first tables (λ n. refl)
