-- ===== src/Db/Inbound.antt =====
-- service/src/db.rs: the statements on inbound_messages.
pub mod Pages
use green_relay.Prelude.{
  ℕ, Bool, not, ◌&&◌, ◌||◌, List, Option, none, some, ltb, if◌then◌else◌, Result, take, drop, ◌==◌,
}
use green_relay.Text.{Text, text_eq}
use green_relay.Text.Order.{text_lt}
use green_relay.Models.{InboundMessage, Rfc3339}
use green_relay.Db.Rows.{Table, insert_row, find, order_by}
use green_relay.Db.{
  InboundRow, Tables, SqlxError, decode, DbError, sqlx, Sql, some_ok, ◌>>=◌, ◌>>◌, pure, lift,
  execute, fetch, ensure_ready,
}
use green_relay.Db.Outbound.{collect}

abbrev pub message_at : InboundRow → Option ℕ → Result InboundMessage DbError
message_at r none = Result.err (sqlx decode)
message_at r (some received_at) =
    Result.ok
      (record { id = r.id; from_number = r.from_number; body = r.body; received_at = received_at })

-- `ORDER BY received_at DESC, id DESC`
unfoldable pub newer : InboundRow → InboundRow → Bool
unfolding text_lt
newer a b =
    text_lt b.received_at a.received_at || text_eq a.received_at b.received_at && ltb b.id a.id

module _ (chrono : Rfc3339) where
  unfoldable pub inbound_from_row : InboundRow → Result InboundMessage DbError
  inbound_from_row r = message_at r (chrono.parse r.received_at)

  abbrev pub new_row : Text → Text → ℕ → ℕ → InboundRow
  new_row from_number body received_at id = record {
    id = id;
    from_number = from_number;
    body = body;
    received_at = chrono.print received_at;
  }

  abbrev pub insert_inbound : Text → Text → ℕ → Tables → Result (Tables × ℕ) SqlxError
  insert_inbound from_number body received_at t =
      let i = insert_row (new_row from_number body received_at) t.inbound_messages in
      Result.ok (record t { inbound_messages = i }, i.seq)

  unfoldable pub create_inbound_message : Text → Text → ℕ → Sql InboundMessage
  unfolding ensure_ready execute insert_row
  create_inbound_message from_number body received_at = do
    ensure_ready
    id ← execute (insert_inbound from_number body received_at)
    pure (record { id = id; from_number = from_number; body = body; received_at = received_at })

  abbrev pub some_message : Option InboundRow → Result (Option InboundMessage) DbError
  some_message none = Result.ok none
  some_message (some r) = some_ok (inbound_from_row r)

  unfoldable pub get_inbound_message : ℕ → Sql (Option InboundMessage)
  unfolding fetch find inbound_from_row
  get_inbound_message id = do
    found ← fetch (λ t. find (λ r. r.id == id) t.inbound_messages.rows)
    lift (some_message found)

  -- the rows of a page
  unfoldable pub page : ℕ → ℕ → List InboundRow → List InboundRow
  unfolding order_by newer
  page limit offset rows = take limit (drop offset (order_by newer rows))

  unfoldable pub list_inbound_messages : ℕ → ℕ → Sql (List InboundMessage)
  unfolding fetch page inbound_from_row
  list_inbound_messages limit offset = do
    rows ← fetch (λ t. page limit offset t.inbound_messages.rows)
    lift (collect inbound_from_row rows)
