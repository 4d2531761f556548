-- ===== src/Db/Outbound.antt =====
-- service/src/db.rs: the statements on outbound_messages.
pub mod Laws
pub mod Statuses
pub mod Update
pub mod Waiting
use green_relay.Prelude.{
  ℕ, ◌%◌, ◌≡◌, Bool, true, false, not, ◌&&◌, List, [], ◌∷◌, Option, none, some, ◌==◌, ltb,
  if◌then◌else◌, Result, take, retain,
}
use green_relay.Text.{Text, codes, text_eq}
use green_relay.Text.Order.{text_lt}
use green_relay.Models.{MessageStatus, queued, as_db_str, from_db_str, OutboundMessage, Rfc3339}
use green_relay.Db.Rows.{Table, insert_row, find, update, affected, order_by}
use green_relay.Db.{
  OutboundRow, Tables, SqlxError, row_not_found, decode, DbError, sqlx, Sql, some_ok, ◌>>=◌, ◌>>◌,
  pure, throw, lift, execute, fetch, transaction, ensure_ready,
}

abbrev pub set_outbound : Tables → Table OutboundRow → Tables
set_outbound t o = record t { outbound_messages = o }

abbrev pub set_outbound_rows : Tables → List OutboundRow → Tables
set_outbound_rows t rows = record t {
  outbound_messages = record (t.outbound_messages) { rows = rows };
}

abbrev pub has_id : ℕ → OutboundRow → Bool
has_id id r = r.id == id

abbrev pub set_status : MessageStatus → Option Text → Option Text → Text → OutboundRow → OutboundRow
set_status status msg_reference error_code now_text r = record r {
  status = as_db_str status;
  msg_reference = msg_reference;
  error_code = error_code;
  updated_at = now_text;
}

-- an `UPDATE` that touches no row is an error
abbrev pub found_some : ℕ → Sql Unit
found_some n = if n == 0 then throw (sqlx row_not_found) else pure tt

abbrev pub fetched_one : {A : Type 0} → Option A → Sql A
fetched_one none = throw (sqlx row_not_found)
fetched_one (some a) = pure a

abbrev pub message_of :
    OutboundRow → Option MessageStatus → Option ℕ → Option ℕ → Result OutboundMessage DbError
message_of r (some status) (some created_at) (some updated_at) = Result.ok (record {
  id = r.id;
  to_number = r.to_number;
  body = r.body;
  status = status;
  part_count = r.part_count % 256;
  msg_reference = r.msg_reference;
  error_code = r.error_code;
  created_at = created_at;
  updated_at = updated_at;
})
message_of r status created_at updated_at = Result.err (sqlx decode)

-- `collect` of the rows as a result
abbrev pub both :
    {A : Type 0} → Result A DbError → Result (List A) DbError → Result (List A) DbError
both (Result.ok a) (Result.ok l) = Result.ok (a ∷ l)
both (Result.ok a) (Result.err e) = Result.err e
both (Result.err e) l = Result.err e

abbrev pub collect : {R A : Type 0} → (R → Result A DbError) → List R → Result (List A) DbError
collect f [] = Result.ok []
collect f (r ∷ rs) = both (f r) (collect f rs)

abbrev pub older : OutboundRow → OutboundRow → Bool
older a b = not (text_lt b.created_at a.created_at)

abbrev pub is_waiting : Text → OutboundRow → Bool
is_waiting older_than r = text_eq r.status (as_db_str queued) && text_lt r.created_at older_than

unfoldable pub update_status :
    ℕ → MessageStatus → Option Text → Option Text → Text → Tables → Result (Tables × ℕ) SqlxError
unfolding update affected
update_status id status msg_reference error_code now_text t =
    let rows = t.outbound_messages.rows in
    Result.ok (
      set_outbound_rows t
          (update (has_id id) (set_status status msg_reference error_code now_text) rows),
      affected (has_id id) rows,
    )

module _ (chrono : Rfc3339) where
  unfoldable pub outbound_from_row : OutboundRow → Result OutboundMessage DbError
  unfolding from_db_str
  outbound_from_row r =
      message_of r (from_db_str r.status) (chrono.parse r.created_at) (chrono.parse r.updated_at)

  abbrev pub new_row : Text → Text → MessageStatus → ℕ → ℕ → ℕ → OutboundRow
  new_row to_number body status part_count now id = record {
    id = id;
    to_number = to_number;
    body = body;
    status = as_db_str status;
    part_count = part_count;
    msg_reference = none;
    error_code = none;
    created_at = chrono.print now;
    updated_at = chrono.print now;
  }

  abbrev pub new_message : Text → Text → MessageStatus → ℕ → ℕ → ℕ → OutboundMessage
  new_message to_number body status part_count now id = record {
    id = id;
    to_number = to_number;
    body = body;
    status = status;
    part_count = part_count;
    msg_reference = none;
    error_code = none;
    created_at = now;
    updated_at = now;
  }

  abbrev pub insert_outbound :
      Text → Text → MessageStatus → ℕ → ℕ → Tables → Result (Tables × ℕ) SqlxError
  insert_outbound to_number body status part_count now t =
      let o = insert_row (new_row to_number body status part_count now) t.outbound_messages in
      Result.ok (set_outbound t o, o.seq)

  unfoldable pub create_outbound_message : ℕ → Text → Text → MessageStatus → ℕ → Sql OutboundMessage
  unfolding ensure_ready execute insert_row
  create_outbound_message now to_number body status part_count = do
    ensure_ready
    id ← execute (insert_outbound to_number body status part_count now)
    pure (new_message to_number body status part_count now id)

  -- what is done within the transaction
  abbrev pub update_and_read :
      ℕ → ℕ → MessageStatus → Option Text → Option Text → Sql OutboundMessage
  update_and_read now id status msg_reference error_code = do
    n ← execute (update_status id status msg_reference error_code (chrono.print now))
    found_some n
    found ← fetch (λ t. find (has_id id) t.outbound_messages.rows)
    row ← fetched_one found
    lift (outbound_from_row row)

  unfoldable pub update_outbound_message :
      ℕ → ℕ → MessageStatus → Option Text → Option Text → Sql OutboundMessage
  unfolding ensure_ready transaction execute fetch update_status find outbound_from_row
  update_outbound_message now id status msg_reference error_code = do
    ensure_ready
    transaction (update_and_read now id status msg_reference error_code)

  unfoldable pub set_outbound_status : ℕ → ℕ → MessageStatus → Option Text → Option Text → Sql Unit
  unfolding ensure_ready execute update_status
  set_outbound_status now id status msg_reference error_code = do
    ensure_ready
    n ← execute (update_status id status msg_reference error_code (chrono.print now))
    found_some n

  abbrev pub some_message : Option OutboundRow → Result (Option OutboundMessage) DbError
  some_message none = Result.ok none
  some_message (some r) = some_ok (outbound_from_row r)

  unfoldable pub get_outbound_message : ℕ → Sql (Option OutboundMessage)
  unfolding fetch find outbound_from_row
  get_outbound_message id = do
    found ← fetch (λ t. find (has_id id) t.outbound_messages.rows)
    lift (some_message found)

  unfoldable pub queued_outbound_messages : Text → ℕ → Sql (List OutboundMessage)
  unfolding fetch order_by outbound_from_row
  queued_outbound_messages older_than limit = do
    rows ←
        fetch (λ t.
          take limit (order_by older (retain (is_waiting older_than) t.outbound_messages.rows)))
    lift (collect outbound_from_row rows)
