-- ===== src/Db/Keys.antt =====
-- service/src/db.rs: the statements on api_keys and audit_log.
pub mod Laws
use green_relay.Prelude.{
  ℕ, suc, Bool, true, false, not, ◌&&◌, ◌||◌, List, [], ◌∷◌, Option, none, some, ltb, leb, ◌==◌,
  if◌then◌else◌, Result, u32_max, map,
}
use green_relay.Text.{Text, text_eq, is_some}
use green_relay.Text.Order.{text_lt}
use green_relay.Models.{Rfc3339}
use green_relay.Db.Rows.{Table, insert_row, find, update, affected, order_by}
use green_relay.Db.{
  ApiKeyRow, AuditRow, Tables, SqlxError, unique_violation, Sql, ◌>>=◌, ◌>>◌, pure, execute, fetch,
}

abbrev pub is_active : Text → ApiKeyRow → Bool
is_active identifier r = text_eq r.key_identifier identifier && r.revoked == 0

abbrev pub key_with_id : ℕ → ApiKeyRow → Bool
key_with_id id r = r.id == id

-- `u32::try_from(c).ok()`
abbrev pub as_u32 : Option ℕ → Option ℕ
as_u32 none = none
as_u32 (some c) = if leb c u32_max then some c else none

abbrev pub id_and_limit : Option ApiKeyRow → Option (ℕ × Option ℕ)
id_and_limit none = none
id_and_limit (some r) = some (r.id, as_u32 r.custom_rate_limit)

unfoldable pub active_key : Text → Tables → Option (ℕ × Option ℕ)
unfolding find
active_key identifier t = id_and_limit (find (is_active identifier) t.api_keys.rows)

unfoldable pub lookup_active_key : Text → Sql (Option (ℕ × Option ℕ))
unfolding fetch active_key
lookup_active_key identifier = fetch (active_key identifier)

abbrev pub new_audit : Text → Option Text → Option Text → Text → ℕ → AuditRow
new_audit event_type key_identifier detail at id = record {
  id = id;
  event_type = event_type;
  key_identifier = key_identifier;
  detail = detail;
  created_at = at;
}

abbrev pub audit_statement :
    Rfc3339 → Text → Option Text → Option Text → ℕ → Tables → Result (Tables × Unit {0}) SqlxError
audit_statement chrono event_type key_identifier detail at t = Result.ok (
  record t {
    audit_log =
        insert_row (new_audit event_type key_identifier detail (chrono.print at)) t.audit_log;
  },
  tt,
)

unfoldable pub insert_audit : Rfc3339 → Text → Option Text → Option Text → ℕ → Sql Unit
unfolding execute insert_row
insert_audit chrono event_type key_identifier detail at =
    execute (audit_statement chrono event_type key_identifier detail at)

abbrev pub new_key : Text → Text → Text → ℕ → ApiKeyRow
new_key key_hash identifier created_at id = record {
  id = id;
  key_hash = key_hash;
  key_identifier = identifier;
  custom_rate_limit = none;
  revoked = 0;
  created_at = created_at;
}

-- the two columns that are UNIQUE
abbrev pub clashes : Text → Text → ApiKeyRow → Bool
clashes key_hash identifier r = text_eq r.key_hash key_hash || text_eq r.key_identifier identifier

unfoldable pub insert_key : Text → Text → Text → Tables → Result (Tables × ℕ) SqlxError
unfolding insert_row find
insert_key key_hash identifier created_at t =
    let k = insert_row (new_key key_hash identifier created_at) t.api_keys in
    if is_some (find (clashes key_hash identifier) t.api_keys.rows)
    then Result.err unique_violation
    else Result.ok (record t { api_keys = k }, k.seq)

unfoldable pub insert_api_key : Text → Text → Text → Sql ℕ
unfolding execute insert_key
insert_api_key key_hash identifier created_at = execute (insert_key key_hash identifier created_at)

pub record ApiKeyRecord : Type 0 where
  pub id : ℕ
  pub key_identifier : Text
  pub custom_rate_limit : Option ℕ
  pub revoked : Bool
  pub created_at : ℕ

abbrev pub or_now : Option ℕ → ℕ → ℕ
or_now none now = now
or_now (some t) now = t

-- `ORDER BY created_at DESC, id DESC`
abbrev pub newer_key : ApiKeyRow → ApiKeyRow → Bool
newer_key a b =
    text_lt b.created_at a.created_at || text_eq a.created_at b.created_at && ltb b.id a.id

abbrev pub record_of : Rfc3339 → ℕ → ApiKeyRow → ApiKeyRecord
record_of chrono now r = record {
  id = r.id;
  key_identifier = r.key_identifier;
  custom_rate_limit = as_u32 r.custom_rate_limit;
  revoked = not (r.revoked == 0);
  created_at = or_now (chrono.parse r.created_at) now;
}

-- a time that cannot be read is replaced by the time of the call
unfoldable pub list_api_keys : Rfc3339 → ℕ → Sql (List ApiKeyRecord)
unfolding fetch order_by text_lt
list_api_keys chrono now =
    fetch (λ t. map (record_of chrono now) (order_by newer_key t.api_keys.rows))

abbrev pub identifier_in : Option ApiKeyRow → Option Text
identifier_in none = none
identifier_in (some r) = some r.key_identifier

unfoldable pub api_key_identifier : ℕ → Sql (Option Text)
unfolding fetch find
api_key_identifier id = fetch (λ t. identifier_in (find (key_with_id id) t.api_keys.rows))

abbrev pub set_revoked : ApiKeyRow → ApiKeyRow
set_revoked r = record r { revoked = 1 }

abbrev pub revoke_rows : ℕ → Tables → Tables
revoke_rows id t = record t {
  api_keys = record (t.api_keys) { rows = update (key_with_id id) set_revoked t.api_keys.rows };
}

abbrev pub revoke_statement : ℕ → Tables → Result (Tables × ℕ) SqlxError
revoke_statement id t = Result.ok (revoke_rows id t, affected (key_with_id id) t.api_keys.rows)

unfoldable pub set_api_key_revoked : ℕ → Sql ℕ
unfolding execute update affected
set_api_key_revoked id = execute (revoke_statement id)
