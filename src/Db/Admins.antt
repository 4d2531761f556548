-- ===== src/Db/Admins.antt =====
-- service/src/db.rs: the statements on admin_users, and the warning on storage.
pub mod Laws
use green_relay.Prelude.{
  ℕ, ◌*◌, Bool, true, false, Option, none, some, leb, ◌==◌, if◌then◌else◌, Result,
}
use green_relay.Text.{Text, text_eq}
use green_relay.Models.{Rfc3339}
use green_relay.Db.Rows.{insert_row, find, update, affected}
use green_relay.Db.{
  AdminRow, Tables, SqlxError, Sql, ◌>>=◌, ◌>>◌, pure, execute, fetch, transaction, ensure_ready,
}

abbrev pub has_name : Text → AdminRow → Bool
has_name username r = text_eq r.username username

abbrev pub credentials_in : Option AdminRow → Option (ℕ × Text)
credentials_in none = none
credentials_in (some r) = some (r.id, r.password_hash)

unfoldable pub find_admin_credentials : Text → Sql (Option (ℕ × Text))
unfolding fetch find
find_admin_credentials username =
    fetch (λ t. credentials_in (find (has_name username) t.admin_users.rows))

abbrev pub reset_password : Text → AdminRow → AdminRow
reset_password password_hash r = record r {
  password_hash = password_hash;
  failed_attempts = 0;
  locked_until = none;
}

abbrev pub new_admin : Text → Text → Text → ℕ → AdminRow
new_admin username password_hash now_text id = record {
  id = id;
  username = username;
  password_hash = password_hash;
  failed_attempts = 0;
  locked_until = none;
  created_at = now_text;
}

-- the `UPDATE`, with the number of rows that it affects
abbrev pub reset_rows : Text → Text → Tables → Result (Tables × ℕ) SqlxError
reset_rows username password_hash t = Result.ok (
  record t {
    admin_users = record (t.admin_users) {
      rows = update (has_name username) (reset_password password_hash) t.admin_users.rows;
    };
  },
  affected (has_name username) t.admin_users.rows,
)

-- the `INSERT`, which comes only when no row has the name
abbrev pub add_admin : Text → Text → Text → Tables → Result (Tables × Bool) SqlxError
add_admin username password_hash now_text t = Result.ok (
  record t { admin_users = insert_row (new_admin username password_hash now_text) t.admin_users },
  true,
)

abbrev pub add_if_none : Text → Text → Text → ℕ → Sql Bool
add_if_none username password_hash now_text updated =
    if updated == 0 then execute (add_admin username password_hash now_text) else pure false

abbrev pub reset_or_add : Text → Text → Text → Sql Bool
reset_or_add username password_hash now_text = do
  updated ← execute (reset_rows username password_hash)
  add_if_none username password_hash now_text updated

unfoldable pub upsert_admin_user : Rfc3339 → ℕ → Text → Text → Sql Bool
unfolding ensure_ready transaction execute insert_row update affected
upsert_admin_user chrono now username password_hash = do
  ensure_ready
  transaction (reset_or_add username password_hash (chrono.print now))

unfoldable pub storage_capacity_warn : ℕ → ℕ → Bool
storage_capacity_warn used total = if total == 0 then false else leb (total * 9) (used * 10)
