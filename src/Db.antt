-- ===== src/Db.antt =====
-- service/src/db.rs with DbError of error.rs and service/src/sql/schema_v1.sql: the tables, and the
-- statements and transactions of sqlx as a monad. Which statements SQLite fails to run is an
-- argument: the one that comes after n others fails if `fails n` holds.
pub mod Rows
pub mod Statement
pub mod Migrate
pub mod Outbound
pub mod Inbound
pub mod Keys
pub mod Admins
pub mod Activity
pub mod Tests
use green_relay.Prelude.{
  ℕ, suc, ◌≡◌, Bool, true, false, List, [], ◌∷◌, Option, none, some, if◌then◌else◌, Result,
}
use green_relay.Text.{Text}
use green_relay.Db.Rows.{Table, empty}

pub record OutboundRow : Type 0 where
  pub id : ℕ
  pub to_number : Text
  pub body : Text
  pub status : Text
  pub part_count : ℕ
  pub msg_reference : Option Text
  pub error_code : Option Text
  pub created_at : Text
  pub updated_at : Text

pub record InboundRow : Type 0 where
  pub id : ℕ
  pub from_number : Text
  pub body : Text
  pub received_at : Text

pub record ApiKeyRow : Type 0 where
  pub id : ℕ
  pub key_hash : Text
  pub key_identifier : Text
  pub custom_rate_limit : Option ℕ
  pub revoked : ℕ
  pub created_at : Text

pub record AdminRow : Type 0 where
  pub id : ℕ
  pub username : Text
  pub password_hash : Text
  pub failed_attempts : ℕ
  pub locked_until : Option Text
  pub created_at : Text

pub record AuditRow : Type 0 where
  pub id : ℕ
  pub event_type : Text
  pub key_identifier : Option Text
  pub detail : Option Text
  pub created_at : Text

pub record Tables : Type 0 where
  pub outbound_messages : Table OutboundRow
  pub inbound_messages : Table InboundRow
  pub api_keys : Table ApiKeyRow
  pub admin_users : Table AdminRow
  pub audit_log : Table AuditRow

abbrev pub no_rows : Tables
no_rows = record {
  outbound_messages = empty;
  inbound_messages = empty;
  api_keys = empty;
  admin_users = empty;
  audit_log = empty;
}

-- What the database file holds: the versions in schema_migrations, newest first, if that table is
-- there, the tables, if they are, and whether the index of the second migration is.
pub record Disk : Type 0 where
  pub versions : Option (List ℕ)
  pub tables : Option Tables
  pub is_indexed : Bool

pub record Store : Type 0 where
  pub fails : ℕ → Bool
  pub ran : ℕ
  pub schema_ready : Bool
  pub disk : Disk

-- `Unavailable` stands for a statement that SQLite fails to run, a missing table included.
pub data SqlxError : Type 0 where
  row_not_found decode unavailable unique_violation : SqlxError

pub data DbError : Type 0 where
  not_ready : DbError
  migration : ℕ → SqlxError → DbError
  sqlx : SqlxError → DbError

unfoldable pub is_not_ready : DbError → Bool
is_not_ready not_ready = true
is_not_ready (migration v e) = false
is_not_ready (sqlx e) = false

abbrev pub Sql : Type 0 → Type 0
Sql A = Store → Store × Result A DbError

abbrev pub after :
    {A B : Type 0} → (A → Sql B) → Store × Result A DbError → Store × Result B DbError
after f (s, Result.ok a) = f a s
after f (s, Result.err e) = (s, Result.err e)

infixl 5 ◌>>=◌ ◌>>◌
abbrev pub ◌>>=◌ : {A B : Type 0} → Sql A → (A → Sql B) → Sql B
(m >>= f) s = after f (m s)

abbrev pub ◌>>◌ : {A B : Type 0} → Sql A → Sql B → Sql B
m >> k = m >>= λ _. k

abbrev pub pure : {A : Type 0} → A → Sql A
pure a s = (s, Result.ok a)

abbrev pub throw : {A : Type 0} → DbError → Sql A
throw e s = (s, Result.err e)

abbrev pub lift : {A : Type 0} → Result A DbError → Sql A
lift r s = (s, r)

abbrev pub some_ok : {A : Type 0} → Result A DbError → Result (Option A) DbError
some_ok (Result.ok a) = Result.ok (some a)
some_ok (Result.err e) = Result.err e

abbrev pub succeeded : {A : Type 0} → Result A DbError → Bool
succeeded (Result.ok a) = true
succeeded (Result.err e) = false

abbrev pub count_run : Store → Store
count_run s = record s { ran = suc s.ran }

abbrev pub set_disk : Store → Disk → Store
set_disk s d = record s { disk = d }

-- one statement: its effect on the file and its answer, or the error by which it changes nothing
abbrev pub answered : {A : Type 0} → Store → Result (Disk × A) SqlxError → Store × Result A DbError
answered s (Result.ok (d, a)) = (set_disk s d, Result.ok a)
answered s (Result.err e) = (s, Result.err (sqlx e))

unfoldable pub statement : {A : Type 0} → (Disk → Result (Disk × A) SqlxError) → Sql A
statement f s =
    if s.fails s.ran
    then (count_run s, Result.err (sqlx unavailable))
    else answered (count_run s) (f s.disk)

abbrev pub stored :
    {A : Type 0} → Disk → Result (Tables × A) SqlxError → Result (Disk × A) SqlxError
stored d (Result.ok (t, a)) = Result.ok (record d { tables = some t }, a)
stored d (Result.err e) = Result.err e

-- a statement on the tables
abbrev pub in_tables :
    {A : Type 0}
    → Disk
    → (Tables → Result (Tables × A) SqlxError)
    → Option Tables
    → Result (Disk × A) SqlxError
in_tables d f none = Result.err unavailable
in_tables d f (some t) = stored d (f t)

unfoldable pub execute : {A : Type 0} → (Tables → Result (Tables × A) SqlxError) → Sql A
unfolding statement
execute f = statement (λ d. in_tables d f d.tables)

unfoldable pub fetch : {A : Type 0} → (Tables → A) → Sql A
unfolding execute
fetch f = execute (λ t. Result.ok (t, f t))

-- the end of a transaction: a commit that fails, an error inside and a rollback leave the file as it
-- was before the transaction
abbrev pub finished : {A : Type 0} → Disk → Store × Result A DbError → Store × Result A DbError
finished before (s, Result.err e) = (set_disk s before, Result.err e)
finished before (s, Result.ok a) =
    if s.fails s.ran
    then (set_disk (count_run s) before, Result.err (sqlx unavailable))
    else (count_run s, Result.ok a)

unfoldable pub transaction : {A : Type 0} → Sql A → Sql A
transaction m s =
    if s.fails s.ran
    then (count_run s, Result.err (sqlx unavailable))
    else finished s.disk (m (count_run s))

unfoldable pub ensure_ready : Sql Unit
ensure_ready s = if s.schema_ready then (s, Result.ok tt) else (s, Result.err not_ready)
