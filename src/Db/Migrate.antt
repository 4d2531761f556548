-- ===== src/Db/Migrate.antt =====
-- service/src/db.rs: the schema migrations.
pub mod Stages
pub mod Laws
use green_relay.Prelude.{
  ℕ, zero, ◌≡◌, refl, Bool, true, false, List, [], ◌∷◌, Option, none, some, leb, max, ◌==◌,
  if◌then◌else◌, Result,
}
use green_relay.Db.{
  Disk, Tables, no_rows, Store, SqlxError, unavailable, unique_violation, DbError, migration, sqlx,
  not_ready, Sql, ◌>>=◌, ◌>>◌, pure, statement, transaction,
}

pub data Schema : Type 0 where
  schema_v1 schema_v2 : Schema

pub record Migration : Type 0 where
  pub version : ℕ
  pub sql : Schema

unfoldable pub migrations : List Migration
migrations = record { version = 1; sql = schema_v1 } ∷ record { version = 2; sql = schema_v2 } ∷ []

abbrev pub or_default {ℓ} : {A : Type ℓ} → A → Option A → A
or_default d none = d
or_default d (some a) = a

-- What the two scripts do: `CREATE TABLE IF NOT EXISTS`, and an index that needs its table.
unfoldable pub run_schema : Schema → Disk → Result (Disk × Unit) SqlxError
run_schema schema_v1 d = Result.ok (record d { tables = some (or_default no_rows d.tables) }, tt)
run_schema schema_v2 d = elim (d.tables) [
  | none ↦ Result.err unavailable
  | some t ↦ Result.ok (record d { is_indexed = true }, tt)
]

abbrev pub contains_version : ℕ → List ℕ → Bool
contains_version v [] = false
contains_version v (w ∷ ws) = if v == w then true else contains_version v ws

abbrev pub add_version : ℕ → Disk → Option (List ℕ) → Result (Disk × Unit) SqlxError
add_version v d none = Result.err unavailable
add_version v d (some vs) =
    if contains_version v vs
    then Result.err unique_violation
    else Result.ok (record d { versions = some (v ∷ vs) }, tt)

abbrev pub max_in : List ℕ → Option ℕ
max_in [] = none
max_in (v ∷ vs) = some (max v (or_default 0 (max_in vs)))

abbrev pub max_version : Disk → Option (List ℕ) → Result (Disk × Option ℕ) SqlxError
max_version d none = Result.err unavailable
max_version d (some vs) = Result.ok (d, max_in vs)

-- `map_err` to the migration that failed
abbrev pub of_migration : {A : Type 0} → ℕ → Result A DbError → Result A DbError
of_migration v (Result.ok a) = Result.ok a
of_migration v (Result.err (sqlx e)) = Result.err (migration v e)
of_migration v (Result.err not_ready) = Result.err not_ready
of_migration v (Result.err (migration w e)) = Result.err (migration w e)

abbrev pub map_err : {A : Type 0} → ℕ → Sql A → Sql A
map_err v m s = let (s', r) = m s in (s', of_migration v r)

unfoldable pub run_migration : Migration → Sql Unit
unfolding statement transaction run_schema
run_migration m = map_err m.version (
    transaction
      do statement (run_schema m.sql); statement (λ d. add_version m.version d d.versions))

unfoldable pub run_pending : ℕ → List Migration → Sql Unit
unfolding run_migration
run_pending current [] = pure tt
run_pending current (m ∷ ms) =
    let rest = run_pending current ms in
    let pending = run_migration m >> rest in if leb m.version current then rest else pending

abbrev pub set_ready : Sql Unit
set_ready s = (record s { schema_ready = true }, Result.ok tt)

-- the first statement stands for taking a connection from the pool
unfoldable pub run_migrations : Sql Unit
unfolding statement run_pending migrations
run_migrations = do
  statement (λ d. Result.ok (d, tt))
  statement (λ d. Result.ok (record d { versions = some (or_default [] d.versions) }, tt))
  current ← statement (λ d. max_version d d.versions)
  run_pending (or_default 0 current) migrations
  set_ready
