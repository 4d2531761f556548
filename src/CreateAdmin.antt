-- ===== src/CreateAdmin.antt =====
-- service/src/lib.rs: `create_admin`, with the errors of service/src/error.rs (RunError) that it gives.
-- What it prints is left out.
pub mod Laws
pub mod Tests
use green_relay.Prelude.{ℕ, Bool, true, false, Option, none, some, if◌then◌else◌, Result}
use green_relay.Text.{Text, codes, trim}
use green_relay.Models.{Rfc3339}
use green_relay.Config.{Config, ConfigError, is_empty}
use green_relay.Db.{Disk, Store, DbError}
use green_relay.Db.Migrate.{run_migrations}
use green_relay.Db.Admins.{upsert_admin_user}

pub data RunError : Type 0 where
  config : ConfigError → RunError
  db : DbError → RunError
  admin_setup : Text → RunError

-- the database, if it was opened, and the answer: whether the account is a new one
abbrev pub Created : Type 0
Created = Option Store × Result Bool RunError

abbrev pub of_db : Store × Result Bool DbError → Created
of_db (s, Result.ok created) = (some s, Result.ok created)
of_db (s, Result.err e) = (some s, Result.err (db e))

abbrev pub reject_setup : Text → Option Store → Created
reject_setup reason s = (s, Result.err (admin_setup reason))

abbrev pub opened : (ℕ → Bool) → Disk → Store
opened fails d = record { fails = fails; ran = 0; schema_ready = false; disk = d }

module _ (chrono : Rfc3339) (now : ℕ) where
  abbrev pub after_migrations : Text → Text → Store × Result Unit DbError → Created
  after_migrations username hash (s, Result.err e) = (some s, Result.err (db e))
  after_migrations username hash (s, Result.ok u) =
      if is_empty hash
      then reject_setup (codes "failed to hash the password") (some s)
      else of_db (upsert_admin_user chrono now username hash s)

  -- `connect` opens the file at a path, or fails; `hash_password` gives no text when it fails
  module _ (fails : ℕ → Bool) (connect : Text → Result Disk DbError)
      (hash_password : Text → Text) where
    abbrev pub with_db : Text → Text → Result Disk DbError → Created
    with_db username password (Result.err e) = (none, Result.err (db e))
    with_db username password (Result.ok d) =
        after_migrations username (hash_password password) (run_migrations (opened fails d))

    abbrev pub with_config : {S : Type 0} → Text → Text → Result (Config S) ConfigError → Created
    with_config username password (Result.err e) = (none, Result.err (config e))
    with_config username password (Result.ok c) =
        with_db username password (connect c.database_path)

    -- with the configuration that was loaded
    unfoldable pub create_admin :
        {S : Type 0} → Text → Text → Result (Config S) ConfigError → Created
    unfolding trim run_migrations upsert_admin_user
    create_admin username password loaded =
        if is_empty (trim username)
        then reject_setup (codes "username must not be empty") none
        else if is_empty password
        then reject_setup (codes "password must not be empty") none
        else with_config username password loaded
