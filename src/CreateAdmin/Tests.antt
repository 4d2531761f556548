-- ===== src/CreateAdmin/Tests.antt =====
-- Examples for service/src/lib.rs: an account is created in a new database.
use green_relay.Prelude.{◌≡◌, refl, true, false, [], ◌∷◌, none, some, Result}
use green_relay.Text.{Text, codes, is_whitespace}
use green_relay.Config.{Config, ConfigError}
use green_relay.Config.Tests.{config}
use green_relay.Db.{Tables, no_rows, Disk, Store, DbError}
use green_relay.Db.Tests.{numbers}
use green_relay.CreateAdmin.{create_admin}
use green_relay.CreateAdmin.Laws.{IsCreated, create_admin-IsCreated}

-- a hash that shows the password
abbrev marked : Text → Text
marked password = 36 ∷ password

abbrev opens : Text → Result Disk DbError
opens path = Result.ok (record { versions = none; tables = none; is_indexed = false })

abbrev loaded : Result (Config Text) ConfigError
loaded = Result.ok config

abbrev one_admin : Tables
one_admin = record no_rows {
  admin_users = record {
    rows =
        record {
          id = 1;
          username = codes "root";
          password_hash = codes "$pw";
          failed_attempts = 0;
          locked_until = none;
          created_at = 9 ∷ [];
        }
        ∷ [];
    seq = 1;
  };
}

abbrev left : Store
left = record {
  fails = λ n. false;
  ran = 15;
  schema_ready = true;
  disk = record { versions = some (2 ∷ 1 ∷ []); tables = some one_admin; is_indexed = true };
}

created :
    create_admin numbers 9 (λ n. false) opens marked (codes "root") (codes "pw") loaded
    ≡ (some left, Result.ok true)
unfolding create_admin is_whitespace
created = refl

create_admin-IsCreated_example : IsCreated marked (codes "root") (codes "pw") left
create_admin-IsCreated_example =
    create_admin-IsCreated numbers 9 (λ n. false) opens marked (codes "root") (codes "pw") loaded
      left true created refl
