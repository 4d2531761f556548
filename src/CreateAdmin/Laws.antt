-- ===== src/CreateAdmin/Laws.antt =====
-- service/src/lib.rs: what `create_admin` leaves when it succeeds.
use green_relay.Prelude.{ℕ, ◌≡◌, refl, ap, ◌∙◌, Bool, false, some, Bool-cases, inl, inr, Result}
use green_relay.Text.{Text, trim}
use green_relay.Models.{Rfc3339}
use green_relay.Config.{Config, ConfigError, is_empty}
use green_relay.Db.{Disk, Store, DbError}
use green_relay.Db.Migrate.{run_migrations}
use green_relay.Db.Admins.{find_admin_credentials, upsert_admin_user}
use green_relay.Db.Admins.Laws.{find-upsert}
use green_relay.CreateAdmin.{of_db, after_migrations, with_db, with_config, create_admin, opened}

-- The account is there with a hash that is a text.
record IsRead (username hash : Text) (s : Store) : Type 0 where
  hashed : is_empty hash ≡ false
  id : ℕ
  read : (find_admin_credentials username s).1 ≡ Result.ok (some (id, hash))

module _ (chrono : Rfc3339) (now : ℕ) (username hash : Text) where
  of_db-read :
      (s s' : Store) (r : Store × Result Bool DbError) (b : Bool)
      → upsert_admin_user chrono now username hash s ≡ r
      → of_db r ≡ (some s', Result.ok b)
      → s'.fails s'.ran ≡ false
      → (id : ℕ) × ((find_admin_credentials username s').1 ≡ Result.ok (some (id, hash)))
  of_db-read s s' (s1, Result.ok a) b q h e =
      let same : s1 ≡ s' = cc in
      find-upsert chrono now username hash s s' a (q ∙ ap (λ x. (x, Result.ok a)) same) e
  of_db-read s s' (s1, Result.err x) b q h e = cc

  after_migrations-IsRead :
      (r : Store × Result (Unit {0}) DbError) (s' : Store) (b : Bool)
      → after_migrations chrono now username hash r ≡ (some s', Result.ok b)
      → s'.fails s'.ran ≡ false
      → IsRead username hash s'
  after_migrations-IsRead (s, Result.ok u) s' b h e = elim (Bool-cases (is_empty hash)) [
    | inl y ↦ cc (rw y at h)
    | inr y ↦
        let (i, q) =
          of_db-read s s' (upsert_admin_user chrono now username hash s) b refl (rw y at h) e in
        record { hashed = y; id = i; read = q }
  ]
  after_migrations-IsRead (s, Result.err x) s' b h e = cc

-- The name is not blank, the password not empty, and the account is there with the hash of the
-- password.
pub record IsCreated (hash_password : Text → Text) (username password : Text) (s : Store)
    : Type 0 where
  pub named : is_empty (trim username) ≡ false
  pub given : is_empty password ≡ false
  pub hashed : is_empty (hash_password password) ≡ false
  pub id : ℕ
  pub read : (find_admin_credentials username s).1 ≡ Result.ok (some (id, hash_password password))

module _ (chrono : Rfc3339) (now : ℕ) (fails : ℕ → Bool) (connect : Text → Result Disk DbError)
    (hash_password : Text → Text) (username password : Text) where
  with_db-IsRead :
      (r : Result Disk DbError) (s' : Store) (b : Bool)
      → with_db chrono now fails connect hash_password username password r ≡ (some s', Result.ok b)
      → s'.fails s'.ran ≡ false
      → IsRead username (hash_password password) s'
  with_db-IsRead (Result.err x) s' b h e = cc
  with_db-IsRead (Result.ok d) s' b h e =
      after_migrations-IsRead chrono now username (hash_password password)
        (run_migrations (opened fails d)) s' b h e

  with_config-IsRead :
      {S : Type 0} (loaded : Result (Config S) ConfigError) (s' : Store) (b : Bool)
      → with_config chrono now fails connect hash_password username password loaded
        ≡ (some s', Result.ok b)
      → s'.fails s'.ran ≡ false
      → IsRead username (hash_password password) s'
  with_config-IsRead (Result.err x) s' b h e = cc
  with_config-IsRead (Result.ok c) s' b h e = with_db-IsRead (connect c.database_path) s' b h e

  -- If the set-up of an administrator succeeds, the name was not blank, the password not empty and
  -- its hash a text, and the account, whether new or reset, is read back from the database with
  -- that hash, if the read does not fail.
  pub create_admin-IsCreated :
      {S : Type 0} (loaded : Result (Config S) ConfigError) (s' : Store) (b : Bool)
      → create_admin chrono now fails connect hash_password username password loaded
        ≡ (some s', Result.ok b)
      → s'.fails s'.ran ≡ false
      → IsCreated hash_password username password s'
  unfolding create_admin
  create_admin-IsCreated loaded s' b h e = elim (Bool-cases (is_empty (trim username))) [
    | inl y ↦ cc (rw y at h)
    | inr y ↦ elim (Bool-cases (is_empty password)) [
      | inl z ↦ cc (rw (y, z) at h)
      | inr z ↦
          let r : IsRead username (hash_password password) s' =
            with_config-IsRead loaded s' b (rw (y, z) at h) e in
          record { named = y; given = z; hashed = r.hashed; id = r.id; read = r.read }
    ]
  ]
