-- ===== src/KeyCache.antt =====
-- service/src/keycache.rs, with `resolve_active_key` of service/src/api/mod.rs and the key operations
-- of service/src/admin/keys.rs, which share the cache. The cache is a map; its capacity, past which
-- it drops entries, is not modelled.
pub mod Coherent
pub mod Revoke
pub mod Tests
use green_relay.Prelude.{
  ℕ, Bool, true, false, List, [], ◌∷◌, ◌++◌, Option, none, some, ◌==◌, if◌then◌else◌, Result, map,
}
use green_relay.Text.{Text, codes, as_bytes}
use green_relay.HashMap.{HashMap, get, insert, remove}
use green_relay.Models.{Rfc3339}
use green_relay.Auth.{key_identifier}
use green_relay.Db.{Store, DbError, Sql, ◌>>=◌, ◌>>◌, pure}
use green_relay.Db.Keys.{
  lookup_active_key, insert_api_key, insert_audit, api_key_identifier, set_api_key_revoked,
  ApiKeyRecord, list_api_keys,
}

-- the id of the key and its own limit, or `none` for a key that is not active
abbrev pub CachedKey : Type 0
CachedKey = Option (ℕ × Option ℕ)

abbrev pub KeyCache : Type 0
KeyCache = HashMap CachedKey

-- the database and the cache
pub record Shared : Type 0 where
  pub store : Store
  pub cache : KeyCache

abbrev pub on_store : {A : Type 0} → KeyCache → Store × Result A DbError → Shared × Result A DbError
on_store cache (s, r) = (record { store = s; cache = cache }, r)

-- an answer of the database goes into the cache, an error does not
abbrev pub fill :
    KeyCache → Text → Store × Result CachedKey DbError → Shared × Result CachedKey DbError
fill cache identifier (s, Result.ok key) =
    (record { store = s; cache = insert identifier key cache }, Result.ok key)
fill cache identifier (s, Result.err e) = (record { store = s; cache = cache }, Result.err e)

abbrev pub resolve_in : Shared → Text → Option CachedKey → Shared × Result CachedKey DbError
resolve_in s identifier (some key) = (s, Result.ok key)
resolve_in s identifier none = fill s.cache identifier (lookup_active_key identifier s.store)

unfoldable pub resolve_active_key : Text → Shared → Shared × Result CachedKey DbError
unfolding get insert lookup_active_key
resolve_active_key identifier s = resolve_in s identifier (get s.cache identifier)

abbrev pub invalidate_some : Option Text → KeyCache → KeyCache
invalidate_some none cache = cache
invalidate_some (some identifier) cache = remove identifier cache

pub record ApiKeyView : Type 0 where
  pub id : ℕ
  pub key_identifier : Text
  pub custom_rate_limit : Option ℕ
  pub revoked : Bool
  pub created_at : ℕ

module _ (chrono : Rfc3339) where
  abbrev pub audited : {A : Type 0} → A → Store × Result Unit DbError → Store × Result A DbError
  audited a (s, Result.ok u) = (s, Result.ok a)
  audited a (s, Result.err e) = (s, Result.err e)

  -- what follows the `UPDATE`
  abbrev pub after_revoke :
      Text → ℕ → Option Text → KeyCache → Store × Result ℕ DbError → Shared × Result ℕ DbError
  after_revoke why now identifier cache (s, Result.err e) =
      (record { store = s; cache = cache }, Result.err e)
  after_revoke why now identifier cache (s, Result.ok affected) =
      if affected == 0
      then (record { store = s; cache = cache }, Result.ok affected)
      else on_store (invalidate_some identifier cache) (
          audited affected
            (insert_audit chrono (codes "api_key_revoked") identifier (some why) now s))

  abbrev pub with_identifier :
      ℕ → ℕ → KeyCache → Store × Result (Option Text) DbError → Shared × Result ℕ DbError
  with_identifier id now cache (s, Result.err e) =
      (record { store = s; cache = cache }, Result.err e)
  with_identifier id now cache (s, Result.ok identifier) =
      after_revoke (codes "admin revoked an API key") now identifier cache
        (set_api_key_revoked id s)

  unfoldable pub revoke_api_key : ℕ → ℕ → Shared → Shared × Result ℕ DbError
  unfolding remove insert_audit set_api_key_revoked api_key_identifier
  revoke_api_key id now s = with_identifier id now s.cache (api_key_identifier id s.store)

  abbrev pub new_view : ℕ → Text → ℕ → ApiKeyView
  new_view now identifier id = record {
    id = id;
    key_identifier = identifier;
    custom_rate_limit = none;
    revoked = false;
    created_at = now;
  }

  abbrev pub audit_created :
      ℕ → Text → Text → Store × Result ℕ DbError → Store × Result (Text × ApiKeyView) DbError
  audit_created now plaintext identifier (s, Result.err e) = (s, Result.err e)
  audit_created now plaintext identifier (s, Result.ok id) =
      audited (plaintext, new_view now identifier id)
        (insert_audit chrono (codes "api_key_created") (some identifier)
          (some (codes "admin created a new API key")) now s)

  module _ (sha256 : List ℕ → List ℕ) (hash_password : Text → Text) where
    -- with the random token that is drawn
    unfoldable pub create_api_key : Text → ℕ → Shared → Shared × Result (Text × ApiKeyView) DbError
    unfolding key_identifier insert_api_key insert_audit
    create_api_key random_token now s =
        let plaintext = codes "sk_" ++ random_token in
        let identifier = key_identifier sha256 plaintext in
        let key_hash = hash_password plaintext in
        on_store s.cache (
          audit_created now plaintext identifier
            (insert_api_key key_hash identifier (chrono.print now) s.store))

  abbrev pub view_of : ApiKeyRecord → ApiKeyView
  view_of r = record {
    id = r.id;
    key_identifier = r.key_identifier;
    custom_rate_limit = r.custom_rate_limit;
    revoked = r.revoked;
    created_at = r.created_at;
  }

  -- the list of the dashboard; a time that cannot be read is shown as `now`
  unfoldable pub list_key_views : ℕ → Sql (List ApiKeyView)
  unfolding list_api_keys
  list_key_views now = do records ← list_api_keys chrono now; pure (map view_of records)
