-- ===== src/KeyCache/Tests.antt =====
-- Examples for service/src/keycache.rs: a key that is cached is revoked.
use green_relay.Prelude.{
  ◌≡◌, ◌≢◌, refl, sym, ap, ◌∙◌, Bool-cases, inl, inr, true, false, [], ◌∷◌, none, some, Result,
  arith,
}
use green_relay.Text.{codes, text_eq}
use green_relay.Text.Equality.{text_eq_sound}
use green_relay.HashMap.{get}
use green_relay.Db.{ApiKeyRow, Tables, no_rows, Store, fetch}
use green_relay.Db.Keys.{lookup_active_key, key_with_id, active_key}
use green_relay.Db.Rows.{find}
use green_relay.Db.Tests.{numbers}
use green_relay.KeyCache.{CachedKey, Shared, resolve_active_key, revoke_api_key}
use green_relay.KeyCache.Coherent.{IsCoherent, KeysIn}
use green_relay.KeyCache.Revoke.{
  revoke_api_key-IsCoherent, revoke_refuses, IsStale, stale_after_race,
}

abbrev key_row : ApiKeyRow
key_row = record {
  id = 1;
  key_hash = codes "h";
  key_identifier = codes "k";
  custom_rate_limit = some 5;
  revoked = 0;
  created_at = codes "0";
}

abbrev key_tables : Tables
key_tables = record no_rows { api_keys = record { rows = key_row ∷ []; seq = 1 } }

abbrev pub key_store : Store
key_store = record {
  fails = λ n. false;
  ran = 0;
  schema_ready = true;
  disk = record { versions = some (2 ∷ 1 ∷ []); tables = some key_tables; is_indexed = true };
}

abbrev pub empty_cache : Shared
empty_cache = record { store = key_store; cache = [] }

abbrev found : Shared × Result CachedKey green_relay.Db.DbError
found = resolve_active_key (codes "k") empty_cache

valid : KeysIn (some key_tables)
unfolding find
valid = ((omega arith, omega arith), (refl, tt))

key_found : find (key_with_id 1) key_tables.api_keys.rows ≡ some key_row
unfolding find
key_found = refl

key_active : active_key (codes "k") key_tables ≡ some (1, some 5)
unfolding active_key
key_active = refl

coherent : IsCoherent empty_cache
unfolding get
coherent = record { held = λ k v g. cc }

-- the key is in the cache
abbrev cached : Shared
cached = record { store = key_store; cache = (codes "k", some (1, some 5)) ∷ [] }

cached-IsCoherent : IsCoherent cached
unfolding get
cached-IsCoherent = record {
  held = λ j v g. elim (Bool-cases (text_eq (codes "k") j)) [
    | inl y ↦
        let now_held : v ≡ some (1, some 5) = cc (rw y at g) in
        now_held
        ∙ (sym key_active ∙ ap (λ i. active_key i key_tables) (text_eq_sound (codes "k") j y))
    | inr n ↦ cc (rw n at g)
  ];
}

revoke_api_key-IsCoherent_example : IsCoherent (revoke_api_key numbers 1 9 cached).0
revoke_api_key-IsCoherent_example =
    revoke_api_key-IsCoherent numbers 1 9 cached valid cached-IsCoherent

abbrev gone : Shared
gone = (revoke_api_key numbers 1 9 cached).0

revoked_one : revoke_api_key numbers 1 9 cached ≡ (gone, Result.ok 1)
unfolding revoke_api_key
revoked_one = refl

revoke_refuses_example : (resolve_active_key (codes "k") gone).1 ≢ Result.ok (some (1, some 5))
revoke_refuses_example =
    revoke_refuses numbers 1 9 1 cached gone key_tables key_row (1, some 5) cached-IsCoherent refl
      valid key_found revoked_one refl

-- the key is looked up, revoked, and then put into the cache
abbrev looked : Store
looked = record key_store { ran = 1 }

abbrev raced : Shared
raced = (revoke_api_key numbers 1 9 (record { store = looked; cache = [] })).0

found_one : lookup_active_key (codes "k") key_store ≡ (looked, Result.ok (some (1, some 5)))
unfolding lookup_active_key
found_one = refl

raced_one :
    revoke_api_key numbers 1 9 (record { store = looked; cache = [] }) ≡ (raced, Result.ok 1)
unfolding revoke_api_key
raced_one = refl

not_held : get empty_cache.cache (codes "k") ≡ none
unfolding get
not_held = refl

stale_after_race_example :
    IsStale numbers 1 9 1 empty_cache looked raced key_tables key_row (1, some 5)
stale_after_race_example =
    stale_after_race numbers 1 9 1 empty_cache looked raced key_tables key_row (1, some 5) not_held
      refl valid key_found found_one raced_one refl
