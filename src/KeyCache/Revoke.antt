-- ===== src/KeyCache/Revoke.antt =====
-- service/src/keycache.rs with the operations that share the cache: revoking a key.
use green_relay.Prelude.{
  ℕ, ◌≡◌, ◌≢◌, refl, ap, sym, ◌∙◌, true, false, Option, none, some, ◌==◌, inl, inr, Result,
  Bool-cases, Option-cases, ==_iff,
}
use mathlib.Core.Path.{subst}
use green_relay.Text.{Text, codes, text_eq}
use green_relay.Text.Equality.{text_eq_refl}
use green_relay.HashMap.{get, insert, remove, get-insert, get-remove}
use green_relay.Models.{Rfc3339}
use green_relay.Db.{ApiKeyRow, Tables, Store, DbError, count_run, set_disk}
use green_relay.Db.Rows.{Table, find, affected, affected-none, update_none}
use green_relay.Db.Statement.{failed, carried_out, execute-Executed, fetch-ok, fetch-tables}
use green_relay.Db.Keys.{
  lookup_active_key, id_and_limit, is_active, audit_statement, revoke_statement, set_revoked,
  active_key, api_key_identifier, set_api_key_revoked, insert_audit, revoke_rows, key_with_id,
  identifier_in,
}
use green_relay.Db.Keys.Laws.{find-update_other, find-update_revoked}
use green_relay.KeyCache.Coherent.{key_in, IsCoherent, KeysIn, resolve_active_key-key_in}
use green_relay.KeyCache.{
  fill, CachedKey, KeyCache, Shared, invalidate_some, on_store, audited, resolve_active_key,
  revoke_api_key, after_revoke, with_identifier,
}

-- A store whose keys are those of another keeps a cache coherent.
same_keys-IsCoherent :
    (cache : KeyCache) (s s' : Store)
    → ((j : Text) → key_in s'.disk.tables j ≡ key_in s.disk.tables j)
    → IsCoherent (record { store = s; cache = cache })
    → IsCoherent (record { store = s'; cache = cache })
same_keys-IsCoherent cache s s' same h = record { held = λ j v g. h.held j v g ∙ sym (same j) }

module _ (id : ℕ) (cache : KeyCache) (t : Tables) (valid : KeysIn (some t)) where
  -- what is left in the cache is what the rows say after the key was revoked
  revoked_keys :
      (s : Store)
      → s.disk.tables ≡ some t
      → (affected (key_with_id id) t.api_keys.rows == 0) ≡ false
      → IsCoherent (record { store = s; cache = cache })
      → (j : Text) (v : CachedKey)
      → get (invalidate_some (identifier_in (find (key_with_id id) t.api_keys.rows)) cache) j
        ≡ some v
      → v ≡ active_key j (revoke_rows id t)
  unfolding active_key
  revoked_keys s e some_row h j v g = elim (Option-cases (find (key_with_id id) t.api_keys.rows)) [
    | inl q ↦
        cc (sym some_row ∙ ap (λ n. n == 0) (affected-none (key_with_id id) t.api_keys.rows q))
    | inr (r, q) ↦
        let g' : get (remove r.key_identifier cache) j ≡ some v = rw q at g in
        elim (Bool-cases (text_eq r.key_identifier j)) [
          | inl y ↦ cc (rw (get-remove cache r.key_identifier j, y) at g')
          | inr n ↦
              h.held j v (rw (get-remove cache r.key_identifier j, n) at g')
              ∙ (ap (λ o. key_in o j) e
                  ∙ ap id_and_limit
                      (sym (find-update_other id 0 t.api_keys.seq j r t.api_keys.rows valid.0 q n)))
        ]
  ]

audited-store :
    {A : Type 0} (chrono : Rfc3339) (a : A) (r : Store × Result Unit DbError)
    → (audited chrono a r).0 ≡ r.0
audited-store chrono a (s, Result.ok u) = refl
audited-store chrono a (s, Result.err e) = refl

module _ (chrono : Rfc3339) where
  -- the audit record changes no key
  audit-key_in :
      (event : Text) (k detail : Option Text) (now : ℕ) (s : Store) (j : Text)
      → key_in (insert_audit chrono event k detail now s).0.disk.tables j ≡ key_in s.disk.tables j
  unfolding insert_audit active_key
  audit-key_in event k detail now s j =
      elim (execute-Executed (audit_statement chrono event k detail now) s) [
        | failed x q ↦ ap (λ (r : Store × Result (Unit {0}) DbError). key_in r.0.disk.tables j) q
        | carried_out t t' u q1 q2 q3 ↦
            let same : t'.api_keys ≡ t.api_keys = cc in
            ap (λ (r : Store × Result (Unit {0}) DbError). key_in r.0.disk.tables j) q3
            ∙ (ap (λ (a : Table ApiKeyRow). id_and_limit (find (is_active j) a.rows)) same
                ∙ ap (λ o. key_in o j) (sym q1))
      ]

  module _ (id now : ℕ) (s : Store) (cache : KeyCache) (valid : KeysIn s.disk.tables)
      (h : IsCoherent (record { store = s; cache = cache })) where
    moved :
        (t t' : Tables) (n : ℕ)
        → revoke_statement id t ≡ Result.ok (t', n)
        → (t' ≡ revoke_rows id t) × (n ≡ affected (key_with_id id) t.api_keys.rows)
    moved t t' n q = (cc, cc)

    unmoved :
        (t t' : Tables) (n : ℕ)
        → s.disk.tables ≡ some t
        → revoke_statement id t ≡ Result.ok (t', n)
        → (n == 0) ≡ true
        → (j : Text) → active_key j t' ≡ key_in s.disk.tables j
    unfolding active_key
    unmoved t t' n q1 q z j =
        let none_hit : affected (key_with_id id) t.api_keys.rows ≡ 0 =
          sym (moved t t' n q).1 ∙ (==_iff n 0).0 z in
        ap (active_key j) (moved t t' n q).0
        ∙ (ap (λ rows. id_and_limit (find (is_active j) rows))
              (update_none (key_with_id id) set_revoked t.api_keys.rows none_hit)
            ∙ ap (λ o. key_in o j) (sym q1))

    -- the `UPDATE` and what follows it, in a store `s` that was read for the identifier
    after_revoke-IsCoherent :
        (why : Text) (identifier : Option Text)
        → ((t : Tables)
            → s.disk.tables ≡ some t
            → identifier ≡ identifier_in (find (key_with_id id) t.api_keys.rows))
        → IsCoherent (after_revoke chrono why now identifier cache (set_api_key_revoked id s)).0
    unfolding set_api_key_revoked
    after_revoke-IsCoherent why identifier read = elim (execute-Executed (revoke_statement id) s) [
      | failed x q ↦ rw q (same_keys-IsCoherent cache s (count_run s) (λ j. refl) h)
      | carried_out t t' n q1 q2 q3 ↦ rw q3 (elim (Bool-cases (n == 0)) [
        | inl z ↦ rw z (
            same_keys-IsCoherent cache s
              (set_disk (count_run s) (record (s.disk) { tables = some t' }))
              (λ j. unmoved t t' n q1 q2 z j) h)
        | inr z ↦ rw z (record {
          held = λ j v g.
              revoked_keys id cache t (subst KeysIn q1 valid) s q1
                (ap (λ m. m == 0) (sym (moved t t' n q2).1) ∙ z) h j v
                (subst (λ i. get (invalidate_some i cache) j ≡ some v) (read t q1) g)
              ∙ (ap (active_key j) (sym (moved t t' n q2).0)
                  ∙ sym (
                      ap (λ (x : Store). key_in x.disk.tables j) (audited-store chrono n _)
                      ∙ audit-key_in (codes "api_key_revoked") identifier (some why) now
                          (set_disk (count_run s) (record (s.disk) { tables = some t' })) j));
        })
      ])
    ]

  with_identifier-IsCoherent :
      (id now : ℕ) (s : Shared) (r : Store × Result (Option Text) DbError)
      → api_key_identifier id s.store ≡ r
      → KeysIn s.store.disk.tables
      → IsCoherent s
      → IsCoherent (with_identifier chrono id now s.cache r).0
  unfolding api_key_identifier
  with_identifier-IsCoherent id now s (s1, Result.err x) e valid h =
      same_keys-IsCoherent s.cache s.store s1
        (λ j. ap (λ o. key_in o j) (same s1 (ap (λ p. p.0) e))) h
    where
      same :
          (s2 : Store)
          → (api_key_identifier id s.store).0 ≡ s2
          → s2.disk.tables ≡ s.store.disk.tables
      same s2 q =
          ap (λ (x : Store). x.disk.tables) (sym q)
          ∙ fetch-tables (λ t. identifier_in (find (key_with_id id) t.api_keys.rows)) s.store
  with_identifier-IsCoherent id now s (s1, Result.ok k) e valid h =
      let f : Tables → Option Text = λ t. identifier_in (find (key_with_id id) t.api_keys.rows) in
      let (t, b1, b2, b3) = fetch-ok s.store f s1 k e in
      after_revoke-IsCoherent id now s1 s.cache (subst KeysIn (b1 ∙ sym b2) valid)
        (same_keys-IsCoherent s.cache s.store s1 (λ j. ap (λ o. key_in o j) (b2 ∙ sym b1)) h)
        (codes "admin revoked an API key") k (λ u q. let same : t ≡ u = cc in b3 ∙ ap f same)

  -- Revoking a key, on whatever path it ends, leaves a cache that agrees with the database in
  -- agreement with it, if the ids of the keys ascend and their identifiers differ.
  pub revoke_api_key-IsCoherent :
      (id now : ℕ) (s : Shared)
      → KeysIn s.store.disk.tables
      → IsCoherent s
      → IsCoherent (revoke_api_key chrono id now s).0
  unfolding revoke_api_key
  revoke_api_key-IsCoherent id now s valid h =
      with_identifier-IsCoherent id now s (api_key_identifier id s.store) refl valid h

  after_revoke_ok :
      (why : Text) (k : Option Text) (id now n : ℕ) (s : Store) (cache : KeyCache) (s' : Shared)
      (t : Tables)
      → s.disk.tables ≡ some t
      → after_revoke chrono why now k cache (set_api_key_revoked id s) ≡ (s', Result.ok n)
      → (n == 0) ≡ false
      → (j : Text) → key_in s'.store.disk.tables j ≡ active_key j (revoke_rows id t)
  unfolding set_api_key_revoked
  after_revoke_ok why k id now n s cache s' t e done some_row j =
      elim (execute-Executed (revoke_statement id) s) [
        | failed x q ↦ cc (rw q at done)
        | carried_out u u' m q1 q2 q3 ↦
            let s2 : Store = set_disk (count_run s) (record (s.disk) { tables = some u' }) in
            let done' : after_revoke chrono why now k cache (s2, Result.ok m) ≡ (s', Result.ok n) =
              rw q3 at done in
            elim (Bool-cases (m == 0)) [
              | inl z ↦
                  let same : m ≡ n = cc (rw z at done') in
                  cc (sym z ∙ (ap (λ x. x == 0) same ∙ some_row))
              | inr z ↦
                  let p : on_store (invalidate_some k cache) (
                        audited chrono m
                          (insert_audit chrono (codes "api_key_revoked") k (some why) now s2))
                      ≡ (s', Result.ok n) =
                    rw z at done' in
                  let kept : t ≡ u = cc in
                  let now_rows : u' ≡ revoke_rows id u = cc in
                  ap (λ (x : Shared × Result ℕ DbError). key_in x.0.store.disk.tables j) (sym p)
                  ∙ (ap (λ (x : Store). key_in x.disk.tables j)
                        (audited-store chrono m
                          (insert_audit chrono (codes "api_key_revoked") k (some why) now s2))
                      ∙ (audit-key_in (codes "api_key_revoked") k (some why) now s2 j
                          ∙ ap (active_key j) (now_rows ∙ ap (revoke_rows id) (sym kept))))
            ]
      ]

  with_identifier_ok :
      (id now n : ℕ) (s s' : Shared) (t : Tables) (r : Store × Result (Option Text) DbError)
      → api_key_identifier id s.store ≡ r
      → s.store.disk.tables ≡ some t
      → with_identifier chrono id now s.cache r ≡ (s', Result.ok n)
      → (n == 0) ≡ false
      → (j : Text) → key_in s'.store.disk.tables j ≡ active_key j (revoke_rows id t)
  unfolding api_key_identifier
  with_identifier_ok id now n s s' t (s1, Result.err x) q e done some_row j = cc
  with_identifier_ok id now n s s' t (s1, Result.ok k) q e done some_row j =
      let (u, b1, b2, b3) =
        fetch-ok s.store (λ t. identifier_in (find (key_with_id id) t.api_keys.rows)) s1 k q in
      after_revoke_ok (codes "admin revoked an API key") k id now n s1 s.cache s' t
        (b2 ∙ (sym b1 ∙ e)) done some_row j

  -- Once a key has been revoked, looking it up finds nothing, in the cache or in the database.
  revoked_refused :
      (id now n : ℕ) (s s' s'' : Shared) (t : Tables) (r : ApiKeyRow) (v : CachedKey)
      → IsCoherent s
      → s.store.disk.tables ≡ some t
      → KeysIn (some t)
      → find (key_with_id id) t.api_keys.rows ≡ some r
      → revoke_api_key chrono id now s ≡ (s', Result.ok n)
      → (n == 0) ≡ false
      → resolve_active_key r.key_identifier s' ≡ (s'', Result.ok v)
      → v ≡ none
  unfolding revoke_api_key active_key
  revoked_refused id now n s s' s'' t r v h e valid q done some_row found =
      let coherent : IsCoherent s' =
        subst (λ (p : Shared × Result ℕ DbError). IsCoherent p.0) done
          (revoke_api_key-IsCoherent id now s (subst KeysIn (sym e) valid) h) in
      resolve_active_key-key_in r.key_identifier s' coherent s'' v found
      ∙ (with_identifier_ok id now n s s' t (api_key_identifier id s.store) refl e done some_row
            r.key_identifier
          ∙ ap id_and_limit
              (find-update_revoked id 0 t.api_keys.seq r t.api_keys.rows valid.0 valid.1 q))

module _ (chrono : Rfc3339) where
  -- Once a key has been revoked, in a database whose ids ascend and whose identifiers differ and
  -- with a cache that agrees with it, looking the key up gives no key, in the cache or in the
  -- database.
  pub revoke_refuses :
      (id now n : ℕ) (s s' : Shared) (t : Tables) (r : ApiKeyRow) (key : ℕ × Option ℕ)
      → IsCoherent s
      → s.store.disk.tables ≡ some t
      → KeysIn (some t)
      → find (key_with_id id) t.api_keys.rows ≡ some r
      → revoke_api_key chrono id now s ≡ (s', Result.ok n)
      → (n == 0) ≡ false
      → (resolve_active_key r.key_identifier s').1 ≢ Result.ok (some key)
  revoke_refuses id now n s s' t r key c q valid f done some_row h =
      let none_left : some key ≡ none =
        revoked_refused chrono id now n s s' (resolve_active_key r.key_identifier s').0 t r
          (some key) c q valid f done some_row
          (ap (λ x. ((resolve_active_key r.key_identifier s').0, x)) h) in
      cc

module _ (chrono : Rfc3339) (id now n : ℕ) (s : Shared) (looked : Store) (revoked : Shared)
    (t : Tables) (r : ApiKeyRow) (key : ℕ × Option ℕ) where
  -- the look-up that was begun before the revocation fills the cache after it
  abbrev pub filled_late : Shared
  filled_late = (fill revoked.cache r.key_identifier (revoked.store, Result.ok (some key))).0

  -- The look-up is these two steps, the key is gone from the database, and the cache gives it.
  pub record IsStale : Type 0 where
    pub two_steps :
        resolve_active_key r.key_identifier s
        ≡ fill s.cache r.key_identifier (looked, Result.ok (some key))
    pub gone : key_in filled_late.store.disk.tables r.key_identifier ≡ none
    pub given :
        resolve_active_key r.key_identifier filled_late ≡ (filled_late, Result.ok (some key))

  -- The look-up of a key that the cache does not hold is a query and a filling of the cache; if the
  -- key, in a database whose ids ascend and whose identifiers differ, is revoked between the two,
  -- the database no longer has it, and the cache gives it from then on.
  pub stale_after_race :
      get s.cache r.key_identifier ≡ none
      → s.store.disk.tables ≡ some t
      → KeysIn (some t)
      → find (key_with_id id) t.api_keys.rows ≡ some r
      → lookup_active_key r.key_identifier s.store ≡ (looked, Result.ok (some key))
      → revoke_api_key chrono id now (record { store = looked; cache = s.cache })
        ≡ (revoked, Result.ok n)
      → (n == 0) ≡ false
      → IsStale
  unfolding resolve_active_key revoke_api_key lookup_active_key active_key
  stale_after_race miss e valid q found done some_row =
      let (u, b1, b2, b3) =
        fetch-ok s.store (active_key r.key_identifier) looked (some key) found in
      let held : get (insert r.key_identifier (some key) revoked.cache) r.key_identifier
          ≡ some (some key) =
        get-insert revoked.cache r.key_identifier (some key) r.key_identifier
        ∙ rw (text_eq_refl r.key_identifier) refl in
      record {
        two_steps = rw miss (ap (fill s.cache r.key_identifier) found);
        gone =
            with_identifier_ok chrono id now n (record { store = looked; cache = s.cache }) revoked
              t (api_key_identifier id looked) refl (b2 ∙ (sym b1 ∙ e)) done some_row
              r.key_identifier
            ∙ ap id_and_limit
                (find-update_revoked id 0 t.api_keys.seq r t.api_keys.rows valid.0 valid.1 q);
        given = rw held refl;
      }
