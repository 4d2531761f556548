-- ===== src/KeyCache/Coherent.antt =====
-- service/src/keycache.rs with the operations that share the cache: it says what the database says.
use green_relay.Prelude.{
  ◌≡◌, refl, ap, sym, ◌∙◌, Option, none, some, inl, inr, Result, Bool-cases, Option-cases,
}
use green_relay.Text.{Text, text_eq}
use green_relay.Text.Equality.{text_eq_sound}
use green_relay.HashMap.{get, get-insert}
use green_relay.Db.{Tables, Store, DbError}
use green_relay.Db.Statement.{fetch-ok, fetch-tables}
use green_relay.Db.Keys.{active_key, lookup_active_key}
use green_relay.Db.Keys.Laws.{AscendingKeys, Distinct}
use green_relay.KeyCache.{CachedKey, Shared, fill, resolve_active_key}

abbrev pub key_in : Option Tables → Text → CachedKey
key_in none k = none
key_in (some t) k = active_key k t

-- Whatever the cache holds for a key is what the database says of it.
pub record IsCoherent (s : Shared) : Type 0 where
  pub held : (k : Text) (v : CachedKey) → get s.cache k ≡ some v → v ≡ key_in s.store.disk.tables k

module _ (k : Text) (s : Shared) (h : IsCoherent s) where
  fill-IsCoherent :
      (r : Store × Result CachedKey DbError)
      → lookup_active_key k s.store ≡ r
      → IsCoherent (fill s.cache k r).0
  unfolding lookup_active_key
  fill-IsCoherent (s', Result.ok v) e =
      let (t, q1, q2, q3) = fetch-ok s.store (active_key k) s' v e in
      record {
        held = λ j w g. elim (Bool-cases (text_eq k j)) [
          | inl y ↦
              cc (rw (get-insert s.cache k v j, y) at g) ∙ (q3 ∙ rw (q2, text_eq_sound k j y) refl)
          | inr n ↦
              h.held j w (rw (get-insert s.cache k v j, n) at g)
              ∙ ap (λ o. key_in o j) (q1 ∙ sym q2)
        ];
      }
  fill-IsCoherent (s', Result.err x) e = record {
    held = λ j w g.
        h.held j w g
        ∙ ap (λ o. key_in o j)
            (sym (fetch-tables (active_key k) s.store)
              ∙ ap (λ (r : Store × Result CachedKey DbError). r.0.disk.tables) e);
  }

  -- Looking a key up, whether the cache has it or not, leaves the cache coherent.
  pub resolve_active_key-IsCoherent : IsCoherent (resolve_active_key k s).0
  unfolding resolve_active_key
  resolve_active_key-IsCoherent = elim (Option-cases (get s.cache k)) [
    | inl e ↦ rw e (fill-IsCoherent (lookup_active_key k s.store) refl)
    | inr (v, e) ↦ rw e h
  ]

  -- and what it finds is what the database says
  resolve_fill :
      (r : Store × Result CachedKey DbError) (s' : Shared) (v : CachedKey)
      → lookup_active_key k s.store ≡ r
      → fill s.cache k r ≡ (s', Result.ok v)
      → v ≡ key_in s.store.disk.tables k
  unfolding lookup_active_key
  resolve_fill (s1, Result.ok w) s' v e q =
      let (t, q1, q2, q3) = fetch-ok s.store (active_key k) s1 w e in
      let kept : w ≡ v = cc in sym kept ∙ (q3 ∙ ap (λ o. key_in o k) (sym q1))
  resolve_fill (s1, Result.err x) s' v e q = cc

  pub resolve_active_key-key_in :
      (s' : Shared) (v : CachedKey)
      → resolve_active_key k s ≡ (s', Result.ok v)
      → v ≡ key_in s.store.disk.tables k
  unfolding resolve_active_key
  resolve_active_key-key_in s' v q = elim (Option-cases (get s.cache k)) [
    | inl e ↦ resolve_fill (lookup_active_key k s.store) s' v refl (rw e at q)
    | inr (w, e) ↦ let kept : w ≡ v = cc (rw e at q) in sym kept ∙ h.held k w e
  ]

-- The rows of the keys: ids ascend, and no identifier stands twice.
abbrev pub KeysIn : Option Tables → Type 0
KeysIn none = Unit {0}
KeysIn (some t) = AscendingKeys 0 t.api_keys.seq t.api_keys.rows × Distinct t.api_keys.rows
