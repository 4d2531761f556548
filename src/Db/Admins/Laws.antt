-- ===== src/Db/Admins/Laws.antt =====
-- service/src/db.rs: the account that `upsert_admin_user` leaves.
use green_relay.Prelude.{
  ℕ, suc, ◌≡◌, refl, ap, sym, ◌∙◌, Bool, true, false, Option, some, ◌==◌, Bool-cases, inl, inr,
  ==_iff, [], ◌∷◌, ◌++◌, Result,
}
use mathlib.Core.Path.{subst}
use green_relay.Text.{Text}
use green_relay.Text.Equality.{text_eq_refl}
use green_relay.Models.{Rfc3339}
use green_relay.Db.Rows.{
  find, update, affected, insert_row, find-update_same, update_none, affected-some,
  find-append_last, map_some,
}
use green_relay.Db.{
  AdminRow, Tables, Store, DbError, count_run, set_disk, transaction, after, execute,
}
use green_relay.Db.Statement.{
  failed, carried_out, execute-Executed, ensure_ready-cases, undone, committed,
  transaction-Transacted, fetch_runs,
}
use green_relay.Db.Admins.{
  has_name, credentials_in, find_admin_credentials, reset_password, new_admin, reset_rows,
  add_admin, add_if_none, reset_or_add, upsert_admin_user,
}

module _ (username password_hash now_text : Text) where
  -- The account is there, with the hash.
  record IsStored (s : Store) : Type 0 where
    t : Tables
    tables : s.disk.tables ≡ some t
    row : AdminRow
    found : find (has_name username) t.admin_users.rows ≡ some row
    hash : row.password_hash ≡ password_hash

  was_reset :
      (t t' : Tables) (n : ℕ) (s : Store)
      → reset_rows username password_hash t ≡ Result.ok (t', n)
      → (n == 0) ≡ false
      → s.disk.tables ≡ some t'
      → IsStored s
  was_reset t t' n s q some_row e =
      let f : AdminRow → AdminRow = reset_password password_hash in
      let rows : t'.admin_users.rows ≡ update (has_name username) f t.admin_users.rows = cc in
      let count : affected (has_name username) t.admin_users.rows ≡ n = cc in
      let (r, before) =
        affected-some (has_name username) t.admin_users.rows (ap (λ m. m == 0) count ∙ some_row) in
      record {
        t = t';
        tables = e;
        row = f r;
        found =
            ap (find (has_name username)) rows
            ∙ (find-update_same (has_name username) f t.admin_users.rows (λ q. refl)
                ∙ ap (map_some f) before);
        hash = refl;
      }

  was_added :
      (t t' : Tables) (n : ℕ) (s s' : Store) (b : Bool)
      → reset_rows username password_hash t ≡ Result.ok (t', n)
      → (n == 0) ≡ true
      → s.disk.tables ≡ some t'
      → execute (add_admin username password_hash now_text) s ≡ (s', Result.ok b)
      → IsStored s'
  unfolding insert_row
  was_added t t' n s s' b q no_row e h =
      elim (execute-Executed (add_admin username password_hash now_text) s) [
        | failed x p ↦ cc
        | carried_out t2 t3 c p1 p2 p3 ↦
            let count : affected (has_name username) t.admin_users.rows ≡ n = cc in
            let none_hit : affected (has_name username) t.admin_users.rows ≡ 0 =
              count ∙ (==_iff n 0).0 no_row in
            let changed : t'.admin_users.rows
                ≡ update (has_name username) (reset_password password_hash) t.admin_users.rows =
              cc in
            let same : t2 ≡ t' = cc in
            let before : t2.admin_users.rows ≡ t.admin_users.rows =
              ap (λ (u : Tables). u.admin_users.rows) same
              ∙ (changed
                  ∙ update_none (has_name username) (reset_password password_hash)
                      t.admin_users.rows none_hit) in
            let row : AdminRow =
              new_admin username password_hash now_text (suc t2.admin_users.seq) in
            let rows : t3.admin_users.rows ≡ t2.admin_users.rows ++ row ∷ [] = cc in
            record {
              t = t3;
              tables = ap (λ (x : Store × Result Bool DbError). x.0.disk.tables) (sym h ∙ p3);
              row = row;
              found =
                  ap (find (has_name username)) rows
                  ∙ find-append_last (has_name username) t2.admin_users.rows row
                      (ap (λ rs. affected (has_name username) rs == 0) before
                        ∙ (==_iff _ 0).1 none_hit)
                      (text_eq_refl username);
              hash = refl;
            }
      ]

  reset_or_add-IsStored :
      (s s' : Store) (b : Bool)
      → reset_or_add username password_hash now_text s ≡ (s', Result.ok b)
      → IsStored s'
  reset_or_add-IsStored s s' b h = elim (execute-Executed (reset_rows username password_hash) s) [
    | failed x p ↦ cc (ap (after (add_if_none username password_hash now_text)) p)
    | carried_out t t' n q1 q2 q3 ↦
        let s1 : Store = set_disk (count_run s) (record (s.disk) { tables = some t' }) in
        let h1 : add_if_none username password_hash now_text n s1 ≡ (s', Result.ok b) =
          sym (ap (after (add_if_none username password_hash now_text)) q3) ∙ h in
        elim (Bool-cases (n == 0)) [
          | inl z ↦ was_added t t' n s1 s' b q2 z refl (rw z at h1)
          | inr z ↦
              subst IsStored (ap (λ (x : Store × Result Bool DbError). x.0) (rw z at h1))
                (was_reset t t' n s1 q2 z refl)
        ]
  ]

module _ (chrono : Rfc3339) (now : ℕ) (username password_hash : Text) where
  upserted :
      (s s' : Store) (b : Bool)
      → transaction (reset_or_add username password_hash (chrono.print now)) s ≡ (s', Result.ok b)
      → IsStored username password_hash (chrono.print now) s'
  upserted s s' b h =
      elim (transaction-Transacted (reset_or_add username password_hash (chrono.print now)) s) [
        | undone x p q ↦ cc
        | committed s1 a p q ↦
            let stored : IsStored username password_hash (chrono.print now) s1 =
              reset_or_add-IsStored username password_hash (chrono.print now) (count_run s) s1 a
                p in
            let last : count_run s1 ≡ s' =
              ap (λ (x : Store × Result Bool DbError). x.0) (sym q ∙ h) in
            subst (IsStored username password_hash (chrono.print now)) last (record {
              t = stored.t;
              tables = stored.tables;
              row = stored.row;
              found = stored.found;
              hash = stored.hash;
            })
      ]

  pub find-upsert :
      (s s' : Store) (b : Bool)
      → upsert_admin_user chrono now username password_hash s ≡ (s', Result.ok b)
      → s'.fails s'.ran ≡ false
      → (id : ℕ) × ((find_admin_credentials username s').1 ≡ Result.ok (some (id, password_hash)))
  unfolding upsert_admin_user find_admin_credentials
  find-upsert s s' b h e = elim (ensure_ready-cases s) [
    | inr q ↦ cc (rw q at h)
    | inl q ↦
        let x : IsStored username password_hash (chrono.print now) s' =
          upserted s s' b (rw q at h) in
        (
          x.row.id,
          ap (λ (r : Store × Result (Option (ℕ × Text)) DbError). r.1)
                (fetch_runs (λ t. credentials_in (find (has_name username) t.admin_users.rows)) s'
                  x.t e x.tables)
              ∙ (ap (λ o. Result.ok (credentials_in o)) x.found
                  ∙ ap (λ p. Result.ok (some (x.row.id, p))) x.hash),
        )
  ]
