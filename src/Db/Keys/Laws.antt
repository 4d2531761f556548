-- ===== src/Db/Keys/Laws.antt =====
-- service/src/db.rs: what revoking a key does to the keys that are found.
use green_relay.Prelude.{
  ℕ, ◌≤◌, ◌≡◌, refl, ap, sym, ◌∙◌, true, false, List, [], ◌∷◌, none, some, ◌==◌, inl, inr, arith,
  if◌then◌else◌, Bool-cases,
}
use green_relay.Text.{Text, text_eq}
use green_relay.Text.Equality.{text_eq_refl, text_eq_sym}
use green_relay.Db.{ApiKeyRow}
use green_relay.Db.Rows.{find, find_ruled_out, update, Ascends}
use green_relay.Db.Keys.{is_active, key_with_id, set_revoked}

abbrev pub AscendingKeys : ℕ → ℕ → List ApiKeyRow → Type 0
AscendingKeys n m rows = Ascends (λ (r : ApiKeyRow). r.id) n m rows

-- No two rows have the same identifier.
abbrev pub Distinct : List ApiKeyRow → Type 0
Distinct [] = Unit {0}
Distinct (r ∷ rs) = (find (λ q. text_eq q.key_identifier r.key_identifier) rs ≡ none) × Distinct rs

-- Rows above an id are not touched by an update at it.
update_above :
    (id n m : ℕ) (rows : List ApiKeyRow)
    → id ≤ n
    → AscendingKeys n m rows
    → update (key_with_id id) set_revoked rows ≡ rows
unfolding update
update_above id n m [] le h = refl
update_above id n m (r ∷ rs) le h = ground (arith, update_above id r.id m rs)

pub find-update_other :
    (id n m : ℕ) (k : Text) (r0 : ApiKeyRow) (rows : List ApiKeyRow)
    → AscendingKeys n m rows
    → find (key_with_id id) rows ≡ some r0
    → text_eq r0.key_identifier k ≡ false
    → find (is_active k) (update (key_with_id id) set_revoked rows) ≡ find (is_active k) rows
unfolding find update
find-update_other id n m k r0 [] h f d = refl
find-update_other id n m k r0 (r ∷ rs) h f d = elim (Bool-cases (r.id == id)) [
  | inl e ↦
      let same : r ≡ r0 = cc (rw e at f) in
      let off : text_eq r.key_identifier k ≡ false =
        ap (λ (q : ApiKeyRow). text_eq q.key_identifier k) same ∙ d in
      let le : id ≤ r.id = ground arith in
      rw (e, off) (ap (find (is_active k)) (update_above id r.id m rs le h.1))
  | inr e ↦ rw e (
      ap (λ x. if is_active k r then some r else x)
        (find-update_other id r.id m k r0 rs h.1 (rw e at f) d))
]

find_active_none :
    (k : Text) (rows : List ApiKeyRow)
    → find (λ q. text_eq q.key_identifier k) rows ≡ none
    → find (is_active k) rows ≡ none
unfolding find
find_active_none k [] h = refl
find_active_none k (r ∷ rs) h = ground (arith, find_active_none k rs)

-- The row that is revoked is the only one with its identifier, so the key is found no more.
pub find-update_revoked :
    (id n m : ℕ) (r0 : ApiKeyRow) (rows : List ApiKeyRow)
    → AscendingKeys n m rows
    → Distinct rows
    → find (key_with_id id) rows ≡ some r0
    → find (is_active r0.key_identifier) (update (key_with_id id) set_revoked rows) ≡ none
unfolding find update
find-update_revoked id n m r0 [] h u f = refl
find-update_revoked id n m r0 (r ∷ rs) h u f = elim (Bool-cases (r.id == id)) [
  | inl e ↦
      let same : r ≡ r0 = cc (rw e at f) in
      let le : id ≤ r.id = ground arith in
      let on : text_eq r.key_identifier r0.key_identifier ≡ true =
        ap (λ (q : ApiKeyRow). text_eq r.key_identifier q.key_identifier) (sym same)
        ∙ text_eq_refl r.key_identifier in
      let rest : find (is_active r0.key_identifier) rs ≡ none =
        find_active_none r0.key_identifier rs (
          ap (λ (x : ApiKeyRow). find (λ q. text_eq q.key_identifier x.key_identifier) rs)
            (sym same)
          ∙ u.0) in
      rw (e, on) (ap (find (is_active r0.key_identifier)) (update_above id r.id m rs le h.1) ∙ rest)
  | inr e ↦
      let later : find (key_with_id id) rs ≡ some r0 = rw e at f in
      let off : text_eq r.key_identifier r0.key_identifier ≡ false =
        text_eq_sym r.key_identifier r0.key_identifier
        ∙ find_ruled_out (key_with_id id) (λ q. text_eq q.key_identifier r.key_identifier) rs r0
            later u.0 in
      rw (e, off) (find-update_revoked id r.id m r0 rs h.1 u.1 later)
]
