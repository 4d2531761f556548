-- ===== src/Db/Rows.antt =====
-- A table of SQLite with a primary key that is given automatically, and the parts of the statements
-- of service/src/db.rs: rows in the order of their insertion, and the largest id ever given.
use green_relay.Prelude.{
  true, ℕ, suc, ◌≤◌, ◌<◌, ◌≡◌, refl, ◌∙◌, Bool, false, List, [], ◌∷◌, ◌++◌, Option, none, some,
  arith, ◌==◌, if◌then◌else◌, Bool-cases, ==_iff, inl, inr, All, All-map,
}
use mathlib.Core.Path.{subst}

pub record Table (R : Type 0) : Type 0 where
  pub rows : List R
  pub seq : ℕ

abbrev pub map_some {ℓ} : {A B : Type ℓ} → (A → B) → Option A → Option B
map_some f none = none
map_some f (some a) = some (f a)

module _ {R : Type 0} where
  abbrev pub empty : Table R
  empty = record { rows = []; seq = 0 }

  -- `INSERT`, with the id that `AUTOINCREMENT` gives
  unfoldable pub insert_row : (ℕ → R) → Table R → Table R
  insert_row row t = record { rows = t.rows ++ row (suc t.seq) ∷ []; seq = suc t.seq }

  -- `WHERE p LIMIT 1`
  unfoldable pub find : (R → Bool) → List R → Option R
  find p [] = none
  find p (r ∷ rs) = if p r then some r else find p rs

  -- `UPDATE .. WHERE p`, and how many rows it affects
  unfoldable pub update : (R → Bool) → (R → R) → List R → List R
  update p f [] = []
  update p f (r ∷ rs) = (if p r then f r else r) ∷ update p f rs

  unfoldable pub affected : (R → Bool) → List R → ℕ
  affected p [] = 0
  affected p (r ∷ rs) = if p r then suc (affected p rs) else affected p rs

  -- What one search finds, a search that finds nothing rules out.
  pub find_ruled_out :
      (p q : R → Bool) (rs : List R) (r : R) → find p rs ≡ some r → find q rs ≡ none → q r ≡ false
  unfolding find
  find_ruled_out p q [] r h k = cc
  find_ruled_out p q (s ∷ rs) r h k = ground (arith, find_ruled_out p q rs r)

  pub affected-none : (p : R → Bool) (rs : List R) → find p rs ≡ none → affected p rs ≡ 0
  unfolding find affected
  affected-none p [] h = refl
  affected-none p (r ∷ rs) h = ground (arith, affected-none p rs)

  -- An update that affects no row changes none.
  pub update_none :
      (p : R → Bool) (f : R → R) (rs : List R) → affected p rs ≡ 0 → update p f rs ≡ rs
  unfolding update affected
  update_none p f [] h = refl
  update_none p f (r ∷ rs) h = ground (arith, update_none p f rs)

  -- `ORDER BY`: a row goes in front of the first that `before` puts after it
  unfoldable pub insert_by : (R → R → Bool) → R → List R → List R
  insert_by before r [] = r ∷ []
  insert_by before r (q ∷ qs) = if before r q then r ∷ q ∷ qs else q ∷ insert_by before r qs

  unfoldable pub order_by : (R → R → Bool) → List R → List R
  unfolding insert_by
  order_by before [] = []
  order_by before (r ∷ rs) = insert_by before r (order_by before rs)

  -- An update that changes no test of a row is seen in the first row that passes it.
  pub find-update_same :
      (p : R → Bool) (f : R → R) (rs : List R)
      → ((r : R) → p (f r) ≡ p r)
      → find p (update p f rs) ≡ map_some f (find p rs)
  unfolding find update
  find-update_same p f [] same = refl
  find-update_same p f (r ∷ rs) same = elim (Bool-cases (p r)) [
    | inl e ↦ rw e (rw (same r ∙ e) refl)
    | inr e ↦ rw e (rw e (find-update_same p f rs same))
  ]

  pub affected-some :
      (p : R → Bool) (rs : List R) → (affected p rs == 0) ≡ false → (r : R) × (find p rs ≡ some r)
  unfolding find affected
  affected-some p [] h = cc
  affected-some p (r ∷ rs) h = elim (Bool-cases (p r)) [
    | inl e ↦ (r, rw e refl)
    | inr e ↦ rw e (affected-some p rs (rw e at h))
  ]

  pub find-append_last :
      (p : R → Bool) (rs : List R) (r : R)
      → (affected p rs == 0) ≡ true
      → p r ≡ true
      → find p (rs ++ r ∷ []) ≡ some r
  unfolding find affected
  find-append_last p [] r h e = rw e refl
  find-append_last p (q ∷ rs) r h e = elim (Bool-cases (p q)) [
    | inl y ↦ ground (arith, rw y at h)
    | inr n ↦ rw n (find-append_last p rs r (rw n at h) e)
  ]

  module _ (id : R → ℕ) where
    -- the ids of the rows ascend, from above `n` up to `m`
    abbrev pub Ascends : ℕ → ℕ → List R → Type 0
    Ascends n m [] = n ≤ m
    Ascends n m (r ∷ rs) = (n < id r) × Ascends (id r) m rs

    -- Every row is the one that is found by its id.
    pub find_own :
        (n m : ℕ) (rs : List R)
        → Ascends n m rs
        → All (λ r. (n < id r) × (find (λ q. id q == id r) rs ≡ some r)) rs
    unfolding find
    find_own n m [] h = tt
    find_own n m (r ∷ rs) h = (
      (h.0, rw ((==_iff (id r) (id r)).1 refl) refl),
      All-map rs (λ q p. (omega (arith, p.0, h.0), ground (arith, p.0, p.1)))
          (find_own (id r) m rs h.1),
    )

    pub Ascends-le : (n m : ℕ) (rs : List R) → Ascends n m rs → n ≤ m
    Ascends-le n m [] h = h
    Ascends-le n m (r ∷ rs) h = omega (arith, Ascends-le (id r) m rs h.1)

    pub Ascends-append :
        (n m : ℕ) (rs : List R) (r : R)
        → Ascends n m rs
        → m < id r
        → Ascends n (id r) (rs ++ r ∷ [])
    Ascends-append n m [] r h k = (omega arith, omega arith)
    Ascends-append n m (q ∷ rs) r h k = (h.0, Ascends-append (id q) m rs r h.1 k)

    -- No row has an id that has not been given.
    pub find_fresh :
        (n m i : ℕ) (rs : List R) → Ascends n m rs → m < i → find (λ r. id r == i) rs ≡ none
    unfolding find
    find_fresh n m i [] h k = refl
    find_fresh n m i (r ∷ rs) h k = ground (arith, find_fresh (id r) m i rs, Ascends-le (id r) m rs)

    pub find-append :
        (i : ℕ) (rs : List R) (r : R)
        → find (λ q. id q == i) rs ≡ none
        → find (λ q. id q == i) (rs ++ r ∷ []) ≡ (if id r == i then some r else none)
    unfolding find
    find-append i [] r h = refl
    find-append i (q ∷ rs) r h = ground (arith, find-append i rs r)

    pub find-append_other :
        (i : ℕ) (rs : List R) (r : R)
        → (id r == i) ≡ false
        → find (λ q. id q == i) (rs ++ r ∷ []) ≡ find (λ q. id q == i) rs
    unfolding find
    find-append_other i [] r h = rw h
    find-append_other i (q ∷ rs) r h = ground (arith, find-append_other i rs r)

    -- An update of the row with the id `i`, which keeps the ids, is seen at `i` and nowhere else.
    pub find-update :
        (i j : ℕ) (f : R → R) (rs : List R)
        → ((r : R) → id (f r) ≡ id r)
        → find (λ q. id q == j) (update (λ q. id q == i) f rs)
          ≡ (if i == j then map_some f (find (λ q. id q == j) rs) else find (λ q. id q == j) rs)
    unfolding find update
    find-update i j f [] keeps = ground arith
    find-update i j f (q ∷ rs) keeps = ground (arith, find-update i j f rs keeps, keeps q)

    pub Ascends-update :
        (n m : ℕ) (p : R → Bool) (f : R → R) (rs : List R)
        → ((r : R) → id (f r) ≡ id r)
        → Ascends n m rs
        → Ascends n m (update p f rs)
    unfolding update
    Ascends-update n m p f [] keeps h = h
    Ascends-update n m p f (q ∷ rs) keeps h = elim (Bool-cases (p q)) [
      | inl y ↦ rw (y, keeps q) (h.0, Ascends-update (id q) m p f rs keeps h.1)
      | inr y ↦ rw y (h.0, Ascends-update (id q) m p f rs keeps h.1)
    ]

    -- A new row is found under its id, which no row had, and every other is found as before.
    pub find-insert :
        (row : ℕ → R) (t : Table R) (j : ℕ)
        → Ascends 0 t.seq t.rows
        → ((i : ℕ) → id (row i) ≡ i)
        → find (λ q. id q == j) (insert_row row t).rows
          ≡ (if suc t.seq == j then some (row (suc t.seq)) else find (λ q. id q == j) t.rows)
    unfolding insert_row
    find-insert row t j h same = elim (Bool-cases (suc t.seq == j)) [
      | inl e ↦ rw e (
          find-append j t.rows (row (suc t.seq))
            (find_fresh 0 t.seq j t.rows h (ground (arith, ==_iff (suc t.seq) j)))
          ∙ rw (same (suc t.seq), e) refl)
      | inr e ↦ rw e (find-append_other j t.rows (row (suc t.seq)) (rw (same (suc t.seq)) e))
    ]

    pub Ascends-insert :
        (row : ℕ → R) (t : Table R)
        → Ascends 0 t.seq t.rows
        → ((i : ℕ) → id (row i) ≡ i)
        → Ascends 0 (insert_row row t).seq (insert_row row t).rows
    unfolding insert_row
    Ascends-insert row t h same =
        subst (λ n. Ascends 0 n (t.rows ++ row (suc t.seq) ∷ [])) (same (suc t.seq))
          (Ascends-append 0 t.seq t.rows (row (suc t.seq)) h (rw (same (suc t.seq)) (omega arith)))
