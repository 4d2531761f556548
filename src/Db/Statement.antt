-- ===== src/Db/Statement.antt =====
-- service/src/db.rs: what a statement, and an action made of statements, leaves as it is.
use green_relay.Prelude.{
  ◌≡◌, refl, sym, ap, ◌∙◌, if◌then◌else◌, true, false, Option, none, some, Result, ok_or_err,
  Bool-cases, inl, inr, ◌⊎◌,
}
use green_relay.Db.{
  Disk, Tables, Store, SqlxError, unavailable, DbError, sqlx, Sql, after, count_run, set_disk,
  answered, stored, in_tables, statement, execute, fetch, ensure_ready, not_ready, finished,
  transaction,
}

module _ {A : Type 0} where
  pub statement_fails :
      (f : Disk → Result (Disk × A) SqlxError) (s : Store)
      → s.fails s.ran ≡ true
      → statement f s ≡ (count_run s, Result.err (sqlx unavailable))
  unfolding statement
  statement_fails f s e = rw e refl

  pub statement_runs :
      (f : Disk → Result (Disk × A) SqlxError) (s : Store)
      → s.fails s.ran ≡ false
      → statement f s ≡ answered (count_run s) (f s.disk)
  unfolding statement
  statement_runs f s e = rw e refl

pub after-cong :
    {A B : Type 0} (f g : A → Sql B) (r : Store × Result A DbError)
    → ((a : A) (s : Store) → f a s ≡ g a s)
    → after f r ≡ after g r
after-cong f g (s, Result.ok a) h = h a s
after-cong f g (s, Result.err e) h = refl

pub after-after :
    {A B C : Type 0} (f : A → Sql B) (k : B → Sql C) (r : Store × Result A DbError)
    → after k (after f r) ≡ after (λ a s. after k (f a s)) r
after-after f k (s, Result.ok a) = refl
after-after f k (s, Result.err e) = refl

-- A statement on the tables fails and changes nothing, or is carried out.
pub data Executed {A : Type 0} (f : Tables → Result (Tables × A) SqlxError) (s : Store)
    (r : Store × Result A DbError) : Type 0 where
  failed : (e : SqlxError) → r ≡ (count_run s, Result.err (sqlx e)) → Executed f s r
  carried_out :
      (t t' : Tables) (a : A)
      → s.disk.tables ≡ some t
      → f t ≡ Result.ok (t', a)
      → r ≡ (set_disk (count_run s) (record (s.disk) { tables = some t' }), Result.ok a)
      → Executed f s r

module _ {A : Type 0} (f : Tables → Result (Tables × A) SqlxError) (s : Store) where
  answered-Executed :
      (o : Option Tables)
      → s.disk.tables ≡ o
      → Executed f s (answered (count_run s) (in_tables s.disk f o))
  answered-Executed none e = failed unavailable refl
  answered-Executed (some t) e = elim (ok_or_err (f t)) [
    | inl (p, q) ↦ carried_out t p.0 p.1 e q (ap (λ r. answered (count_run s) (stored s.disk r)) q)
    | inr (x, q) ↦ failed x (ap (λ r. answered (count_run s) (stored s.disk r)) q)
  ]

  pub execute-Executed : Executed f s (execute f s)
  unfolding execute
  execute-Executed = elim (Bool-cases (s.fails s.ran)) [
    | inl e ↦ failed unavailable (statement_fails (λ d. in_tables d f d.tables) s e)
    | inr e ↦
        rw (statement_runs (λ d. in_tables d f d.tables) s e) (answered-Executed s.disk.tables refl)
  ]

pub ensure_ready-cases :
    (s : Store)
    → (ensure_ready s ≡ (s, Result.ok tt)) ⊎ (ensure_ready s ≡ (s, Result.err not_ready))
unfolding ensure_ready
ensure_ready-cases s = elim (Bool-cases s.schema_ready) [
  | inl e ↦ inl (ap (λ b. if b then (s, Result.ok tt) else (s, Result.err not_ready)) e)
  | inr e ↦ inr (ap (λ b. if b then (s, Result.ok tt) else (s, Result.err not_ready)) e)
]

-- A look at the tables.
pub fetch_runs :
    {A : Type 0} (f : Tables → A) (s : Store) (t : Tables)
    → s.fails s.ran ≡ false
    → s.disk.tables ≡ some t
    → fetch f s ≡ (count_run s, Result.ok (f t))
unfolding fetch execute
fetch_runs {A} f s t e q =
    statement_runs (λ d. in_tables d (λ u. Result.ok (u, f u)) d.tables) s e
    ∙ (ap (λ o. answered (count_run s) (in_tables s.disk (λ u. Result.ok (u, f u)) o)) q ∙ same)
  where
    same :
        ◌≡◌ {A = Store × Result A DbError}
          (set_disk (count_run s) (record (s.disk) { tables = some t }), Result.ok (f t))
          (count_run s, Result.ok (f t))
    same = λ i. (set_disk (count_run s) (record (s.disk) { tables = sym q i }), Result.ok (f t))

-- A sequence that succeeds has two parts that do.
pub after-ok :
    {A B : Type 0} (f : A → Sql B) (r : Store × Result A DbError) (s' : Store) (b : B)
    → after f r ≡ (s', Result.ok b)
    → (s1 : Store) × (a : A) × (r ≡ (s1, Result.ok a)) × (f a s1 ≡ (s', Result.ok b))
after-ok f (s1, Result.ok a) s' b h = (s1, a, refl, h)
after-ok f (s1, Result.err e) s' b h = cc

-- A transaction is undone, or all of it is carried out.
pub data Transacted {A : Type 0} (m : Sql A) (s : Store) (r : Store × Result A DbError)
    : Type 0 where
  undone : (e : DbError) → r.1 ≡ Result.err e → r.0.disk ≡ s.disk → Transacted m s r
  committed :
      (s' : Store) (a : A)
      → m (count_run s) ≡ (s', Result.ok a)
      → r ≡ (count_run s', Result.ok a)
      → Transacted m s r

module _ {A : Type 0} (m : Sql A) (s : Store) where
  finished-Transacted :
      (r : Store × Result A DbError) → m (count_run s) ≡ r → Transacted m s (finished s.disk r)
  finished-Transacted (s', Result.err e) h = undone e refl refl
  finished-Transacted (s', Result.ok a) h = elim (Bool-cases (s'.fails s'.ran)) [
    | inl e ↦ rw e (undone (sqlx unavailable) refl refl)
    | inr e ↦ committed s' a h (rw e refl)
  ]

  pub transaction-Transacted : Transacted m s (transaction m s)
  unfolding transaction
  transaction-Transacted = elim (Bool-cases (s.fails s.ran)) [
    | inl e ↦ undone (sqlx unavailable) (rw e refl) (rw e refl)
    | inr e ↦ rw e (finished-Transacted (m (count_run s)) refl)
  ]

-- What a look at the tables leaves.
pub fetch-ok :
    {A : Type 0} (s : Store) (f : Tables → A) (s' : Store) (a : A)
    → fetch f s ≡ (s', Result.ok a)
    → (t : Tables) × (s.disk.tables ≡ some t) × (s'.disk.tables ≡ some t) × (a ≡ f t)
unfolding fetch
fetch-ok {A} s f s' a h = elim (execute-Executed (λ t. Result.ok (t, f t)) s) [
  | failed x q ↦ cc
  | carried_out t t' b q1 q2 q3 ↦
      (t, q1, ap (λ (x : Store × Result A DbError). x.0.disk.tables) (sym h ∙ q3) ∙ cc, cc)
]

pub fetch-tables :
    {A : Type 0} (f : Tables → A) (s : Store) → (fetch f s).0.disk.tables ≡ s.disk.tables
unfolding fetch
fetch-tables {A} f s = elim (execute-Executed (λ t. Result.ok (t, f t)) s) [
  | failed x q ↦ ap (λ (r : Store × Result A DbError). r.0.disk.tables) q
  | carried_out t t' b q1 q2 q3 ↦
      ap (λ (r : Store × Result A DbError). r.0.disk.tables) q3 ∙ ((cc) ∙ sym q1)
]
