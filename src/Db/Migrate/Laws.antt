-- ===== src/Db/Migrate/Laws.antt =====
-- service/src/db.rs: what the migrations leave behind, whether they fail or not.
use green_relay.Prelude.{
  ℕ, ◌≤◌, ◌≡◌, refl, sym, ap, ◌∙◌, Bool, true, false, [], Option, some, arith, Bool-cases, inl, inr,
  if◌then◌else◌, Result,
}
use mathlib.Core.Path.{subst, fun_ext}
use green_relay.Db.{
  succeeded, Tables, no_rows, Store, DbError, Sql, after, answered, count_run, ◌>>=◌, ◌>>◌, pure,
  statement, transaction,
}
use green_relay.Db.Statement.{statement_fails, statement_runs, after-after, after-cong}
use green_relay.Db.Migrate.{
  or_default, max_version, schema_v1, schema_v2, Migration, migrations, run_schema, run_migration,
  run_pending, set_ready, run_migrations,
}
use green_relay.Db.Migrate.Stages.{
  Stage, rank, disk_of, kept, Advances, at_stage, Leads, later, disk_of-kept, >>-Leads, bare,
  listed, first, second,
}

run_first-Leads :
    (t : Tables) → Leads listed first t (run_migration (record { version = 1; sql = schema_v1 }))
unfolding run_migration run_schema statement transaction
run_first-Leads t fails ran ready =
    let r : Store × Result Unit DbError =
      run_migration (record { version = 1; sql = schema_v1 }) (at_stage fails ran ready listed t) in
    record {
      stage = if succeeded r.1 then first else listed;
      disk = ground arith;
      no_earlier = ground arith;
      done = λ h. ground arith;
      unsaid = ground arith;
    }

run_second-Leads :
    (t : Tables) → Leads first second t (run_migration (record { version = 2; sql = schema_v2 }))
unfolding run_migration run_schema statement transaction
run_second-Leads t fails ran ready =
    let r : Store × Result Unit DbError =
      run_migration (record { version = 2; sql = schema_v2 }) (at_stage fails ran ready first t) in
    record {
      stage = if succeeded r.1 then second else first;
      disk = ground arith;
      no_earlier = ground arith;
      done = λ h. ground arith;
      unsaid = ground arith;
    }

-- A statement that changes nothing, and the creation of the table of versions.
idle_statement : Sql Unit
unfolding statement
idle_statement = statement (λ d. Result.ok (d, tt))

create_versions : Sql Unit
unfolding statement
create_versions =
    statement (λ d. Result.ok (record d { versions = some (or_default [] d.versions) }, tt))

idle_statement-Leads : (a : Stage) (t : Tables) → Leads a a t idle_statement
unfolding idle_statement
idle_statement-Leads a t fails ran ready = record {
  stage = a;
  disk = ground (arith, disk_of-kept a t);
  no_earlier = omega arith;
  done = λ h. refl;
  unsaid = ground arith;
}

create_versions-Leads : (a : Stage) (t : Tables) → Leads a (later listed a) t create_versions
unfolding create_versions
create_versions-Leads bare t fails ran ready = record {
  stage = if fails ran then bare else listed;
  disk = ground arith;
  no_earlier = ground arith;
  done = λ h. ground arith;
  unsaid = ground arith;
}
create_versions-Leads listed t fails ran ready = record {
  stage = listed;
  disk = ground arith;
  no_earlier = omega arith;
  done = λ h. refl;
  unsaid = ground arith;
}
create_versions-Leads first t fails ran ready = record {
  stage = first;
  disk = ground arith;
  no_earlier = omega arith;
  done = λ h. refl;
  unsaid = ground arith;
}
create_versions-Leads second t fails ran ready = record {
  stage = second;
  disk = ground arith;
  no_earlier = omega arith;
  done = λ h. refl;
  unsaid = ground arith;
}

-- The migrations that the largest version leaves.
abbrev pending : Sql Unit
pending = statement (λ d. max_version d d.versions) >>= λ current.
    run_pending (or_default 0 current) migrations

pure-Leads : (a : Stage) (t : Tables) → Leads a a t (pure tt)
pure-Leads a t fails ran ready = record {
  stage = a;
  disk = sym (disk_of-kept a t);
  no_earlier = omega arith;
  done = λ h. refl;
  unsaid = refl;
}

abbrev m1 : Migration
m1 = record { version = 1; sql = schema_v1 }

abbrev m2 : Migration
m2 = record { version = 2; sql = schema_v2 }

-- what `run_pending` comes to at each stage
abbrev left_at : Stage → Sql Unit
left_at bare = run_migration m1 >> (run_migration m2 >> pure tt)
left_at listed = run_migration m1 >> (run_migration m2 >> pure tt)
left_at first = run_migration m2 >> pure tt
left_at second = pure tt

left_first-Leads : (t : Tables) → Leads first second t (left_at first)
left_first-Leads t =
    >>-Leads first second second t (run_migration m2) (pure tt) (omega arith) (run_second-Leads t)
      (pure-Leads second t)

left_at-Leads : (a : Stage) (t : Tables) → 1 ≤ rank a → Leads a second t (left_at a)
left_at-Leads bare t le = absurd (omega arith)
left_at-Leads listed t le =
    >>-Leads listed first second t (run_migration m1) (left_at first) (omega arith)
      (run_first-Leads t) (left_first-Leads no_rows)
left_at-Leads first t le = left_first-Leads t
left_at-Leads second t le = pure-Leads second t

pending_at :
    (fails : ℕ → Bool) (ran : ℕ) (ready : Bool) (a : Stage) (t : Tables)
    → 1 ≤ rank a
    → after
        (λ current. run_pending (or_default 0 current) migrations)
        (answered
          (count_run (at_stage fails ran ready a t))
          (max_version (disk_of a t) ((disk_of a t).versions)))
      ≡ left_at a (count_run (at_stage fails ran ready a t))
unfolding run_pending migrations
pending_at fails ran ready bare t le = absurd (omega arith)
pending_at fails ran ready listed t le = refl
pending_at fails ran ready first t le = refl
pending_at fails ran ready second t le = refl

-- The look at the largest version changes nothing, and leaves the migrations of the stage.
pending_lem :
    (fails : ℕ → Bool) (ran : ℕ) (ready : Bool) (a : Stage) (t : Tables)
    → 1 ≤ rank a
    → pending (at_stage fails ran ready a t)
      ≡ (idle_statement >> left_at a) (at_stage fails ran ready a t)
unfolding idle_statement
pending_lem fails ran ready a t le =
    let s : Store = at_stage fails ran ready a t in
    let k : Option ℕ → Sql Unit = λ current. run_pending (or_default 0 current) migrations in
    let left : Unit {0} → Sql Unit = λ _. left_at a in
    elim (Bool-cases (fails ran)) [
      | inl e ↦
          ap (after k) (statement_fails (λ d. max_version d d.versions) s e)
          ∙ sym (ap (after left) (statement_fails (λ d. Result.ok (d, tt)) s e))
      | inr e ↦
          ap (after k) (statement_runs (λ d. max_version d d.versions) s e)
          ∙ (pending_at fails ran ready a t le
              ∙ sym (ap (after left) (statement_runs (λ d. Result.ok (d, tt)) s e)))
    ]

pending-Leads : (a : Stage) (t : Tables) → 1 ≤ rank a → Leads a second t pending
pending-Leads a t le fails ran ready = rw (pending_lem fails ran ready a t le) (
    >>-Leads a a second t idle_statement (left_at a) (omega arith) (idle_statement-Leads a t)
      (left_at-Leads a (kept a t) le) fails ran ready)

-- all of `run_migrations` but the flag at its end
abbrev migrating : Sql Unit
migrating = idle_statement >> (create_versions >> pending)

migrating-Leads : (a : Stage) (t : Tables) → Leads a second t migrating
migrating-Leads a t =
    >>-Leads a a second t idle_statement (create_versions >> pending) (omega arith)
      (idle_statement-Leads a t)
      (>>-Leads a (later listed a) second (kept a t) create_versions pending (ground arith)
        (create_versions-Leads a (kept a t))
        (pending-Leads (later listed a) (kept a (kept a t)) (ground arith)))

-- What a run of the migrations leaves, on whatever path it ends.
pub record Migrates (before : Stage) (t : Tables) (ready : Bool) (r : Store × Result Unit DbError)
    : Type 0 where
  pub stage : Stage
  pub disk : r.0.disk ≡ disk_of stage (kept before t)
  pub no_earlier : rank before ≤ rank stage
  pub done : succeeded r.1 ≡ true → (stage ≡ second) × (r.0.schema_ready ≡ true)
  pub not_done : succeeded r.1 ≡ false → r.0.schema_ready ≡ ready

after-Migrates :
    (a : Stage) (t : Tables) (s : Store) (r : Store × Result Unit DbError)
    → Advances a second t s r
    → Migrates a t s.schema_ready (after (λ _. set_ready) r)
after-Migrates a t s (s', Result.ok u) h = record {
  stage = h.stage;
  disk = h.disk;
  no_earlier = h.no_earlier;
  done = λ x. (h.done refl, refl);
  not_done = λ x. cc;
}
after-Migrates a t s (s', Result.err e) h = record {
  stage = h.stage;
  disk = h.disk;
  no_earlier = h.no_earlier;
  done = λ x. cc;
  not_done = λ x. h.unsaid;
}

-- `run_migrations` is what is above, and the flag.
run_migrations-split : (s : Store) → run_migrations s ≡ after (λ _. set_ready) (migrating s)
unfolding run_migrations idle_statement create_versions
run_migrations-split s =
    let ready : Unit {0} → Sql Unit = λ _. set_ready in
    let k : Option ℕ → Sql Unit = λ current. run_pending (or_default 0 current) migrations in
    sym (
      after-after (λ _. create_versions >> pending) ready (idle_statement s)
      ∙ after-cong _ _ (idle_statement s) λ _ s2.
        after-after (λ _. pending) ready (create_versions s2)
        ∙ after-cong _ _ (create_versions s2)
            λ _ s3. after-after k ready (statement (λ d. max_version d d.versions) s3))

-- Whichever statements fail, the migrations lead from one of the four stages of the database file
-- to a stage that is no earlier and keep the rows that are there; if they succeed, both migrations
-- are applied and the schema is marked ready, and if they fail the mark is as it was.
pub run_migrations-Migrates :
    (fails : ℕ → Bool) (ran : ℕ) (ready : Bool) (before : Stage) (t : Tables)
    → Migrates before t ready (
        run_migrations
          (record { fails = fails; ran = ran; schema_ready = ready; disk = disk_of before t }))
run_migrations-Migrates fails ran ready a t =
    let s : Store = at_stage fails ran ready a t in
    subst (λ r. Migrates a t ready r) (sym (run_migrations-split s))
      (after-Migrates a t s (migrating s) (migrating-Leads a t fails ran ready))

runs_ok :
    (ran : ℕ) (ready : Bool) (before : Stage) (t : Tables)
    → succeeded (run_migrations (at_stage (λ _. false) ran ready before t)).1 ≡ true
unfolding run_migrations run_pending run_migration run_schema statement transaction migrations
runs_ok ran ready bare t = refl
runs_ok ran ready listed t = refl
runs_ok ran ready first t = refl
runs_ok ran ready second t = refl

-- If no statement fails, the migrations succeed from each of the four stages.
pub run_migrations-ok :
    (fails : ℕ → Bool) (ran : ℕ) (ready : Bool) (before : Stage) (t : Tables)
    → ((n : ℕ) → fails n ≡ false)
    → succeeded
        (run_migrations
          (record { fails = fails; ran = ran; schema_ready = ready; disk = disk_of before t })).1
      ≡ true
unfolding run_migrations run_pending run_migration run_schema statement transaction migrations
run_migrations-ok fails ran ready before t h = rw (fun_ext h) (runs_ok ran ready before t)
