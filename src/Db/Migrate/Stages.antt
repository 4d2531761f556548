-- ===== src/Db/Migrate/Stages.antt =====
-- service/src/db.rs: the stages of the file, and actions that lead from one to another.
use green_relay.Prelude.{
  ℕ, ◌≤◌, ◌≡◌, refl, sym, ap, ◌∙◌, Bool, true, false, [], ◌∷◌, none, some, arith, Result,
}
use mathlib.Core.Path.{subst}
use green_relay.Db.{succeeded, Disk, Tables, no_rows, Store, DbError, Sql, after, ◌>>◌}

-- How far the file has come: without the table of versions, with it, after the first migration, and
-- after the second.
pub data Stage : Type 0 where
  bare listed first second : Stage

abbrev pub rank : Stage → ℕ
rank bare = 0
rank listed = 1
rank first = 2
rank second = 3

abbrev pub disk_of : Stage → Tables → Disk
disk_of bare t = record { versions = none; tables = none; is_indexed = false }
disk_of listed t = record { versions = some []; tables = none; is_indexed = false }
disk_of first t = record { versions = some (1 ∷ []); tables = some t; is_indexed = false }
disk_of second t = record { versions = some (2 ∷ 1 ∷ []); tables = some t; is_indexed = true }

-- the rows that a migration must keep
abbrev pub kept : Stage → Tables → Tables
kept bare t = no_rows
kept listed t = no_rows
kept first t = t
kept second t = t

-- An action goes from a stage to one that is no earlier and keeps the rows; if it succeeds the stage
-- is `goal`. It does not say that the schema is ready.
pub record Advances (before goal : Stage) (t : Tables) (s : Store) (r : Store × Result Unit DbError)
    : Type 0 where
  pub stage : Stage
  pub disk : r.0.disk ≡ disk_of stage (kept before t)
  pub no_earlier : rank before ≤ rank stage
  pub done : succeeded r.1 ≡ true → stage ≡ goal
  pub unsaid : r.0.schema_ready ≡ s.schema_ready

abbrev pub at_stage : (ℕ → Bool) → ℕ → Bool → Stage → Tables → Store
at_stage fails ran ready stage t = record {
  fails = fails;
  ran = ran;
  schema_ready = ready;
  disk = disk_of stage t;
}

-- At every store of the stage `before` with the rows `t`.
abbrev pub Leads : Stage → Stage → Tables → Sql Unit → Type 0
Leads before goal t m =
    (fails : ℕ → Bool) (ran : ℕ) (ready : Bool)
    → Advances before goal t (at_stage fails ran ready before t)
        (m (at_stage fails ran ready before t))

abbrev pub later : Stage → Stage → Stage
later a bare = a
later a listed = a
later a first = first
later a second = second

pub disk_of-kept : (a : Stage) (t : Tables) → disk_of a (kept a t) ≡ disk_of a t
disk_of-kept bare t = refl
disk_of-kept listed t = refl
disk_of-kept first t = refl
disk_of-kept second t = refl

pub kept-kept : (a b : Stage) (t : Tables) → rank a ≤ rank b → kept b (kept a t) ≡ kept a t
kept-kept bare bare t h = refl
kept-kept bare listed t h = refl
kept-kept bare first t h = refl
kept-kept bare second t h = refl
kept-kept listed bare t h = absurd (omega arith)
kept-kept listed listed t h = refl
kept-kept listed first t h = refl
kept-kept listed second t h = refl
kept-kept first bare t h = absurd (omega arith)
kept-kept first listed t h = absurd (omega arith)
kept-kept first first t h = refl
kept-kept first second t h = refl
kept-kept second bare t h = absurd (omega arith)
kept-kept second listed t h = absurd (omega arith)
kept-kept second first t h = absurd (omega arith)
kept-kept second second t h = refl

pub after-Advances :
    (a b c : Stage) (t : Tables) (s : Store) (k : Sql Unit) (r : Store × Result Unit DbError)
    → rank a ≤ rank b
    → Advances a b t s r
    → Leads b c (kept a t) k
    → Advances a c t s (after (λ _. k) r)
after-Advances a b c t s k (s', Result.err e) le h l = record {
  stage = h.stage;
  disk = h.disk;
  no_earlier = h.no_earlier;
  done = λ x. cc;
  unsaid = h.unsaid;
}
after-Advances a b c t s k (s', Result.ok u) le h l =
    let d : s'.disk ≡ disk_of b (kept a t) =
      h.disk ∙ ap (λ g. disk_of g (kept a t)) (h.done refl) in
    let same : s' ≡ at_stage (s'.fails) (s'.ran) (s'.schema_ready) b (kept a t) =
      λ i. record s' { disk = d i } in
    let n : Advances b c (kept a t) s' (k s') =
      subst (λ x. Advances b c (kept a t) x (k x)) (sym same)
        (l (s'.fails) (s'.ran) (s'.schema_ready)) in
    record {
      stage = n.stage;
      disk = n.disk ∙ ap (disk_of n.stage) (kept-kept a b t le);
      no_earlier = omega (arith, n.no_earlier);
      done = n.done;
      unsaid = n.unsaid ∙ h.unsaid;
    }

pub >>-Leads :
    (a b c : Stage) (t : Tables) (m k : Sql Unit)
    → rank a ≤ rank b
    → Leads a b t m
    → Leads b c (kept a t) k
    → Leads a c t (m >> k)
>>-Leads a b c t m k le h l = λ fails ran ready.
    after-Advances a b c t (at_stage fails ran ready a t) k (m (at_stage fails ran ready a t)) le
      (h fails ran ready) l
