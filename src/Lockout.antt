-- ===== src/Lockout.antt =====
-- service/src/auth.rs and service/src/admin/session.rs: the tests for a lockout, on the times of the
-- failed attempts. An instant is a number of nanoseconds on the monotonic clock;
-- `saturating_duration_since` is the truncated subtraction, and `checked_add` of a duration
-- always succeeds, since no clock of a running system is near its largest value.
pub mod Spec
pub mod Scan
pub mod Horizon
pub mod Tracker
pub mod Tests
use green_relay.Prelude.{
  ℕ, ◌+◌, ◌-◌, ◌*◌, Bool, true, false, ◌&&◌, List, [], ◌∷◌, ◌++◌, Option, none, some, ltb, leb,
  if◌then◌else◌, length, retain, max,
}

abbrev pub seconds : ℕ → ℕ
seconds n = n * 1_000_000_000

-- the constants of a lockout
pub record Policy : Type 0 where
  pub threshold : ℕ
  pub window : ℕ
  pub duration : ℕ
  pub max_tracked : ℕ
  pub max_failures : ℕ

abbrev pub insert_sorted : ℕ → List ℕ → List ℕ
insert_sorted a [] = a ∷ []
insert_sorted a (b ∷ bs) = if leb a b then a ∷ (b ∷ bs) else b ∷ insert_sorted a bs

-- `sort_unstable`: equal instants cannot be told apart.
abbrev pub sorted : List ℕ → List ℕ
sorted [] = []
sorted (a ∷ as') = insert_sorted a (sorted as')

-- `.filter(|t| anchor.saturating_duration_since(*t) <= window).count()`
abbrev pub recent : ℕ → ℕ → List ℕ → ℕ
recent window anchor times = length (retain (λ t. leb (anchor - t) window) times)

abbrev pub later : Option ℕ → ℕ → ℕ
later none until = until
later (some r) until = max r until

abbrev pub is_before : ℕ → Option ℕ → Bool
is_before now none = false
is_before now (some until) = ltb now until

module _ (p : Policy) where
  -- the loop of `lockout_until`: `taken` is `sorted.iter().take(i)`
  unfoldable pub scan_until : Option ℕ → List ℕ → List ℕ → Option ℕ
  scan_until result taken [] = result
  scan_until result taken (anchor ∷ rest) =
      let taken' = taken ++ anchor ∷ [] in
      scan_until
        (if leb p.threshold (recent p.window anchor taken')
          then some (later result (anchor + p.duration))
          else result)
        taken' rest

  unfoldable pub lockout_until : List ℕ → Option ℕ
  unfolding scan_until
  lockout_until failures = scan_until none [] (sorted failures)

  unfoldable pub is_locked_out : List ℕ → ℕ → Bool
  unfolding lockout_until
  is_locked_out failures now = is_before now (lockout_until failures)

  -- the loop of `admin_locked`, which stops at the first trigger that locks
  unfoldable pub scan_locked : ℕ → List ℕ → List ℕ → Bool
  scan_locked now taken [] = false
  scan_locked now taken (trigger ∷ rest) =
      let taken' = taken ++ trigger ∷ [] in
      let more = scan_locked now taken' rest in
      if leb p.threshold (recent p.window trigger taken')
        && (leb trigger now && ltb (now - trigger) p.duration)
      then true
      else more

  unfoldable pub admin_locked : List ℕ → ℕ → Bool
  unfolding scan_locked
  admin_locked failures now = scan_locked now [] (sorted failures)
