-- ===== src/Lockout/Tests.antt =====
-- Examples for the lockout of service/src/auth.rs and service/src/admin/session.rs.
use green_relay.Prelude.{ℕ, ◌≡◌, refl, true, false, [], ◌∷◌, leb, arith}
use green_relay.Text.{codes}
use green_relay.HashMap.{get}
use green_relay.Lockout.{Policy, is_locked_out}
use green_relay.Lockout.Spec.{locked_at}
use green_relay.Lockout.Scan.{is_locked_out-locked_at}
use green_relay.Lockout.Tracker.{Failures, evict_stale, record_all, is_locked}
use green_relay.Lockout.Tracker.Refine.{record_all-locked_at}
use green_relay.Lockout.Tracker.Saturation.{record_all-never_locks}

-- two failures within 10 lock for 50; two identifiers, three failures each
abbrev small : Policy
small = record { threshold = 2; window = 10; duration = 50; max_tracked = 2; max_failures = 3 }

is_locked_out-locked_at_example :
    is_locked_out small (30 ∷ 5 ∷ 22 ∷ []) 70 ≡ locked_at small (30 ∷ 5 ∷ 22 ∷ []) 70
is_locked_out-locked_at_example = is_locked_out-locked_at small (30 ∷ 5 ∷ 22 ∷ []) 70

-- the lock of 22 and 30 runs until 80
locked_example : locked_at small (30 ∷ 5 ∷ 22 ∷ []) 79 ≡ true
locked_example = refl

unlocked_example : locked_at small (30 ∷ 5 ∷ 22 ∷ []) 80 ≡ false
unlocked_example = refl

abbrev full : Failures
full = (codes "a", 20 ∷ []) ∷ (codes "b", 30 ∷ 31 ∷ []) ∷ []

record_all-locked_at_example :
    is_locked
      (is_locked_out small)
      (record_all small [] (codes "a") (5 ∷ 22 ∷ 30 ∷ []))
      (codes "a")
      70
    ≡ locked_at small (5 ∷ 22 ∷ 30 ∷ []) 70
record_all-locked_at_example =
    record_all-locked_at small [] (codes "a") (5 ∷ 22 ∷ 30 ∷ []) 70 (unfold get in refl)
      (omega arith) (omega arith, (omega arith, (omega arith, tt))) (omega arith) (omega arith)

full-active : (t : ℕ) → leb t 80 ≡ true → evict_stale small full t ≡ full
unfolding evict_stale
full-active t h = ground (arith, h)

record_all-never_locks_example :
    is_locked
      (is_locked_out small)
      (record_all small full (codes "c") (40 ∷ 41 ∷ 42 ∷ []))
      (codes "c")
      43
    ≡ false
record_all-never_locks_example =
    record_all-never_locks small full (codes "c") refl (omega arith) (is_locked_out small)
      (40 ∷ 41 ∷ 42 ∷ []) 43 (full-active 40 refl, (full-active 41 refl, (full-active 42 refl, tt)))
