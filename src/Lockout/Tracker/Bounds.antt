-- ===== src/Lockout/Tracker/Bounds.antt =====
-- service/src/auth.rs: the size of a tracker.
use green_relay.Prelude.{
  ℕ, zero, suc, ◌+◌, ◌-◌, ◌≤◌, ◌≡◌, not, ◌&&◌, List, [], ◌∷◌, leb, if◌then◌else◌, length, drop,
  length-retain_le, All, arith, Bool-cases, inl, inr,
}
use green_relay.Text.{Text, text_eq}
use green_relay.HashMap.{insert, remove, contains_key, length-insert}
use green_relay.Lockout.{Policy}
use green_relay.Lockout.Tracker.{
  Failures, is_empty, retain_recent, evict_stale, drain_excess, push_failure, record_failure,
}

module _ (p : Policy) where
  abbrev pub IsShort : Text × List ℕ → Type 0
  IsShort e = length e.1 ≤ p.max_failures

  -- no more identifiers than are tracked, no history longer than is retained
  abbrev pub IsBounded : Failures → Type 0
  IsBounded failures = (length failures ≤ p.max_tracked) × All IsShort failures

  length-drop : {A : Type 0} (n : ℕ) (s : List A) → length (drop n s) ≡ length s - n
  length-drop zero s = omega arith
  length-drop (suc n) [] = omega arith
  length-drop (suc n) (x ∷ s) = omega (arith, length-drop n s)

  drain_excess-short : (s : List ℕ) → length (drain_excess p s) ≤ p.max_failures
  drain_excess-short s = omega (arith, length-drop (length s - p.max_failures) s)

  evict_length : (m : Failures) (now : ℕ) → length (evict_stale p m now) ≤ length m
  unfolding evict_stale
  evict_length [] now = omega arith
  evict_length ((k, h) ∷ m) now = ground (arith, evict_length m now)

  evict-IsShort : (m : Failures) (now : ℕ) → All IsShort m → All IsShort (evict_stale p m now)
  unfolding evict_stale
  evict-IsShort [] now h = tt
  evict-IsShort ((k, v) ∷ m) now h = elim (Bool-cases (not (is_empty (retain_recent p now v)))) [
    | inl e ↦ rw e (
      omega (arith, length-retain_le (λ t. leb (now - t) (p.window + p.duration)) v, h.0),
      evict-IsShort m now h.1,
    )
    | inr e ↦ rw e (evict-IsShort m now h.1)
  ]

  insert-IsShort :
      (m : Failures) (k : Text) (v : List ℕ)
      → length v ≤ p.max_failures
      → All IsShort m
      → All IsShort (insert k v m)
  unfolding insert
  insert-IsShort [] k v l h = (l, tt)
  insert-IsShort ((j, w) ∷ m) k v l h = elim (Bool-cases (text_eq j k)) [
    | inl e ↦ rw e (l, h.1)
    | inr e ↦ rw e (h.0, insert-IsShort m k v l h.1)
  ]

  push-IsShort :
      (m : Failures) (k : Text) (now : ℕ) → All IsShort m → All IsShort (push_failure p m k now)
  unfolding push_failure
  push-IsShort m k now h = insert-IsShort m k _ (drain_excess-short _) h

  push_length :
      (m : Failures) (k : Text) (now : ℕ)
      → length (push_failure p m k now) ≡ (if contains_key m k then length m else suc (length m))
  unfolding push_failure
  push_length m k now = length-insert m k _

  -- Recording a failure keeps a tracker within its bounds: no more identifiers than are tracked, no
  -- history longer than is retained.
  pub record_failure-IsBounded :
      (m : Failures) (k : Text) (now : ℕ) → IsBounded m → IsBounded (record_failure p m k now)
  unfolding record_failure
  record_failure-IsBounded m k now h =
      elim (Bool-cases (not (contains_key m k) && leb p.max_tracked (length m))) [
        | inl full ↦ rw full (elim (Bool-cases (leb p.max_tracked (length (evict_stale p m now)))) [
          | inl still ↦ rw still (omega (arith, evict_length m now, h.0), evict-IsShort m now h.1)
          | inr room ↦ rw room (
            ground (arith, push_length (evict_stale p m now) k now),
            push-IsShort (evict_stale p m now) k now (evict-IsShort m now h.1),
          )
        ])
        | inr room ↦ rw room (ground (arith, push_length m k now, h.0), push-IsShort m k now h.1)
      ]

  remove-IsShort : (m : Failures) (k : Text) → All IsShort m → All IsShort (remove k m)
  unfolding remove
  remove-IsShort [] k h = tt
  remove-IsShort ((j, w) ∷ m) k h = elim (Bool-cases (text_eq j k)) [
    | inl e ↦ rw e (remove-IsShort m k h.1)
    | inr e ↦ rw e (h.0, remove-IsShort m k h.1)
  ]
