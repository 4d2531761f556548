-- ===== src/Lockout/Tracker/Saturation.antt =====
-- service/src/auth.rs: what a tracker that holds as many active identifiers as it may does with one
-- more.
use green_relay.Prelude.{
  ℕ, ◌≤◌, ◌≡◌, refl, Bool, false, List, [], ◌∷◌, none, length, All, arith, Bool-cases, inl, inr,
}
use green_relay.Text.{Text, text_eq}
use green_relay.HashMap.{get, contains_key}
use green_relay.Lockout.{Policy}
use green_relay.Lockout.Tracker.{Failures, evict_stale, record_failure, record_all, is_locked}

contains_key-get : (m : Failures) (k : Text) → contains_key m k ≡ false → get m k ≡ none
unfolding get
contains_key-get [] k h = refl
contains_key-get ((j, v) ∷ m) k h = elim (Bool-cases (text_eq j k)) [
  | inl e ↦ absurd (ground (arith, e))
  | inr n ↦ rw n (contains_key-get m k (ground (arith, n)))
]

module _ (p : Policy) (m : Failures) (k : Text) (unknown : contains_key m k ≡ false)
    (full : p.max_tracked ≤ length m) where
  record_failure-full : (now : ℕ) → evict_stale p m now ≡ m → record_failure p m k now ≡ m
  unfolding record_failure
  record_failure-full now active = rw (unknown, active) (ground (arith, full))

  record_all-full :
      (times : List ℕ) → All (λ t. evict_stale p m t ≡ m) times → record_all p m k times ≡ m
  unfolding record_all
  record_all-full [] h = refl
  record_all-full (t ∷ times) h = rw (record_failure-full t h.0) (record_all-full times h.1)

  -- While a tracker holds as many identifiers as it may, whose failures are all recent at each of
  -- the times given, no number of failures at these times locks out an identifier that it does not
  -- hold.
  pub record_all-never_locks :
      (locked : List ℕ → ℕ → Bool) (times : List ℕ) (now : ℕ)
      → All (λ t. evict_stale p m t ≡ m) times
      → is_locked locked (record_all p m k times) k now ≡ false
  unfolding is_locked
  record_all-never_locks locked times now h =
      rw (record_all-full times h, contains_key-get m k unknown) refl
