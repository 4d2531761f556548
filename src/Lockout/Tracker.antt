-- ===== src/Lockout/Tracker.antt =====
-- service/src/auth.rs: `FailureTracker`, and service/src/admin/session.rs: `AdminLoginTracker`, which
-- differ in their constants and in the test for a lock.
pub mod Bounds
pub mod Saturation
pub mod Refine
use green_relay.Prelude.{
  ℕ, ◌+◌, ◌-◌, Bool, true, false, not, ◌&&◌, List, [], ◌∷◌, ◌++◌, Option, none, some, ltb, leb,
  if◌then◌else◌, length, drop, retain,
}
use green_relay.Text.{Text}
use green_relay.HashMap.{HashMap, get, insert, remove, contains_key}
use green_relay.Lockout.{Policy}

abbrev pub Failures : Type 0
Failures = HashMap (List ℕ)

-- `Vec::is_empty`
abbrev pub is_empty {ℓ} : {A : Type ℓ} → List A → Bool
is_empty [] = true
is_empty (x ∷ xs) = false

abbrev pub or_default : Option (List ℕ) → List ℕ
or_default none = []
or_default (some history) = history

abbrev pub is_some_and {ℓ} : {A : Type ℓ} → (A → Bool) → Option A → Bool
is_some_and q none = false
is_some_and q (some a) = q a

module _ (p : Policy) where
  abbrev pub horizon : ℕ
  horizon = p.window + p.duration

  -- `history.retain(|t| now.saturating_duration_since(*t) <= horizon)`
  abbrev pub retain_recent : ℕ → List ℕ → List ℕ
  retain_recent now history = retain (λ t. leb (now - t) horizon) history

  unfoldable pub evict_stale : Failures → ℕ → Failures
  evict_stale [] now = []
  evict_stale ((identifier, history) ∷ failures) now =
      let history' = retain_recent now history in
      let rest = evict_stale failures now in
      if not (is_empty history') then (identifier, history') ∷ rest else rest

  -- the newest failures, at most as many as are retained
  abbrev pub drain_excess : List ℕ → List ℕ
  drain_excess history = drop (length history - p.max_failures) history

  unfoldable pub push_failure : Failures → Text → ℕ → Failures
  push_failure failures identifier now =
      let history = or_default (get failures identifier) ++ now ∷ [] in
      insert identifier (drain_excess (retain_recent now history)) failures

  unfoldable pub record_failure : Failures → Text → ℕ → Failures
  unfolding push_failure evict_stale
  record_failure failures identifier now =
      if not (contains_key failures identifier) && leb p.max_tracked (length failures)
      then (let evicted = evict_stale failures now in
          if leb p.max_tracked (length evicted)
          then evicted
          else push_failure evicted identifier now)
      else push_failure failures identifier now

  -- failures of one identifier, one after the other
  unfoldable pub record_all : Failures → Text → List ℕ → Failures
  record_all failures identifier [] = failures
  record_all failures identifier (t ∷ times) =
      record_all (record_failure failures identifier t) identifier times

unfoldable pub record_success : Failures → Text → Failures
record_success failures identifier = remove identifier failures

-- `is_locked`, for either test on a history
unfoldable pub is_locked : (List ℕ → ℕ → Bool) → Failures → Text → ℕ → Bool
is_locked locked failures identifier now =
    is_some_and (λ history. locked history now) (get failures identifier)
