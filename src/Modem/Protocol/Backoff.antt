-- ===== src/Modem/Protocol/Backoff.antt =====
-- service/src/modem/protocol.rs: the delays between attempts to open the serial port.
use green_relay.Prelude.{
  ℕ, zero, suc, ◌+◌, ◌-◌, ◌*◌, ◌^◌, ◌≤◌, ◌<◌, ◌≡◌, refl, ap, List, [], ◌∷◌, min, leb, if◌then◌else◌,
  arith, get_elem?, some, ◌∙◌,
}

abbrev pub reconnect_backoff_cap_secs : ℕ
reconnect_backoff_cap_secs = 60

-- `1u64 << exponent` with an exponent below 6
unfoldable pub reconnect_backoff_secs : ℕ → ℕ
reconnect_backoff_secs attempt =
    let exponent = attempt - 1 in
    if leb 6 exponent
    then reconnect_backoff_cap_secs
    else min (2 ^ exponent) reconnect_backoff_cap_secs

-- `(first..=last).map(reconnect_backoff_secs)`, by the number of attempts left
unfoldable pub schedule_from : ℕ → ℕ → List ℕ
schedule_from first zero = []
schedule_from first (suc left) = reconnect_backoff_secs first ∷ schedule_from (first + 1) left

unfoldable pub reconnect_backoff_schedule : ℕ → List ℕ
unfolding schedule_from reconnect_backoff_secs
reconnect_backoff_schedule max_attempts = schedule_from 1 max_attempts

-- From the first attempt on each delay is twice the one before, up to a minute.
pub reconnect_backoff_doubles :
    (a : ℕ) → reconnect_backoff_secs (suc (suc a)) ≡ min (2 * reconnect_backoff_secs (suc a)) 60
unfolding reconnect_backoff_secs
reconnect_backoff_doubles zero = refl
reconnect_backoff_doubles (suc zero) = refl
reconnect_backoff_doubles (suc (suc zero)) = refl
reconnect_backoff_doubles (suc (suc (suc zero))) = refl
reconnect_backoff_doubles (suc (suc (suc (suc zero)))) = refl
reconnect_backoff_doubles (suc (suc (suc (suc (suc a))))) = ground arith

backoff_first : reconnect_backoff_secs 1 ≡ 1
unfolding reconnect_backoff_secs
backoff_first = refl

-- Every delay of an attempt is between a second and a minute.
pub reconnect_backoff_bounds :
    (a : ℕ) → (1 ≤ reconnect_backoff_secs (suc a)) × (reconnect_backoff_secs (suc a) ≤ 60)
reconnect_backoff_bounds zero = omega (arith, backoff_first)
reconnect_backoff_bounds (suc a) =
    omega (arith, reconnect_backoff_doubles a, reconnect_backoff_bounds a)

schedule_from-get :
    (first left i : ℕ)
    → i < left
    → get_elem? (schedule_from first left) i ≡ some (reconnect_backoff_secs (first + i))
unfolding schedule_from
schedule_from-get first zero i h = absurd (omega arith)
schedule_from-get first (suc left) zero h = let e : first + 0 ≡ first = omega arith in rw e
schedule_from-get first (suc left) (suc i) h =
    let e : first + 1 + i ≡ first + suc i = omega arith in
    schedule_from-get (first + 1) left i (omega arith) ∙ ap (λ n. some (reconnect_backoff_secs n)) e

-- The schedule lists the delays of the attempts 1, 2, … in order.
pub reconnect_backoff_schedule-get :
    (n i : ℕ)
    → i < n
    → get_elem? (reconnect_backoff_schedule n) i ≡ some (reconnect_backoff_secs (1 + i))
unfolding reconnect_backoff_schedule
reconnect_backoff_schedule-get n i h = schedule_from-get 1 n i h
