-- ===== src/RateLimit.antt =====
-- service/src/ratelimit.rs: the rate limit of one key. An instant is a number of nanoseconds on the
-- monotonic clock, a duration one too; `saturating_duration_since` is the truncated subtraction.
pub mod Window
pub mod Limiter
pub mod Tests
use green_relay.Prelude.{
  ℕ, ◌+◌, ◌-◌, ◌*◌, ◌/◌, ◌^◌, ◌≡◌, Bool, ◌&&◌, Option, none, some, List, [], ◌∷◌, ltb, leb,
  if◌then◌else◌, min, max, u32_max, saturating_add_u32,
}

abbrev pub custom_limit_min : ℕ
custom_limit_min = 1

abbrev pub custom_limit_max : ℕ
custom_limit_max = 10_000

pub record WindowState : Type 0 where
  pub count : ℕ
  pub window_start : ℕ

-- `WindowState::new`
abbrev pub new_window : ℕ → WindowState
new_window now = record { count = 0; window_start = now }

pub data RateDecision : Type 0 where
  allow : ℕ → RateDecision
  reject : ℕ → RateDecision

abbrev pub nanos_per_sec : ℕ
nanos_per_sec = 1_000_000_000

abbrev pub as_secs : ℕ → ℕ
as_secs d = d / nanos_per_sec

-- `d.as_secs_f64().ceil()`. The rounding up is exact here; that of the 64-bit float is too as long
-- as its unit in the last place is below a nanosecond, for durations under 2^22 seconds.
abbrev pub ceil_secs : ℕ → ℕ
ceil_secs d = (d + (nanos_per_sec - 1)) / nanos_per_sec

unfoldable pub retry_after_secs : ℕ → ℕ → ℕ
retry_after_secs window elapsed =
    let window_secs = max (as_secs window) 1 in
    let remaining = window - elapsed in min (max (ceil_secs remaining) 1) window_secs

unfoldable pub decide : WindowState → ℕ → ℕ → ℕ → WindowState × RateDecision
unfolding retry_after_secs
decide state limit window now =
    let elapsed = now - state.window_start in
    if leb window elapsed
    then (record { count = 1; window_start = now }, allow (limit - 1))
    else if ltb state.count limit
    then (let count = saturating_add_u32 state.count 1 in
        (record state { count = count }, allow (limit - count)))
    else (state, reject (retry_after_secs window elapsed))

-- `RateLimitConfigError`
pub record ConfigError : Type 0 where
  pub configured : ℕ

unfoldable pub effective_limit : Option ℕ → ℕ → ℕ × Option ConfigError
effective_limit none default = (default, none)
effective_limit (some c) default =
    if leb custom_limit_min c && leb c custom_limit_max
    then (c, none)
    else (default, some (record { configured = c }))
