-- ===== src/RateLimit/Window.antt =====
-- How many requests a window lets through, and when the next one is.
use green_relay.Prelude.{
  ℕ, zero, suc, ◌+◌, ◌-◌, ◌*◌, ◌≤◌, ◌<◌, ◌≡◌, refl, ap, ◌∙◌, List, [], ◌∷◌, ◌++◌, true, false, ltb,
  leb, min, max, length, All, u32_max, arith, Option, none, some, Bool-cases, inl, inr,
}
use green_relay.RateLimit.{
  WindowState, new_window, RateDecision, allow, reject, nanos_per_sec, decide, effective_limit,
}

-- one key's requests at the given times
unfoldable pub run : ℕ → ℕ → WindowState → List ℕ → List RateDecision
run limit window state [] = []
run limit window state (now ∷ times) =
    let (state', d) = decide state limit window now in d ∷ run limit window state' times

-- the number of requests let through
abbrev pub allowed : List RateDecision → ℕ
allowed [] = 0
allowed (allow _ ∷ ds) = suc (allowed ds)
allowed (reject _ ∷ ds) = allowed ds

-- Times that are in order, from `from` on.
abbrev pub IsOrdered : ℕ → List ℕ → Type 0
IsOrdered from [] = Unit
IsOrdered from (t ∷ ts) = (from ≤ t) × IsOrdered t ts

module _ (limit window : ℕ) (range : limit ≤ u32_max) where
  -- Within a window exactly the first requests are let through, as many as are left in it.
  pub run-within :
      (times : List ℕ) (state : WindowState)
      → state.count ≤ limit
      → All (λ t. t - state.window_start < window) times
      → allowed (run limit window state times) ≡ min (length times) (limit - state.count)
  unfolding run decide
  run-within [] state h k = omega arith
  run-within (t ∷ times) state h k =
      let old : leb window (t - state.window_start) ≡ false = ground arith in
      elim (Bool-cases (ltb state.count limit)) [
        | inl below ↦
            let next : WindowState = record state { count = min (state.count + 1) u32_max } in
            rw (old, below) (let ih = run-within times next (ground arith) k.1 in ground arith)
        | inr full ↦ rw (old, full) (let ih = run-within times state h k.1 in ground arith)
      ]

  -- A key with `count` requests in its window has at most the rest of this window and all of the
  -- next one, in any interval shorter than a window.
  run-span :
      (times : List ℕ) (state : WindowState) (a : ℕ)
      → 1 ≤ limit
      → state.count ≤ limit
      → All (λ t. (a ≤ t) × (t < a + window)) times
      → allowed (run limit window state times) ≤ limit - state.count + limit
  unfolding run decide
  run-span [] state a one h k = omega arith
  run-span (t ∷ times) state a one h k = elim (Bool-cases (leb window (t - state.window_start))) [
    | inl over ↦
        let fresh : WindowState = record { count = 1; window_start = t } in
        rw over (omega (arith, run-within times fresh one (late times k.0.0 k.1)))
    | inr old ↦ elim (Bool-cases (ltb state.count limit)) [
      | inl below ↦
          let next : WindowState = record state { count = min (state.count + 1) u32_max } in
          rw (old, below) (let ih = run-span times next a one (ground arith) k.1 in ground arith)
      | inr full ↦ rw (old, full) (let ih = run-span times state a one h k.1 in ground arith)
    ]
  ]
    where
      late :
          {t : ℕ} (ts : List ℕ)
          → a ≤ t
          → All (λ u. (a ≤ u) × (u < a + window)) ts
          → All (λ u. u - t < window) ts
      late [] b p = tt
      late (u ∷ ts) b p = (omega arith, late ts b p.1)

-- With a limit of 32 bits, one at least, a key whose window holds no more requests than the limit
-- gets at most twice the limit in any interval no longer than a window.
pub run_twice_limit :
    (limit window : ℕ) (times : List ℕ) (state : WindowState) (a : ℕ)
    → limit ≤ u32_max
    → 1 ≤ limit
    → state.count ≤ limit
    → All (λ t. (a ≤ t) × (t < a + window)) times
    → allowed (run limit window state times) ≤ 2 * limit
run_twice_limit limit window times state a range one h k =
    omega (arith, run-span limit window range times state a one h k)

-- With a limit of 32 bits, of the requests that come before a fresh window has run out as many are
-- let through as the limit allows, and all others are rejected.
pub run_one_window :
    (limit window start : ℕ) (times : List ℕ)
    → limit ≤ u32_max
    → All (λ t. t - start < window) times
    → allowed (run limit window (new_window start) times) ≡ min (length times) limit
run_one_window limit window start times range k =
    run-within limit window range times (new_window start) (omega arith) k ∙ omega arith

abbrev pub replicate : ℕ → ℕ → List ℕ
replicate zero t = []
replicate (suc n) t = t ∷ replicate n t

length-replicate : (n t : ℕ) → length (replicate n t) ≡ n
length-replicate zero t = refl
length-replicate (suc n) t = ap suc (length-replicate n t)

All-replicate : (P : ℕ → Type 0) (n t : ℕ) → P t → All P (replicate n t)
All-replicate P zero t h = tt
All-replicate P (suc n) t h = (h, All-replicate P n t h)

run-replicate :
    (limit window n t count start : ℕ) (later : List ℕ)
    → limit ≤ u32_max
    → count + n ≤ limit
    → t - start < window
    → allowed
        (run limit window (record { count = count; window_start = start }) (replicate n t ++ later))
      ≡ n + allowed (run limit window (record { count = count + n; window_start = start }) later)
unfolding run decide
run-replicate limit window zero t count start later range h k =
    let e : count + 0 ≡ count = omega arith in rw e (omega arith)
run-replicate limit window (suc n) t count start later range h k =
    let old : leb window (t - start) ≡ false = ground arith in
    let below : ltb count limit ≡ true = ground arith in
    let next : min (count + 1) u32_max ≡ count + 1 = omega arith in
    let e : count + 1 + n ≡ count + suc n = omega arith in
    rw (old, below)
      (rw next (
        let ih = run-replicate limit window n t (count + 1) start later range (omega arith) k in
        let joined = rw e at ih in omega (arith, joined)))

-- The limit is one of fixed windows: with any limit of 32 bits and any window, neither zero, twice
-- the limit is let through in two instants a nanosecond apart, at the end of one window and the
-- start of the next.
pub run_burst :
    (limit window start : ℕ)
    → limit ≤ u32_max
    → 1 ≤ limit
    → 1 ≤ window
    → allowed (
        run limit window
          (new_window start)
          (replicate limit (start + window - 1) ++ replicate limit (start + window)))
      ≡ 2 * limit
run_burst zero window start range one w = absurd (omega arith)
run_burst (suc m) window start range one w =
    run-replicate (suc m) window (suc m) (start + window - 1) 0 start
      (replicate (suc m) (start + window)) range (omega arith) (omega arith)
    ∙ omega (arith, second)
  where
    second :
        allowed (
          run
            (suc m)
            window
            (record { count = 0 + suc m; window_start = start })
            (replicate (suc m) (start + window)))
        ≡ suc m
    second =
        unfold run decide in
        let over : leb window (start + window - start) ≡ true = ground arith in
        rw over (
          ap suc (
            run-within (suc m) window range (replicate m (start + window))
              (record { count = 1; window_start = start + window }) (omega arith)
              (All-replicate (λ t. t - (start + window) < window) m (start + window) (omega arith))
            ∙ omega (arith, length-replicate m (start + window))))

-- A rejected key, whose window is a number of seconds, one at least, and did not begin later than
-- now, is told to wait between one second and the window, and a request after that wait is let
-- through.
pub decide_retry :
    (state after : WindowState) (limit secs now r : ℕ)
    → 1 ≤ secs
    → state.window_start ≤ now
    → decide state limit (secs * nanos_per_sec) now ≡ (after, reject r)
    → (after ≡ state)
      × (1 ≤ r)
      × (r ≤ secs)
      × ((decide state limit (secs * nanos_per_sec) (now + r * nanos_per_sec)).1
          ≡ allow (limit - 1))
unfolding decide
decide_retry state after limit secs now r one order h = ground arith

-- The limit in force is never zero if the default is not, and above 10000 only by the default.
pub effective_limit_bounds :
    (custom : Option ℕ) (default : ℕ)
    → 1 ≤ default
    → (1 ≤ (effective_limit custom default).0)
      × ((effective_limit custom default).0 ≤ max default 10_000)
unfolding effective_limit
effective_limit_bounds none default h = ground arith
effective_limit_bounds (some c) default h = ground arith
