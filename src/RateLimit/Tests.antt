-- ===== src/RateLimit/Tests.antt =====
-- Examples for service/src/ratelimit.rs.
use green_relay.Prelude.{
  ℕ, ◌⊎◌, inl, inr, Bool-cases, true, false, ◌+◌, ◌-◌, ◌*◌, ◌≤◌, ◌≡◌, refl, List, [], ◌∷◌, ◌++◌,
  Option, none, some, arith, if◌then◌else◌,
}
use green_relay.Text.{Text, codes, text_eq}
use green_relay.RateLimit.{WindowState, new_window, reject, nanos_per_sec, decide}
use green_relay.RateLimit.Window.{run, allowed, run_twice_limit, run_burst, replicate}
use green_relay.RateLimit.Limiter.{Cache, MayEvict, get_or, Request, check_all}
use green_relay.RateLimit.Limiter.Alone.{select, of_key, lapses, run_lapsing, check_all-alone}

-- A cache that forgets nothing: the function from keys to entries.
abbrev pub Windows : Type 0
Windows = Text → Option WindowState

abbrev pub put : Windows → Text → WindowState → Windows
put m k v j = if text_eq k j then some v else m j

abbrev pub windows : Cache WindowState
windows = record {
  States = Windows;
  find = λ m k. m k;
  get_with = λ m k v. (put m k (get_or (m k) v), get_or (m k) v);
  write = put;
}

windows-MayEvict : MayEvict windows
windows-MayEvict = record {
  get_with_value = λ s k v. refl;
  find_get_with = λ s k j v. inl refl;
  find_write = λ s k j v. inl refl;
}

-- A cache that has room for one entry: a key's entry evicts that of any other.
abbrev one_put : Option (Text × WindowState) → Text → WindowState → Option (Text × WindowState)
one_put m k v = some (k, v)

abbrev one_find : Option (Text × WindowState) → Text → Option WindowState
one_find none k = none
one_find (some (j, v)) k = if text_eq j k then some v else none

abbrev one_window : Cache WindowState
one_window = record {
  States = Option (Text × WindowState);
  find = one_find;
  get_with = λ m k v. (one_put m k (get_or (one_find m k) v), get_or (one_find m k) v);
  write = one_put;
}

one_put-MayEvict :
    (m : Option (Text × WindowState)) (k j : Text) (v : WindowState)
    → (one_find (one_put m k v) j ≡ (if text_eq k j then some v else one_find m j))
      ⊎ (one_find (one_put m k v) j ≡ none)
one_put-MayEvict m k j v = elim (Bool-cases (text_eq k j)) [
  | inl e ↦ inl (rw e refl)
  | inr e ↦ inr (rw e refl)
]

one_window-MayEvict : MayEvict one_window
one_window-MayEvict = record {
  get_with_value = λ s k v. refl;
  find_get_with = λ s k j v. one_put-MayEvict s k j (get_or (one_find s k) v);
  find_write = λ s k j v. one_put-MayEvict s k j v;
}

abbrev request : Text → ℕ → Request
request key now = record { key = key; limit = 1; window = 60; now = now }

abbrev requests : List Request
requests =
    request (codes "a") 0
    ∷ request (codes "b") 1
    ∷ request (codes "a") 2
    ∷ request (codes "a") 70
    ∷ []

-- the window of "a" is evicted by the request of "b"
evicted_lapses : lapses one_window (codes "a") none requests ≡ true ∷ true ∷ false ∷ []
unfolding lapses
evicted_lapses = refl

kept_lapses : lapses windows (codes "a") (λ k. none) requests ≡ true ∷ false ∷ false ∷ []
unfolding lapses
kept_lapses = refl

check_all-alone_example :
    select (codes "a") requests (check_all one_window none requests)
    ≡ run_lapsing (lapses one_window (codes "a") none requests) none (of_key (codes "a") requests)
check_all-alone_example = check_all-alone one_window one_window-MayEvict (codes "a") requests none

run_twice_limit_example : allowed (run 2 60 (new_window 0) (50 ∷ 55 ∷ 60 ∷ 70 ∷ 80 ∷ [])) ≤ 2 * 2
run_twice_limit_example =
    run_twice_limit 2 60 (50 ∷ 55 ∷ 60 ∷ 70 ∷ 80 ∷ []) (new_window 0) 50 (omega arith) (omega arith)
      (omega arith)
      (
        (omega arith, omega arith),
        (
          (omega arith, omega arith),
          (
            (omega arith, omega arith),
            ((omega arith, omega arith), ((omega arith, omega arith), tt)),
          ),
        ),
      )

run_burst_example :
    allowed (run 3 60 (new_window 0) (replicate 3 (0 + 60 - 1) ++ replicate 3 (0 + 60))) ≡ 2 * 3
run_burst_example = run_burst 3 60 0 (omega arith) (omega arith) (omega arith)

abbrev full : WindowState
full = record { count = 5; window_start = 0 }

full-rejects : decide full 5 (60 * nanos_per_sec) 1_500_000_000 ≡ (full, reject 59)
unfolding decide
full-rejects = refl
