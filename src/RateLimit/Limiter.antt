-- ===== src/RateLimit/Limiter.antt =====
-- service/src/ratelimit.rs: `RateLimiter`, one window for each key in a `moka` cache. The cache is a
-- parameter. An entry is a shared cell; writing through it is an operation of the cache here, since
-- the entry stays the cached one until it is evicted.
pub mod Alone
use mathlib.Core.Path.{ap₂, subst}
use green_relay.Prelude.{
  ℕ, ◌≡◌, ◌⊎◌, Bool, true, false, Option-cases, refl, sym, ap, ◌∙◌, List, [], ◌∷◌, Option, none,
  some, if◌then◌else◌, retain, Bool-cases, inl, inr,
}
use green_relay.Text.{Text, text_eq}
use green_relay.Text.Equality.{text_eq_sound}
use green_relay.RateLimit.{WindowState, new_window, RateDecision, decide}

pub record Cache (V : Type 0) : Type 1 where
  pub States : Type 0
  pub find : States → Text → Option V
  pub get_with : States → Text → V → States × V
  pub write : States → Text → V → States

abbrev pub get_or {ℓ} : {A : Type ℓ} → Option A → A → A
get_or none a = a
get_or (some b) a = b

-- What `moka` documents: `get_with` gives the entry, or inserts the given value and gives that; an
-- entry keeps what was last written to it, and any entry may be evicted at any time, since there are
-- a capacity and a time to idle.
pub record MayEvict {V : Type 0} (c : Cache V) : Type 0 where
  pub get_with_value :
      (s : c.States) (k : Text) (v : V) → (c.get_with s k v).1 ≡ get_or (c.find s k) v
  pub find_get_with :
      (s : c.States) (k j : Text) (v : V)
      → (c.find (c.get_with s k v).0 j
          ≡ (if text_eq k j then some (get_or (c.find s k) v) else c.find s j))
        ⊎ (c.find (c.get_with s k v).0 j ≡ none)
  pub find_write :
      (s : c.States) (k j : Text) (v : V)
      → (c.find (c.write s k v) j ≡ (if text_eq k j then some v else c.find s j))
        ⊎ (c.find (c.write s k v) j ≡ none)

-- the arguments of `RateLimiter::check`
pub record Request : Type 0 where
  pub key : Text
  pub limit : ℕ
  pub window : ℕ
  pub now : ℕ

module _ (c : Cache WindowState) where
  unfoldable pub check : c.States → Request → c.States × RateDecision
  check states r =
      let (states', state) = c.get_with states r.key (new_window r.now) in
      let (state', decision) = decide state r.limit r.window r.now in
      (c.write states' r.key state', decision)

  unfoldable pub count_for : c.States → Text → ℕ
  count_for states key = elim (c.find states key) [ none ↦ 0 | some state ↦ state.count ]

  unfoldable pub check_all : c.States → List Request → List RateDecision
  unfolding check
  check_all states [] = []
  check_all states (r ∷ rs) = let (states', d) = check states r in d ∷ check_all states' rs
