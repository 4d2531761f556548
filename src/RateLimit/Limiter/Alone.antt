-- ===== src/RateLimit/Limiter/Alone.antt =====
-- service/src/ratelimit.rs: what a key gets among the requests of others, whatever the cache evicts.
use mathlib.Core.Path.{ap₂, subst}
use green_relay.Prelude.{
  ◌≡◌, ◌⊎◌, Bool, true, false, Option-cases, refl, sym, ap, ◌∙◌, List, [], ◌∷◌, Option, none, some,
  if◌then◌else◌, retain, Bool-cases, inl, inr,
}
use green_relay.Text.{Text, text_eq}
use green_relay.Text.Equality.{text_eq_sound}
use green_relay.RateLimit.{WindowState, new_window, RateDecision, decide}
use green_relay.RateLimit.Limiter.{Cache, get_or, MayEvict, Request, check, check_all}

-- the decisions on the requests of one key
abbrev pub select : Text → List Request → List RateDecision → List RateDecision
select k (r ∷ rs) (d ∷ ds) = if text_eq r.key k then d ∷ select k rs ds else select k rs ds
select k _ _ = []

abbrev pub of_key : Text → List Request → List Request
of_key k rs = retain (λ r. text_eq r.key k) rs

abbrev pub is_absent : Option WindowState → Bool
is_absent none = true
is_absent (some state) = false

module _ (c : Cache WindowState) where
  -- for each request of a key, whether the cache holds no window for it when the request comes
  unfoldable pub lapses : Text → c.States → List Request → List Bool
  unfolding check
  lapses k states [] = []
  lapses k states (r ∷ rs) =
      let rest = lapses k (check c states r).0 rs in
      if text_eq r.key k then is_absent (c.find states k) ∷ rest else rest

-- the limiter of a single key: its window, once it has one, which is forgotten at each lapse
unfoldable pub run_lapsing : List Bool → Option WindowState → List Request → List RateDecision
run_lapsing [] state rs = []
run_lapsing (lapse ∷ lapses) state [] = []
run_lapsing (lapse ∷ lapses) state (r ∷ rs) =
    let kept = if lapse then none else state in
    let (state', d) = decide (get_or kept (new_window r.now)) r.limit r.window r.now in
    d ∷ run_lapsing lapses (some state') rs

module _ (c : Cache WindowState) (laws : MayEvict c) where
  -- the window that a request leaves behind
  after : Option WindowState → Request → WindowState
  after state r = (decide (get_or state (new_window r.now)) r.limit r.window r.now).0

  -- The cache holds the window of the key, or none.
  abbrev Holds : c.States → Text → Option WindowState → Type 0
  Holds s k state = (c.find s k ≡ state) ⊎ (c.find s k ≡ none)

  check_decision :
      (s : c.States) (r : Request)
      → (check c s r).1
        ≡ (decide (get_or (c.find s r.key) (new_window r.now)) r.limit r.window r.now).1
  unfolding check
  check_decision s r = rw (laws.get_with_value s r.key (new_window r.now))

  check-Holds_own :
      (s : c.States) (r : Request) (k : Text)
      → text_eq r.key k ≡ true
      → Holds (check c s r).0 k (some (after (c.find s r.key) r))
  unfolding check after
  check-Holds_own s r k same =
      rw (laws.get_with_value s r.key (new_window r.now))
        (elim (laws.find_write (c.get_with s r.key (new_window r.now)).0 r.key k _) [
          | inl kept ↦ inl (kept ∙ rw same refl)
          | inr gone ↦ inr gone
        ])

  check-Holds_other :
      (s : c.States) (r : Request) (k : Text) (state : Option WindowState)
      → text_eq r.key k ≡ false
      → Holds s k state
      → Holds (check c s r).0 k state
  unfolding check
  check-Holds_other s r k state other h =
      elim (laws.find_write (c.get_with s r.key (new_window r.now)).0 r.key k _) [
        | inr gone ↦ inr gone
        | inl kept ↦ elim (laws.find_get_with s r.key k (new_window r.now)) [
          | inr gone ↦ inr (kept ∙ rw other gone)
          | inl found ↦ elim h [
            | inl e ↦ inl (kept ∙ (rw other (found ∙ rw other e)))
            | inr e ↦ inr (kept ∙ (rw other (found ∙ rw other e)))
          ]
        ]
      ]

  -- what the limiter of the key goes on with is what the cache holds
  kept_found :
      (s : c.States) (k : Text) (state : Option WindowState)
      → Holds s k state
      → (if is_absent (c.find s k) then none else state) ≡ c.find s k
  kept_found s k state h = elim (Option-cases (c.find s k)) [
    | inl e ↦ rw e refl
    | inr (v, e) ↦ elim h [ inl q ↦ rw e (sym q ∙ e) | inr q ↦ cc (sym e ∙ q) ]
  ]

  check_all-run_lapsing :
      (k : Text) (rs : List Request) (s : c.States) (state : Option WindowState)
      → Holds s k state
      → select k rs (check_all c s rs) ≡ run_lapsing (lapses c k s rs) state (of_key k rs)
  unfolding check_all run_lapsing lapses after
  check_all-run_lapsing k [] s state h = refl
  check_all-run_lapsing k (r ∷ rs) s state h = elim (Bool-cases (text_eq r.key k)) [
    | inl same ↦
        let e : c.find s r.key ≡ c.find s k = ap (λ t. c.find s t) (text_eq_sound r.key k same) in
        rw (same, kept_found s k state h)
          (ap₂ (◌∷◌)
            (check_decision s r
              ∙ ap (λ o. (decide (get_or o (new_window r.now)) r.limit r.window r.now).1) e)
            (check_all-run_lapsing k rs (check c s r).0 (some (after (c.find s k) r)) (
              subst (λ o. Holds (check c s r).0 k (some (after o r))) e
                (check-Holds_own s r k same))))
    | inr other ↦
        rw other
          (check_all-run_lapsing k rs (check c s r).0 state (check-Holds_other s r k state other h))
  ]

  -- Among any requests of many keys, those of one key get the decisions that they would get alone,
  -- with the window of the key forgotten exactly when the cache, which may evict any entry at any
  -- time, holds none as a request of the key comes.
  pub check_all-alone :
      (k : Text) (rs : List Request) (s : c.States)
      → select k rs (check_all c s rs) ≡ run_lapsing (lapses c k s rs) (c.find s k) (of_key k rs)
  check_all-alone k rs s = check_all-run_lapsing k rs s (c.find s k) (inl refl)
