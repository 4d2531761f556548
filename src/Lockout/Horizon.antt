-- ===== src/Lockout/Horizon.antt =====
-- service/src/auth.rs: the failures that a tracker forgets, older than a window and a lock together.
use green_relay.Prelude.{
  ℕ, ◌+◌, ◌-◌, ◌≤◌, ◌≡◌, refl, sym, ap, ◌∙◌, Bool, true, ◌&&◌, ◌||◌, List, [], ◌∷◌, leb, retain,
  arith, Bool-cases, inl, inr,
}
use green_relay.Lockout.{Policy, is_locked_out}
use green_relay.Lockout.Spec.{within_window, any, any-ext, triggers, is_running}
use green_relay.Lockout.Scan.{is_locked_out-locked_at}

module _ (keep : ℕ → Bool) where
  within-retain :
      (w a : ℕ) (s : List ℕ)
      → ((t : ℕ) → (leb t a && leb (a - t) w) ≡ true → keep t ≡ true)
      → within_window w a (retain keep s) ≡ within_window w a s
  within-retain w a [] h = refl
  within-retain w a (t ∷ s) h = elim (Bool-cases (keep t)) [
    | inl k ↦ rw k (omega (arith, within-retain w a s h))
    | inr k ↦ rw k (ground (arith, h t, within-retain w a s h))
  ]

  any-retain :
      (q : ℕ → Bool) (s : List ℕ)
      → ((t : ℕ) → q t ≡ true → keep t ≡ true)
      → any q (retain keep s) ≡ any q s
  any-retain q [] h = refl
  any-retain q (t ∷ s) h = elim (Bool-cases (keep t)) [
    | inl k ↦ rw k (ap (λ r. q t || r) (any-retain q s h))
    | inr k ↦ rw k (ground (arith, h t, any-retain q s h))
  ]

module _ (p : Policy) (seen now : ℕ) (order : seen ≤ now) where
  abbrev kept : ℕ → Bool
  kept t = leb (seen - t) (p.window + p.duration)

  triggers-retain :
      (s : List ℕ) (a : ℕ)
      → triggers p (is_running p now) (retain kept s) a ≡ triggers p (is_running p now) s a
  triggers-retain s a = elim (Bool-cases (is_running p now a)) [
    | inl runs ↦
        ap (λ n. leb p.threshold n && is_running p now a)
          (within-retain kept p.window a s (λ t h. ground (arith, order)))
    | inr over ↦ ground (arith, over)
  ]

  triggers-kept : (s : List ℕ) (a : ℕ) → triggers p (is_running p now) s a ≡ true → kept a ≡ true
  triggers-kept s a h = ground (arith, order)

  -- Forgetting, at some moment, the failures that are older then than a window and a lock together
  -- changes no lock from that moment on.
  pub is_locked_out-retain :
      (failures : List ℕ)
      → is_locked_out p (retain (λ t. leb (seen - t) (p.window + p.duration)) failures) now
        ≡ is_locked_out p failures now
  is_locked_out-retain failures =
      is_locked_out-locked_at p (retain kept failures) now
      ∙ any-ext _ _ (retain kept failures) (triggers-retain failures)
      ∙ any-retain kept _ failures (triggers-kept failures)
      ∙ sym (is_locked_out-locked_at p failures now)
