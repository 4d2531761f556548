-- ===== src/Lockout/Scan.antt =====
-- The two scans of a history, of service/src/auth.rs and service/src/admin/session.rs, against the
-- description of a lock.
use mathlib.Core.List.{append_assoc}
use green_relay.Prelude.{
  ℕ, ◌+◌, ◌-◌, ◌≤◌, ◌≡◌, refl, sym, ap, ◌∙◌, Bool, true, false, ◌&&◌, ◌||◌, List, [], ◌∷◌, ◌++◌,
  Option, none, some, ltb, leb, if◌then◌else◌, All, All-append, All-map, arith, Bool-cases, inl,
  inr,
}
use green_relay.Lockout.{
  Policy, sorted, recent, later, scan_until, lockout_until, is_before, is_locked_out, scan_locked,
  admin_locked,
}
use green_relay.Lockout.Spec.{
  within_window, any, triggers, is_running, locked_at, IsOrdered, within_window-append,
  recent-within, later-none, within-sorted, any-sorted, any-ext, IsOrdered-sorted, absorb,
}

module _ (p : Policy) (fires : ℕ → Bool) where
  -- In the loop the failures up to the anchor are those taken, or else the next anchor is as late.
  step :
      (a : ℕ) (taken rest : List ℕ)
      → All (λ t. t ≤ a) (taken ++ a ∷ [])
      → IsOrdered a rest
      → ((leb p.threshold (recent p.window a (taken ++ a ∷ [])) && fires a)
          || any (triggers p fires ((taken ++ a ∷ []) ++ rest)) rest)
        ≡ (triggers p fires ((taken ++ a ∷ []) ++ rest) a
            || any (triggers p fires ((taken ++ a ∷ []) ++ rest)) rest)
  step a taken [] h o =
      rw
        (
          recent-within p.window a (taken ++ a ∷ []) h,
          within_window-append p.window a (taken ++ a ∷ []) [],
        )
        (ground arith)
  step a taken (b ∷ rest) h o = elim (Bool-cases (ltb a b)) [
    | inl lt ↦
        rw
          (
            recent-within p.window a (taken ++ a ∷ []) h,
            within_window-append p.window a (taken ++ a ∷ []) (b ∷ rest),
          )
          (ground (arith, later-none p.window a b (b ∷ rest) (ground arith) (omega arith, o.1)))
    | inr ge ↦
        let same : b ≡ a = ground (arith, o.0) in
        rw (recent-within p.window a (taken ++ a ∷ []) h, same)
          (absorb p.threshold _ _ (fires a) _
            (omega (arith, within_window-append p.window a (taken ++ a ∷ []) (a ∷ rest))))
  ]

All-snoc :
    (from : ℕ) (taken : List ℕ) (a : ℕ)
    → All (λ t. t ≤ from) taken
    → from ≤ a
    → All (λ t. t ≤ a) (taken ++ a ∷ [])
All-snoc from taken a h l =
    All-append (λ t. t ≤ a) taken (a ∷ []) (All-map taken (λ t k. omega (arith, k, l)) h)
      (omega arith, tt)

step_of :
    (p : Policy) (fires : ℕ → Bool) (a : ℕ) (taken rest failures : List ℕ)
    → (taken ++ a ∷ []) ++ rest ≡ failures
    → All (λ t. t ≤ a) (taken ++ a ∷ [])
    → IsOrdered a rest
    → ((leb p.threshold (recent p.window a (taken ++ a ∷ [])) && fires a)
        || any (triggers p fires failures) rest)
      ≡ (triggers p fires failures a || any (triggers p fires failures) rest)
step_of p fires a taken rest failures e h o = rw (sym e) (step p fires a taken rest h o)

is_before-later :
    (now : ℕ) (c : Bool) (r : Option ℕ) (until : ℕ)
    → is_before now (if c then some (later r until) else r)
      ≡ (is_before now r || (c && ltb now until))
is_before-later now false none until = refl
is_before-later now false (some r) until = ground arith
is_before-later now true none until = refl
is_before-later now true (some r) until = ground arith

or_assoc : (a b c : Bool) → ((a || b) || c) ≡ (a || (b || c))
or_assoc a b c = ground arith

if-or : (a b : Bool) → (if a then true else b) ≡ (a || b)
if-or a b = ground arith

scan_until_lem :
    (p : Policy) (now from : ℕ) (result : Option ℕ) (taken rest : List ℕ)
    → All (λ t. t ≤ from) taken
    → IsOrdered from rest
    → is_before now (scan_until p result taken rest)
      ≡ (is_before now result || any (triggers p (is_running p now) (taken ++ rest)) rest)
unfolding scan_until
scan_until_lem p now from result taken [] h o = ground arith
scan_until_lem p now from result taken (a ∷ rest) h o =
    let below = All-snoc from taken a h o.0 in
    scan_until_lem p now a _ (taken ++ a ∷ []) rest below o.1
    ∙ rw
        (
          append_assoc taken (a ∷ []) rest,
          is_before-later now (leb p.threshold (recent p.window a (taken ++ a ∷ []))) result
              (a + p.duration),
        )
        (or_assoc (is_before now result)
            (leb p.threshold (recent p.window a (taken ++ a ∷ [])) && ltb now (a + p.duration))
            (any (triggers p (is_running p now) (taken ++ a ∷ rest)) rest)
          ∙ ap (λ t. is_before now result || t)
              (step_of p (is_running p now) a taken rest _ (append_assoc taken (a ∷ []) rest) below
                o.1))

-- the test of the loop of `admin_locked`
abbrev still_locks : Policy → ℕ → ℕ → Bool
still_locks p now a = leb a now && ltb (now - a) p.duration

scan_locked_lem :
    (p : Policy) (now from : ℕ) (taken rest : List ℕ)
    → All (λ t. t ≤ from) taken
    → IsOrdered from rest
    → scan_locked p now taken rest ≡ any (triggers p (still_locks p now) (taken ++ rest)) rest
unfolding scan_locked
scan_locked_lem p now from taken [] h o = refl
scan_locked_lem p now from taken (a ∷ rest) h o =
    let below = All-snoc from taken a h o.0 in
    rw (scan_locked_lem p now a (taken ++ a ∷ []) rest below o.1) (
      rw (append_assoc taken (a ∷ []) rest) (
        if-or (leb p.threshold (recent p.window a (taken ++ a ∷ [])) && still_locks p now a)
          (any (triggers p (still_locks p now) (taken ++ a ∷ rest)) rest)
        ∙ step_of p (still_locks p now) a taken rest _ (append_assoc taken (a ∷ []) rest) below
            o.1))

triggers-sorted :
    (p : Policy) (fires : ℕ → Bool) (s : List ℕ)
    → any (triggers p fires (sorted s)) (sorted s) ≡ any (triggers p fires s) s
triggers-sorted p fires s =
    any-sorted (triggers p fires (sorted s)) s
    ∙ any-ext _ _ s (λ a. ap (λ n. leb p.threshold n && fires a) (within-sorted p.window a s))

-- An identifier is locked out exactly if some failure ends a window with enough failures in it and
-- less than the duration of a lock has passed since it.
pub is_locked_out-locked_at :
    (p : Policy) (failures : List ℕ) (now : ℕ)
    → is_locked_out p failures now ≡ locked_at p failures now
unfolding is_locked_out lockout_until
is_locked_out-locked_at p failures now =
    scan_until_lem p now 0 none [] (sorted failures) tt (IsOrdered-sorted failures)
    ∙ triggers-sorted p (is_running p now) failures

pub any_ext_on : (q r : ℕ → Bool) (s : List ℕ) → All (λ a. q a ≡ r a) s → any q s ≡ any r s
any_ext_on q r [] h = refl
any_ext_on q r (a ∷ s) h = rw (h.0, any_ext_on q r s h.1)

-- The scan of the login of administrators, which stops at the first trigger that locks, gives the
-- same lock as that of the keys on a history without later failures.
pub admin_locked-is_locked_out :
    (p : Policy) (failures : List ℕ) (now : ℕ)
    → All (λ t. t ≤ now) failures
    → admin_locked p failures now ≡ is_locked_out p failures now
unfolding admin_locked
admin_locked-is_locked_out p failures now h =
    scan_locked_lem p now 0 [] (sorted failures) tt (IsOrdered-sorted failures)
    ∙ triggers-sorted p (still_locks p now) failures
    ∙ any_ext_on _ _ failures (
        All-map failures
          (λ a l. ap (λ t. leb p.threshold (within_window p.window a failures) && t) (fires a l)) h)
    ∙ sym (is_locked_out-locked_at p failures now)
  where
    fires : (a : ℕ) → a ≤ now → still_locks p now a ≡ is_running p now a
    fires a l = ground arith
