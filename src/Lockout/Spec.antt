-- ===== src/Lockout/Spec.antt =====
-- service/src/auth.rs: a lockout described with no sorting and no loop: some failure has enough
-- failures in the window that ends at it, and its lock has not run out.
use green_relay.Prelude.{
  ℕ, ◌+◌, ◌-◌, ◌≤◌, ◌<◌, ◌≡◌, refl, ap, ◌∙◌, Bool, false, ◌&&◌, ◌||◌, List, [], ◌∷◌, ◌++◌, ltb, leb,
  if◌then◌else◌, All, arith, Bool-cases, inl, inr,
}
use green_relay.Lockout.{Policy, insert_sorted, sorted, recent}

-- the failures up to `a` that are at most `window` before it
abbrev pub within_window : ℕ → ℕ → List ℕ → ℕ
within_window window a [] = 0
within_window window a (t ∷ ts) =
    (if leb t a && leb (a - t) window then 1 else 0) + within_window window a ts

abbrev pub any : (ℕ → Bool) → List ℕ → Bool
any q [] = false
any q (t ∷ ts) = q t || any q ts

-- There are enough failures in the window that ends at `a`, and `a` passes the test `fires`.
abbrev pub triggers : Policy → (ℕ → Bool) → List ℕ → ℕ → Bool
triggers p fires all_failures a = leb p.threshold (within_window p.window a all_failures) && fires a

-- The lock that a failure at `a` sets off has not run out.
abbrev pub is_running : Policy → ℕ → ℕ → Bool
is_running p now a = ltb now (a + p.duration)

-- The description.
abbrev pub locked_at : Policy → List ℕ → ℕ → Bool
locked_at p failures now = any (triggers p (is_running p now) failures) failures

-- in order, from `from` on
abbrev pub IsOrdered : ℕ → List ℕ → Type 0
IsOrdered from [] = Unit
IsOrdered from (t ∷ ts) = (from ≤ t) × IsOrdered t ts

pub within_window-append :
    (w a : ℕ) (s t : List ℕ)
    → within_window w a (s ++ t) ≡ within_window w a s + within_window w a t
within_window-append w a [] t = omega arith
within_window-append w a (x ∷ s) t = omega (arith, within_window-append w a s t)

-- Among failures none of which is later, the two ways to count agree.
pub recent-within : (w a : ℕ) (s : List ℕ) → All (λ t. t ≤ a) s → recent w a s ≡ within_window w a s
recent-within w a [] h = refl
recent-within w a (t ∷ s) h = ground (arith, recent-within w a s h.1)

pub later-none : (w a b : ℕ) (s : List ℕ) → a < b → IsOrdered b s → within_window w a s ≡ 0
later-none w a b [] l h = refl
later-none w a b (t ∷ s) l h = ground (arith, later-none w a t s (omega arith) h.1)

within-insert :
    (w a b : ℕ) (s : List ℕ) → within_window w a (insert_sorted b s) ≡ within_window w a (b ∷ s)
within-insert w a b [] = refl
within-insert w a b (t ∷ s) = ground (arith, within-insert w a b s)

pub within-sorted : (w a : ℕ) (s : List ℕ) → within_window w a (sorted s) ≡ within_window w a s
within-sorted w a [] = refl
within-sorted w a (b ∷ s) = within-insert w a b (sorted s) ∙ omega (arith, within-sorted w a s)

any-insert : (q : ℕ → Bool) (b : ℕ) (s : List ℕ) → any q (insert_sorted b s) ≡ (q b || any q s)
any-insert q b [] = refl
any-insert q b (t ∷ s) = ground (arith, any-insert q b s)

pub any-sorted : (q : ℕ → Bool) (s : List ℕ) → any q (sorted s) ≡ any q s
any-sorted q [] = refl
any-sorted q (b ∷ s) = any-insert q b (sorted s) ∙ ap (λ x. q b || x) (any-sorted q s)

pub any-ext : (q r : ℕ → Bool) (s : List ℕ) → ((a : ℕ) → q a ≡ r a) → any q s ≡ any r s
any-ext q r [] h = refl
any-ext q r (a ∷ s) h = rw (h a, any-ext q r s h)

IsOrdered-insert :
    (from b : ℕ) (s : List ℕ) → from ≤ b → IsOrdered from s → IsOrdered from (insert_sorted b s)
IsOrdered-insert from b [] l h = (l, tt)
IsOrdered-insert from b (t ∷ s) l h = elim (Bool-cases (leb b t)) [
  | inl le ↦ rw le (l, (ground arith, h.1))
  | inr gt ↦ rw gt (h.0, IsOrdered-insert t b s (ground arith) h.1)
]

pub IsOrdered-sorted : (s : List ℕ) → IsOrdered 0 (sorted s)
IsOrdered-sorted [] = tt
IsOrdered-sorted (b ∷ s) = IsOrdered-insert 0 b (sorted s) (omega arith) (IsOrdered-sorted s)

pub absorb :
    (c n m : ℕ) (f r : Bool)
    → n ≤ m
    → ((leb c n && f) || ((leb c m && f) || r)) ≡ ((leb c m && f) || ((leb c m && f) || r))
absorb c n m f r l = ground arith

pub IsOrdered-weaken : (a b : ℕ) (s : List ℕ) → a ≤ b → IsOrdered b s → IsOrdered a s
IsOrdered-weaken a b [] l h = tt
IsOrdered-weaken a b (t ∷ s) l h = (omega (arith, l, h.0), h.1)
