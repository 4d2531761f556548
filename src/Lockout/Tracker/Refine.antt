-- ===== src/Lockout/Tracker/Refine.antt =====
-- service/src/auth.rs: the tracker and the description of a lock on all failures of an identifier.
use green_relay.Prelude.{
  ℕ, ◌+◌, ◌-◌, ◌≤◌, ◌<◌, ◌≡◌, refl, sym, ap, ◌∙◌, Bool, true, false, List, [], ◌∷◌, ◌++◌, Option,
  none, some, ltb, leb, length, retain, length-retain_le, length-append, if◌then◌else◌, arith,
  Bool-cases, inl, inr,
}
use mathlib.Core.List.{append_assoc, append-nil}
use green_relay.Text.{Text, text_eq}
use green_relay.Text.Equality.{text_eq_refl}
use green_relay.HashMap.{HashMap, get, insert, contains_key, get-insert}
use green_relay.Lockout.{Policy, is_locked_out}
use green_relay.Lockout.Spec.{IsOrdered, locked_at}
use green_relay.Lockout.Scan.{is_locked_out-locked_at}
use green_relay.Lockout.Horizon.{is_locked_out-retain}
use green_relay.Lockout.Tracker.{
  Failures, or_default, is_some_and, retain_recent, drain_excess, push_failure, record_failure,
  record_all, is_locked,
}

contains_key-insert :
    {V : Type 0} (m : HashMap V) (k : Text) (v : V) → contains_key (insert k v m) k ≡ true
unfolding insert
contains_key-insert [] k v = rw (text_eq_refl k) refl
contains_key-insert ((j, w) ∷ m) k v = elim (Bool-cases (text_eq j k)) [
  | inl e ↦ rw (e, text_eq_refl k) refl
  | inr n ↦ rw (n, n) (contains_key-insert m k v)
]

retain-append : (q : ℕ → Bool) (s t : List ℕ) → retain q (s ++ t) ≡ retain q s ++ retain q t
retain-append q [] t = refl
retain-append q (x ∷ s) t = elim (Bool-cases (q x)) [
  | inl e ↦ rw e (rw (retain-append q s t) refl)
  | inr e ↦ rw e (retain-append q s t)
]

retain-retain :
    (q r : ℕ → Bool) (s : List ℕ)
    → ((t : ℕ) → r t ≡ true → q t ≡ true)
    → retain r (retain q s) ≡ retain r s
retain-retain q r [] h = refl
retain-retain q r (x ∷ s) h = elim (Bool-cases (q x)) [
  | inl e ↦ rw e (ap (λ z. if r x then x ∷ z else z) (retain-retain q r s h))
  | inr e ↦ rw e (ground (arith, h x, e, retain-retain q r s h))
]

module _ (p : Policy) where
  -- A later look at a history that was already shortened keeps what a look at all of it keeps.
  retain_recent-again :
      (seen now : ℕ) (s : List ℕ)
      → seen ≤ now
      → retain_recent p now (retain_recent p seen s ++ now ∷ [])
        ≡ retain_recent p now (s ++ now ∷ [])
  retain_recent-again seen now s l =
      retain-append _ (retain_recent p seen s) (now ∷ [])
      ∙ ap (λ z. z ++ retain_recent p now (now ∷ []))
          (retain-retain _ _ s (λ t h. ground (arith, l, h)))
      ∙ sym (retain-append _ s (now ∷ []))

  drain_excess-all : (s : List ℕ) → length s ≤ p.max_failures → drain_excess p s ≡ s
  drain_excess-all s h = rw (none_left) refl
    where
      none_left : length s - p.max_failures ≡ 0
      none_left = omega (arith, h)

  -- either known, or there is room
  abbrev pub has_room : Failures → Text → Bool
  has_room m k = if contains_key m k then true else ltb (length m) p.max_tracked

  pub push_get :
      (m : Failures) (k : Text) (seen now : ℕ) (s : List ℕ)
      → or_default (get m k) ≡ retain_recent p seen s
      → seen ≤ now
      → length (s ++ now ∷ []) ≤ p.max_failures
      → or_default (get (push_failure p m k now) k) ≡ retain_recent p now (s ++ now ∷ [])
  unfolding push_failure
  push_get m k seen now s e l short =
      rw
        (
          get-insert m k (drain_excess p (retain_recent p now (or_default (get m k) ++ now ∷ [])))
              k,
          text_eq_refl k,
        )
        (rw e (
          ap (drain_excess p) (retain_recent-again seen now s l)
          ∙ drain_excess-all (retain_recent p now (s ++ now ∷ [])) (
              omega (
                arith,
                short,
                length-retain_le (λ t. leb (now - t) (p.window + p.duration)) (s ++ now ∷ []),
              ))))

  pub record_failure-push :
      (m : Failures) (k : Text) (now : ℕ)
      → has_room m k ≡ true
      → record_failure p m k now ≡ push_failure p m k now
  unfolding record_failure
  record_failure-push m k now room = ground (arith, room)

  pub push_room : (m : Failures) (k : Text) (now : ℕ) → has_room (push_failure p m k now) k ≡ true
  unfolding push_failure
  push_room m k now =
      rw
        (contains_key-insert m k
          (drain_excess p (retain_recent p now (or_default (get m k) ++ now ∷ []))))
        refl

  -- the last of some times in order
  abbrev pub last : ℕ → List ℕ → ℕ
  last seen [] = seen
  last seen (t ∷ times) = last t times

  record_all-get :
      (m : Failures) (k : Text) (seen : ℕ) (s times : List ℕ)
      → has_room m k ≡ true
      → or_default (get m k) ≡ retain_recent p seen s
      → IsOrdered seen times
      → length (s ++ times) ≤ p.max_failures
      → or_default (get (record_all p m k times) k) ≡ retain_recent p (last seen times) (s ++ times)
  unfolding record_all
  record_all-get m k seen s [] room e o short = e ∙ ap (retain_recent p seen) (sym (append-nil s))
  record_all-get m k seen s (t ∷ times) room e o short =
      let short' : length ((s ++ t ∷ []) ++ times) ≤ p.max_failures = omega (
        arith,
        short,
        length-append (s ++ t ∷ []) times,
        length-append s (t ∷ times),
        length-append s (t ∷ []),
      ) in
      rw (record_failure-push m k t room) (
        record_all-get (push_failure p m k t) k t (s ++ t ∷ []) times (push_room m k t)
          (push_get m k seen t s e o.0 (omega (arith, short', length-append (s ++ t ∷ []) times)))
          o.1 short'
        ∙ ap (retain_recent p (last t times)) (append_assoc s (t ∷ []) times))

  pub is_some_and-default :
      (now : ℕ) (o : Option (List ℕ))
      → is_locked_out p [] now ≡ false
      → is_some_and (λ h. is_locked_out p h now) o ≡ is_locked_out p (or_default o) now
  is_some_and-default now none e = sym e
  is_some_and-default now (some h) e = refl

  -- An identifier that a tracker with room does not hold fails some times, in order and no more
  -- often than failures are retained; from the last of them on it is locked out exactly as the
  -- description says of all these failures.
  pub record_all-locked_at :
      (m : Failures) (k : Text) (times : List ℕ) (now : ℕ)
      → get m k ≡ none
      → length m < p.max_tracked
      → IsOrdered 0 times
      → length times ≤ p.max_failures
      → last 0 times ≤ now
      → is_locked (is_locked_out p) (record_all p m k times) k now ≡ locked_at p times now
  unfolding is_locked
  record_all-locked_at m k times now fresh room o short l =
      is_some_and-default now (get (record_all p m k times) k) (is_locked_out-locked_at p [] now)
      ∙ ap (λ h. is_locked_out p h now)
          (record_all-get m k 0 [] times (ground (arith, room)) (rw fresh refl) o short)
      ∙ is_locked_out-retain p (last 0 times) now l times
      ∙ is_locked_out-locked_at p times now
