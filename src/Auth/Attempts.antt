-- ===== src/Auth/Attempts.antt =====
-- service/src/auth.rs: a key that is not valid, tried again and again.
use green_relay.Prelude.{
  ℕ, ◌+◌, ◌≤◌, ◌<◌, ◌≡◌, refl, ap, ◌∙◌, true, List, [], ◌∷◌, ◌++◌, Option, none, length,
  length-append, if◌then◌else◌, arith, Bool-cases, inl, inr,
}
use green_relay.Text.{Text}
use green_relay.HashMap.{get}
use green_relay.Lockout.{is_locked_out}
use green_relay.Lockout.Spec.{IsOrdered, IsOrdered-weaken, locked_at}
use green_relay.Lockout.Scan.{is_locked_out-locked_at}
use green_relay.Lockout.Horizon.{is_locked_out-retain}
use green_relay.Lockout.Tracker.{Failures, or_default, retain_recent, push_failure, is_locked}
use green_relay.Lockout.Tracker.Refine.{
  has_room, push_get, push_room, record_failure-push, is_some_and-default,
}
use green_relay.Auth.{AuthOutcome, unauthorized, locked_out, auth_policy, authenticate_identified}

module _ (lookup_active : Text → Option ℕ) where
  -- the outcomes of authentications of one identifier at some times
  abbrev pub authenticate_at : Text → Failures → List ℕ → List AuthOutcome
  authenticate_at k tracker [] = []
  authenticate_at k tracker (t ∷ times) =
      let (tracker', outcome) = authenticate_identified lookup_active k tracker t in
      outcome ∷ authenticate_at k tracker' times

-- The description: an attempt while the failures so far lock is refused as such and does not count,
-- any other is refused and counts.
abbrev pub refusals : List ℕ → List ℕ → List AuthOutcome
refusals counted [] = []
refusals counted (t ∷ times) =
    if locked_at auth_policy counted t
    then locked_out ∷ refusals counted times
    else unauthorized ∷ refusals (counted ++ t ∷ []) times

module _ (lookup_active : Text → Option ℕ) (k : Text) (invalid : lookup_active k ≡ none) where
  is_locked_now :
      (m : Failures) (seen now : ℕ) (s : List ℕ)
      → or_default (get m k) ≡ retain_recent auth_policy seen s
      → seen ≤ now
      → is_locked (is_locked_out auth_policy) m k now ≡ locked_at auth_policy s now
  unfolding is_locked
  is_locked_now m seen now s e l =
      is_some_and-default auth_policy now (get m k) (is_locked_out-locked_at auth_policy [] now)
      ∙ ap (λ h. is_locked_out auth_policy h now) e
      ∙ is_locked_out-retain auth_policy seen now l s
      ∙ is_locked_out-locked_at auth_policy s now

  authenticate_at_lem :
      (m : Failures) (seen : ℕ) (s times : List ℕ)
      → has_room auth_policy m k ≡ true
      → or_default (get m k) ≡ retain_recent auth_policy seen s
      → IsOrdered seen times
      → length s + length times ≤ 32
      → authenticate_at lookup_active k m times ≡ refusals s times
  unfolding authenticate_identified
  authenticate_at_lem m seen s [] room e o short = refl
  authenticate_at_lem m seen s (t ∷ times) room e o short =
      rw (is_locked_now m seen t s e o.0) (elim (Bool-cases (locked_at auth_policy s t)) [
        | inl locked ↦ rw locked (
            ap (λ r. locked_out ∷ r)
              (authenticate_at_lem m seen s times room e (IsOrdered-weaken seen t times o.0 o.1)
                (omega (arith, short))))
        | inr free ↦
            rw (free, invalid, record_failure-push auth_policy m k t room)
              (ap (λ r. unauthorized ∷ r)
                (authenticate_at_lem (push_failure auth_policy m k t) t (s ++ t ∷ []) times
                  (push_room auth_policy m k t)
                  (push_get auth_policy m k seen t s e o.0
                    (omega (arith, short, length-append s (t ∷ []))))
                  o.1 (omega (arith, short, length-append s (t ∷ [])))))
      ])

  -- A key that the store does not know, new to a tracker with room and tried at most 32 times in
  -- order, is refused each time, and as locked out exactly when five of the earlier counted
  -- attempts lie within 60 s and 300 s have not passed since the last of these.
  pub authenticate_at-refusals :
      (m : Failures) (times : List ℕ)
      → get m k ≡ none
      → length m < 50_000
      → IsOrdered 0 times
      → length times ≤ 32
      → authenticate_at lookup_active k m times ≡ refusals [] times
  authenticate_at-refusals m times fresh room o short =
      authenticate_at_lem m 0 [] times (ground (arith, room)) (rw fresh refl) o
        (omega (arith, short))
