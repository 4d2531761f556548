-- ===== src/Auth/Laws.antt =====
-- service/src/auth.rs: who is let in, and what an authentication leaves behind.
use green_relay.Prelude.{
  ℕ, ◌*◌, ◌≤◌, length, arith, Option-cases, ◌≡◌, ◌↔◌, refl, ◌∙◌, true, false, List, Option, none,
  some, Bool-cases, inl, inr,
}
use green_relay.Text.{Text, text_eq}
use green_relay.HashMap.{get, get-insert, get-remove}
use green_relay.Lockout.{Policy, is_locked_out}
use green_relay.Lockout.Spec.{locked_at}
use green_relay.Lockout.Scan.{is_locked_out-locked_at}
use green_relay.Lockout.Tracker.{Failures, push_failure, record_success, is_locked, or_default}
use green_relay.Lockout.Tracker.Refine.{has_room, record_failure-push}
use green_relay.Auth.{
  authorized, auth_policy, passes_guard, key_identifier, conclude, authenticate_identified,
  authenticate,
}

-- five failures within a minute, and a lock of five minutes
abbrev pub five_in_a_minute : Policy
five_in_a_minute = record {
  threshold = 5;
  window = 60 * 1000000000;
  duration = 300 * 1000000000;
  max_tracked = 50000;
  max_failures = 32;
}

passes_guard-bounds :
    (presented : Text)
    → passes_guard presented ≡ true
    → (1 ≤ length presented) × (length presented ≤ 256)
unfolding passes_guard
passes_guard-bounds presented h = ground arith

refused-short :
    (presented : Text)
    → passes_guard presented ≡ false
    → ¬ ((1 ≤ length presented) × (length presented ≤ 256))
unfolding passes_guard
refused-short presented h b = ground (arith, b.0, b.1)

-- The lock of an identifier, described with neither sorting nor loops.
is_locked-locked_at :
    (m : Failures) (k : Text) (now : ℕ)
    → is_locked (is_locked_out auth_policy) m k now
      ≡ locked_at five_in_a_minute (or_default (get m k)) now
unfolding is_locked
is_locked-locked_at m k now = elim (Option-cases (get m k)) [
  | inl e ↦ rw e refl
  | inr (history, e) ↦ rw e (is_locked_out-locked_at auth_policy history now)
]

module _ (lookup_active : Text → Option ℕ) where
  conclude-authorized :
      (m : Failures) (k : Text) (now id : ℕ) (found : Option ℕ)
      → ((conclude m k now found).1 ≡ authorized id) ↔ (found ≡ some id)
  conclude-authorized m k now id none = ((λ e. cc), (λ e. cc))
  conclude-authorized m k now id (some i) = ((λ e. cc), (λ e. cc))

  module _ (sha256 : List ℕ → List ℕ) where
    -- what is recorded of the identifier of a key
    abbrev pub failures_of : Failures → Text → List ℕ
    failures_of m presented = or_default (get m (key_identifier sha256 presented))

    -- A presented key is authorized, as the key of some id, exactly if it has 1 to 256 characters,
    -- the recorded failures of its identifier, five of them within a minute, set off no lock of
    -- five minutes that still runs, and the store has the identifier under that id.
    pub authenticate-authorized_iff :
        (presented : Text) (m : Failures) (now id : ℕ)
        → ((authenticate sha256 lookup_active presented m now).1 ≡ authorized id) ↔ (
            (1 ≤ length presented)
            × (length presented ≤ 256)
            × (locked_at five_in_a_minute (failures_of m presented) now ≡ false)
            × (lookup_active (key_identifier sha256 presented) ≡ some id))
    unfolding authenticate authenticate_identified
    authenticate-authorized_iff presented m now id =
        let k : Text = key_identifier sha256 presented in
        let lock : is_locked (is_locked_out auth_policy) m k now
            ≡ locked_at five_in_a_minute (or_default (get m k)) now =
          is_locked-locked_at m k now in
        elim (Bool-cases (passes_guard presented)) [
          | inr short ↦
              rw short ((λ e. cc), (λ e. absurd (refused-short presented short (e.0, e.1))))
          | inl fits ↦
              let bounds = passes_guard-bounds presented fits in
              rw (fits, lock)
                (elim (Bool-cases (locked_at five_in_a_minute (or_default (get m k)) now)) [
                  | inl locked ↦ rw locked ((λ e. cc), (λ e. cc e.2))
                  | inr free ↦ rw free (
                      let same = conclude-authorized m k now id (lookup_active k) in
                      ((λ e. (bounds.0, bounds.1, refl, same.0 e)), (λ e. same.1 e.3)))
                ])
        ]

  push_other :
      (m : Failures) (k j : Text) (now : ℕ)
      → text_eq k j ≡ false
      → get (push_failure auth_policy m k now) j ≡ get m j
  unfolding push_failure
  push_other m k j now differ = get-insert m k _ j ∙ rw differ refl

  conclude_other :
      (m : Failures) (k j : Text) (now : ℕ) (found : Option ℕ)
      → text_eq k j ≡ false
      → has_room auth_policy m k ≡ true
      → get (conclude m k now found).0 j ≡ get m j
  unfolding record_success
  conclude_other m k j now none differ room =
      rw (record_failure-push auth_policy m k now room) (push_other m k j now differ)
  conclude_other m k j now (some id) differ room = get-remove m k j ∙ rw differ refl

  -- Authenticating one identifier, while the tracker knows it or has room for it, leaves the
  -- recorded failures of every other identifier as they are.
  pub authenticate_identified-other :
      (m : Failures) (k j : Text) (now : ℕ)
      → text_eq k j ≡ false
      → has_room auth_policy m k ≡ true
      → get (authenticate_identified lookup_active k m now).0 j ≡ get m j
  unfolding authenticate_identified
  authenticate_identified-other m k j now differ room =
      elim (Bool-cases (is_locked (is_locked_out auth_policy) m k now)) [
        | inl locked ↦ rw locked refl
        | inr free ↦ rw free (conclude_other m k j now (lookup_active k) differ room)
      ]
