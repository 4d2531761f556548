-- ===== src/Auth/Tests.antt =====
-- Examples for service/src/auth.rs.
use green_relay.Prelude.{
  ℕ, ◌≡◌, ◌≤◌, false, arith, ◌↔◌, refl, false, List, [], ◌∷◌, Option, none, some, length,
  if◌then◌else◌, arith,
}
use green_relay.Text.{Text, codes, text_eq}
use green_relay.HashMap.{get}
use green_relay.Lockout.Spec.{locked_at}
use green_relay.Lockout.{seconds}
use green_relay.Auth.{authorized, unauthorized, locked_out, key_identifier, authenticate}
use green_relay.Auth.Attempts.{authenticate_at, refusals, authenticate_at-refusals}
use green_relay.Auth.Laws.{five_in_a_minute, authenticate-authorized_iff}
use green_relay.HashMap.{get}
use green_relay.Lockout.Spec.{locked_at}

-- a store of one key, and a digest of two bytes
abbrev store : Text → Option ℕ
store k = if text_eq k (codes "2a03") then some 7 else none

abbrev digest : List ℕ → List ℕ
digest bytes = 42 ∷ length bytes ∷ []

abbrev times : List ℕ
times =
    seconds 1
    ∷ seconds 2
    ∷ seconds 3
    ∷ seconds 4
    ∷ seconds 5
    ∷ seconds 6
    ∷ seconds 304
    ∷ seconds 305
    ∷ []

authenticate_at-refusals_example : authenticate_at store (codes "beef") [] times ≡ refusals [] times
authenticate_at-refusals_example =
    authenticate_at-refusals store (codes "beef") refl [] times (unfold get in refl) (omega arith)
      (
        omega arith,
        (
          omega arith,
          (
            omega arith,
            (omega arith, (omega arith, (omega arith, (omega arith, (omega arith, tt))))),
          ),
        ),
      )
      (omega arith)

-- Five failures lock for five minutes.
refusals_example :
    refusals [] times
    ≡ unauthorized ∷ unauthorized ∷ unauthorized ∷ unauthorized ∷ unauthorized ∷ locked_out
      ∷ locked_out ∷ unauthorized ∷ []
refusals_example = refl

authenticate-authorized_iff_example :
    ((authenticate digest store (codes "key") [] 0).1 ≡ authorized 7) ↔ (
      (1 ≤ 3)
      × (3 ≤ 256)
      × (locked_at five_in_a_minute [] 0 ≡ false)
      × (store (key_identifier digest (codes "key")) ≡ some 7))
unfolding get
authenticate-authorized_iff_example = authenticate-authorized_iff store digest (codes "key") [] 0 7

abbrev some_digest : List ℕ
some_digest = digest (1 ∷ 2 ∷ 3 ∷ [])
