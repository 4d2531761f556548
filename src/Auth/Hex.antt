-- ===== src/Auth/Hex.antt =====
-- service/src/auth.rs: `to_hex` and its inverse.
use green_relay.Prelude.{
  ℕ, ◌+◌, ◌-◌, ◌*◌, ◌/◌, ◌%◌, ◌<◌, ◌≡◌, refl, sym, ap, ◌∙◌, List, [], ◌∷◌, ◌==◌, ltb, if◌then◌else◌,
  get_elem?, All, arith,
}
use green_relay.Prelude.Tables.{every_below, every_below_sound}
use green_relay.Text.{Text}
use green_relay.Auth.{hex_digits, or_zero_digit, to_hex}

abbrev hex_of : ℕ → ℕ
hex_of n = or_zero_digit (get_elem? hex_digits n)

abbrev hex_value : ℕ → ℕ
hex_value c = if ltb c 58 then c - 48 else c - 87

hex_value-hex_of : (n : ℕ) → n < 16 → hex_value (hex_of n) ≡ n
unfolding every_below
hex_value-hex_of n h =
    ground (arith, every_below_sound 16 (λ m. hex_value (hex_of m) == m) n refl h)

-- the bytes that a text stands for, by pairs of digits
abbrev from_hex : Text → List ℕ
from_hex (c ∷ d ∷ s) = (hex_value c * 16 + hex_value d) ∷ from_hex s
from_hex _ = []

from_hex-to_hex : (bytes : List ℕ) → All (λ b. b < 256) bytes → from_hex (to_hex bytes) ≡ bytes
unfolding to_hex
from_hex-to_hex [] h = refl
from_hex-to_hex (b ∷ bytes) h =
    rw
      (
        hex_value-hex_of (b / 16) (omega (arith, h.0)),
        hex_value-hex_of (b % 16) (omega arith),
        from_hex-to_hex bytes h.1,
      )
      (ap (λ c. c ∷ bytes) (omega arith))

-- Digests, lists of bytes, that are written alike in hexadecimal are the same.
pub to_hex_injective :
    (a b : List ℕ) → All (λ x. x < 256) a → All (λ x. x < 256) b → to_hex a ≡ to_hex b → a ≡ b
to_hex_injective a b ha hb e = sym (from_hex-to_hex a ha) ∙ ap from_hex e ∙ from_hex-to_hex b hb
