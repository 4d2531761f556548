-- ===== src/Text/Case.antt =====
-- `str::to_ascii_uppercase` and `to_ascii_lowercase`.
use green_relay.Prelude.{
  ℕ, ◌+◌, ◌-◌, ◌≡◌, refl, Bool, true, false, List, [], ◌∷◌, Option, none, some, arith,
  if◌then◌else◌,
}
use green_relay.Text.{Text, within, text_eq}

abbrev pub upper_char : ℕ → ℕ
upper_char c = if within b'a' b'z' c then c - 32 else c

abbrev pub lower_char : ℕ → ℕ
lower_char c = if within b'A' b'Z' c then c + 32 else c

unfoldable pub to_ascii_uppercase : Text → Text
to_ascii_uppercase [] = []
to_ascii_uppercase (c ∷ s) = upper_char c ∷ to_ascii_uppercase s

unfoldable pub to_ascii_lowercase : Text → Text
to_ascii_lowercase [] = []
to_ascii_lowercase (c ∷ s) = lower_char c ∷ to_ascii_lowercase s

-- Changing to upper case forgets a change to lower case.
pub upper-lower : (s : Text) → to_ascii_uppercase (to_ascii_lowercase s) ≡ to_ascii_uppercase s
unfolding to_ascii_uppercase to_ascii_lowercase
upper-lower [] = refl
upper-lower (c ∷ s) = ground (arith, upper-lower s)

-- `contains` on a slice of texts
unfoldable pub member : Text → List Text → Bool
member s [] = false
member s (t ∷ ts) = if text_eq t s then true else member s ts

-- `match` of a text against the names of some values
unfoldable pub named {ℓ} : {A : Type ℓ} → List (Text × A) → Text → Option A
named [] s = none
named ((name, a) ∷ rest) s = if text_eq s name then some a else named rest s
