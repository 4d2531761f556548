-- ===== src/Text/Bytes.antt =====
-- UTF-8 and ASCII: how many bytes a text has, and which bytes are ASCII.
use green_relay.Prelude.{ℕ, ◌≡◌, refl, true, [], ◌∷◌, arith, length, length-append, all, All}
use green_relay.Text.{Text, len, len_utf8, utf8_char, as_bytes, is_ascii_digit}
use green_relay.Text.Decimal.{IsDigit}

length-utf8_char : (c : ℕ) → length (utf8_char c) ≡ len_utf8 c
length-utf8_char c = ground arith

pub length-as_bytes : (s : Text) → length (as_bytes s) ≡ len s
unfolding as_bytes
length-as_bytes [] = refl
length-as_bytes (c ∷ s) =
    omega (arith, length-append (utf8_char c) (as_bytes s), length-utf8_char c, length-as_bytes s)

-- Digits are their own encoding.
pub as_bytes-digits : (s : Text) → All IsDigit s → as_bytes s ≡ s
unfolding as_bytes
as_bytes-digits [] h = refl
as_bytes-digits (c ∷ s) h = ground (arith, as_bytes-digits s h.1)

-- A text whose bytes are all digits is all digits.
pub digits-as_bytes : (s : Text) → all is_ascii_digit (as_bytes s) ≡ true → All IsDigit s
unfolding as_bytes
digits-as_bytes [] h = tt
digits-as_bytes (c ∷ s) h = ground (arith, digits-as_bytes s)

pub all-IsDigit : (s : Text) → All IsDigit s → all is_ascii_digit s ≡ true
all-IsDigit [] h = refl
all-IsDigit (c ∷ s) h = ground (arith, all-IsDigit s h.1)
