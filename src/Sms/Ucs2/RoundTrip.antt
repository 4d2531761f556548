-- ===== src/Sms/Ucs2/RoundTrip.antt =====
-- Decoding what was encoded.
use green_relay.Prelude.{
  ℕ, ◌+◌, ◌*◌, ◌/◌, ◌%◌, ◌<◌, ◌≡◌, ◌≢◌, refl, ap, ◌∙◌, true, false, ◌||◌, List, [], ◌∷◌, ◌++◌, some,
  ltb, leb, ◌==◌, all, All, All-append, arith, length, inl, inr, Bool-cases,
}
use green_relay.Text.{Text, within, is_ascii_hexdigit, is_scalar, is_whitespace, len, as_bytes}
use green_relay.Text.Trim.{IsInk, IsSolid, trim-IsSolid}
use green_relay.Sms.Ucs2.{
  utf16_char, hex_digit, hex_units, encode_utf16, ucs2_hex_encode, hex_value, parse_hex,
  parse_hex_unit, cons_some, read_units, from_utf16, decode_units, ucs2_hex_decode,
}

abbrev pub IsScalar : ℕ → Type 0
IsScalar c = is_scalar c ≡ true

abbrev IsU16 : ℕ → Type 0
IsU16 u = u < 0x10000

-- an upper-case hexadecimal digit
abbrev pub IsHex : ℕ → Type 0
IsHex c = (within b'0' b'9' c || within b'A' b'F' c) ≡ true

utf16_char-IsU16 : (c : ℕ) → IsScalar c → All IsU16 (utf16_char c)
utf16_char-IsU16 c h = elim (Bool-cases (ltb c 0x10000)) [
  | inl low ↦ rw low (ground arith, tt)
  | inr high ↦ rw high (ground arith, (ground arith, tt))
]

encode_utf16-IsU16 : (s : Text) → All IsScalar s → All IsU16 (encode_utf16 s)
encode_utf16-IsU16 [] h = tt
encode_utf16-IsU16 (c ∷ s) h =
    All-append IsU16 (utf16_char c) (encode_utf16 s) (utf16_char-IsU16 c h.0)
      (encode_utf16-IsU16 s h.1)

hex_digit-IsHex : (n : ℕ) → n < 16 → IsHex (hex_digit n)
hex_digit-IsHex n h = ground arith

hex_units-IsHex : (us : List ℕ) → All IsU16 us → All IsHex (hex_units us)
hex_units-IsHex [] h = tt
hex_units-IsHex (u ∷ us) h =
    let d = hex_digit-IsHex in
    (
      d (u / 0x1000) (omega arith),
      (
        d (u / 0x100 % 0x10) (omega arith),
        (d (u / 0x10 % 0x10) (omega arith), (d (u % 0x10) (omega arith), hex_units-IsHex us h.1)),
      ),
    )

pub encode-IsHex : (s : Text) → All IsScalar s → All IsHex (ucs2_hex_encode s)
unfolding ucs2_hex_encode
encode-IsHex s h = hex_units-IsHex (encode_utf16 s) (encode_utf16-IsU16 s h)

IsHex-IsInk : (c : ℕ) → IsHex c → IsInk c
unfolding is_whitespace
IsHex-IsInk c h = ground arith

IsHex-IsSolid : (s : Text) → All IsHex s → IsSolid s
IsHex-IsSolid [] h = tt
IsHex-IsSolid (c ∷ s) h = (IsHex-IsInk c h.0, IsHex-IsSolid s h.1)

-- Hexadecimal digits are their own bytes.
pub as_bytes-IsHex : (s : Text) → All IsHex s → as_bytes s ≡ s
unfolding as_bytes
as_bytes-IsHex [] h = refl
as_bytes-IsHex (c ∷ s) h = ground (arith, as_bytes-IsHex s h.1)

len-IsHex : (s : Text) → All IsHex s → len s ≡ length s
len-IsHex [] h = refl
len-IsHex (c ∷ s) h = ground (arith, len-IsHex s h.1)

all-IsHex : (s : Text) → All IsHex s → all is_ascii_hexdigit s ≡ true
all-IsHex [] h = refl
all-IsHex (c ∷ s) h = ground (arith, all-IsHex s h.1)

length-hex_units : (us : List ℕ) → length (hex_units us) ≡ 4 * length us
length-hex_units [] = refl
length-hex_units (u ∷ us) = omega (arith, length-hex_units us)

hex_digit-value :
    (n : ℕ)
    → n < 16
    → (hex_value (hex_digit n) ≡ n)
      × (is_ascii_hexdigit (hex_digit n) ≡ true)
      × (hex_digit n ≢ b'+')
hex_digit-value n h = (ground arith, ground arith, ground arith)

parse_hex_cons :
    (acc n : ℕ) (s : List ℕ)
    → n < 16
    → acc < 0x1000
    → parse_hex acc (hex_digit n ∷ s) ≡ parse_hex (acc * 16 + n) s
unfolding parse_hex
parse_hex_cons acc n s h k =
    let (value, hex, _) = hex_digit-value n h in
    rw (value, hex) (let fits : leb (acc * 16 + n) 65535 ≡ true = ground arith in rw fits)

parse-hex_unit :
    (u : ℕ)
    → IsU16 u
    → parse_hex_unit
        (hex_digit (u / 0x1000))
        (hex_digit (u / 0x100 % 0x10))
        (hex_digit (u / 0x10 % 0x10))
        (hex_digit (u % 0x10))
      ≡ some u
unfolding parse_hex_unit
parse-hex_unit u h =
    let a = u / 0x1000 in
    let b = u / 0x100 % 0x10 in
    let c = u / 0x10 % 0x10 in
    let d = u % 0x10 in
    let sign : (hex_digit a == b'+') ≡ false =
      ground (arith, (hex_digit-value a (omega arith)).2) in
    rw sign (
      parse_hex_cons 0 a (hex_digit b ∷ hex_digit c ∷ hex_digit d ∷ []) (omega arith) (omega arith)
      ∙ parse_hex_cons (0 * 16 + a) b (hex_digit c ∷ hex_digit d ∷ []) (omega arith) (omega arith)
      ∙ parse_hex_cons ((0 * 16 + a) * 16 + b) c (hex_digit d ∷ []) (omega arith) (omega arith)
      ∙ parse_hex_cons (((0 * 16 + a) * 16 + b) * 16 + c) d [] (omega arith) (omega arith)
      ∙ ap some (omega arith))

read-hex_units : (us : List ℕ) → All IsU16 us → read_units (hex_units us) ≡ some us
unfolding read_units
read-hex_units [] h = refl
read-hex_units (u ∷ us) h = rw (parse-hex_unit u h.0, read-hex_units us h.1)

from_utf16_char :
    (c : ℕ) (rest : List ℕ)
    → IsScalar c
    → from_utf16 (utf16_char c ++ rest) ≡ cons_some c (from_utf16 rest)
unfolding from_utf16
from_utf16_char c [] h = ground arith
from_utf16_char c (v ∷ rest) h = ground arith

from-encode_utf16 : (s : Text) → All IsScalar s → from_utf16 (encode_utf16 s) ≡ some s
unfolding from_utf16
from-encode_utf16 [] h = refl
from-encode_utf16 (c ∷ s) h =
    from_utf16_char c (encode_utf16 s) h.0 ∙ ap (cons_some c) (from-encode_utf16 s h.1)

encode_utf16-pos : (s : Text) → s ≢ [] → 0 < length (encode_utf16 s)
encode_utf16-pos [] h = absurd (h refl)
encode_utf16-pos (c ∷ s) h = ground arith

-- Every text of Unicode scalar values that is not empty comes back from its hexadecimal UTF-16
-- form.
pub decode-encode :
    (s : Text) → All IsScalar s → s ≢ [] → ucs2_hex_decode (ucs2_hex_encode s) ≡ some s
unfolding ucs2_hex_decode ucs2_hex_encode
decode-encode s h ne =
    let us = encode_utf16 s in
    let units = encode_utf16-IsU16 s h in
    let hex = hex_units-IsHex us units in
    let size : len (hex_units us) ≡ 4 * length us =
      len-IsHex (hex_units us) hex ∙ length-hex_units us in
    let some_units = encode_utf16-pos s ne in
    let not_empty : (len (hex_units us) == 0) ≡ false = ground arith in
    let whole : (len (hex_units us) % 4 == 0) ≡ true = ground arith in
    rw
      (
        trim-IsSolid (hex_units us) (IsHex-IsSolid (hex_units us) hex),
        not_empty,
        whole,
        as_bytes-IsHex (hex_units us) hex,
        all-IsHex (hex_units us) hex,
      )
      (ap decode_units (read-hex_units us units) ∙ from-encode_utf16 s h)
