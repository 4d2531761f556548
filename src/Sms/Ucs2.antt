-- ===== src/Sms/Ucs2.antt =====
-- service/src/sms.rs: UTF-16 as upper-case hexadecimal, the form of a UCS2 message on the wire.
pub mod RoundTrip
use green_relay.Prelude.{
  ℕ, zero, suc, ◌+◌, ◌-◌, ◌*◌, ◌/◌, ◌%◌, Bool, true, false, not, ◌&&◌, ◌||◌, List, [], ◌∷◌, ◌++◌,
  Option, none, some, ltb, leb, ◌==◌, if◌then◌else◌, all, u16_max,
}
use green_relay.Text.{Text, within, is_ascii_hexdigit, is_scalar, len, as_bytes, trim}

-- `str::encode_utf16`
abbrev pub utf16_char : ℕ → List ℕ
utf16_char c =
    if ltb c 0x10000
    then c ∷ []
    else (0xD800 + (c - 0x10000) / 0x400) ∷ (0xDC00 + (c - 0x10000) % 0x400) ∷ []

-- one digit of `{:X}`
abbrev pub hex_digit : ℕ → ℕ
hex_digit n = if ltb n 10 then b'0' + n else b'A' + (n - 10)

-- `{unit:04X}` of a u16
abbrev pub hex_unit : ℕ → Text
hex_unit u =
    hex_digit (u / 0x1000)
    ∷ hex_digit (u / 0x100 % 0x10)
    ∷ hex_digit (u / 0x10 % 0x10)
    ∷ hex_digit (u % 0x10)
    ∷ []

abbrev pub hex_units : List ℕ → Text
hex_units [] = []
hex_units (u ∷ us) = hex_unit u ++ hex_units us

abbrev pub encode_utf16 : Text → List ℕ
encode_utf16 [] = []
encode_utf16 (c ∷ s) = utf16_char c ++ encode_utf16 s

unfoldable pub ucs2_hex_encode : Text → Text
ucs2_hex_encode s = hex_units (encode_utf16 s)

abbrev pub hex_value : ℕ → ℕ
hex_value c =
    if within b'0' b'9' c
    then c - b'0'
    else if within b'A' b'F' c
    then c - b'A' + 10
    else c - b'a' + 10

-- `u16::from_str_radix(chunk, 16).ok()` on a chunk of four bytes
parse_hex : ℕ → List ℕ → Option ℕ
parse_hex acc [] = some acc
parse_hex acc (c ∷ s) =
    if is_ascii_hexdigit c && leb (acc * 16 + hex_value c) u16_max
    then parse_hex (acc * 16 + hex_value c) s
    else none

parse_hex_unit : ℕ → ℕ → ℕ → ℕ → Option ℕ
unfolding parse_hex
parse_hex_unit a b c d =
    if a == b'+' then parse_hex 0 (b ∷ c ∷ d ∷ []) else parse_hex 0 (a ∷ b ∷ c ∷ d ∷ [])

cons_some : ℕ → Option (List ℕ) → Option (List ℕ)
cons_some u none = none
cons_some u (some us) = some (u ∷ us)

push_unit : Option ℕ → Option (List ℕ) → Option (List ℕ)
push_unit none rest = none
push_unit (some u) rest = cons_some u rest

-- The `while` loop, four bytes a round. The bytes are ASCII here, so `from_utf8` gives the chunk;
-- `bytes.get` gives nothing where fewer than four are left.
read_units : List ℕ → Option (List ℕ)
unfolding push_unit cons_some
read_units [] = some []
read_units (a ∷ (b ∷ (c ∷ (d ∷ rest)))) = push_unit (parse_hex_unit a b c d) (read_units rest)
read_units (_ ∷ _) = none

-- `String::from_utf16(&units).ok()`
abbrev is_surrogate : ℕ → Bool
is_surrogate u = within 0xD800 0xDFFF u

from_utf16 : List ℕ → Option Text
unfolding cons_some
from_utf16 [] = some []
from_utf16 (u ∷ []) = if is_surrogate u then none else some (u ∷ [])
from_utf16 (u ∷ (v ∷ rest)) =
    let single = cons_some u (from_utf16 (v ∷ rest)) in
    let double = cons_some (0x10000 + (u - 0xD800) * 0x400 + (v - 0xDC00)) (from_utf16 rest) in
    if not (is_surrogate u)
    then single
    else if within 0xD800 0xDBFF u && within 0xDC00 0xDFFF v
    then double
    else none

decode_units : Option (List ℕ) → Option Text
decode_units none = none
decode_units (some us) = from_utf16 us

decode_trimmed : Text → Option Text
unfolding as_bytes
decode_trimmed hex =
    if len hex == 0 || not (len hex % 4 == 0) || not (all is_ascii_hexdigit (as_bytes hex))
    then none
    else decode_units (read_units (as_bytes hex))

unfoldable pub ucs2_hex_decode : Text → Option Text
unfolding trim decode_trimmed read_units parse_hex_unit from_utf16 decode_units
ucs2_hex_decode hex = decode_trimmed (trim hex)
