-- ===== src/Text/Decimal.antt =====
-- Unsigned integers in decimal: `format!("{n}")` and `str::parse`.
use green_relay.Prelude.{
  ℕ, zero, suc, ◌+◌, ◌-◌, ◌*◌, ◌/◌, ◌%◌, ◌≤◌, ◌<◌, ◌≡◌, ◌≢◌, refl, ◌∙◌, true, ◌&&◌, [], ◌∷◌, Option,
  none, some, arith, leb, ◌==◌, if◌then◌else◌, All,
}
use green_relay.Text.{Text, is_ascii_digit, is_whitespace}
use green_relay.Text.Trim.{IsInk, IsSolid}

-- The digits of `n`, put in front of `out`. A number above 0 has fewer digits than its value.
digits_onto : ℕ → ℕ → Text → Text
digits_onto zero n out = out
digits_onto (suc fuel) n out =
    let shown = (b'0' + n % 10) ∷ out in
    let more = digits_onto fuel (n / 10) shown in if n / 10 == 0 then shown else more

-- `n.to_string()`
unfoldable pub to_decimal : ℕ → Text
unfolding digits_onto
to_decimal n = digits_onto (suc n) n []

-- The checked multiplication and addition of `from_str_radix`, at a type with the given maximum.
pub parse_digits : ℕ → ℕ → Text → Option ℕ
parse_digits most acc [] = some acc
parse_digits most acc (c ∷ s) =
    if is_ascii_digit c && leb (acc * 10 + (c - b'0')) most
    then parse_digits most (acc * 10 + (c - b'0')) s
    else none

-- `s.parse::<u16>().ok()` and the like: one leading `+` is allowed, no digits are an error.
unfoldable pub parse_uint : ℕ → Text → Option ℕ
unfolding parse_digits
parse_uint most [] = none
parse_uint most (c ∷ []) = if c == b'+' then none else parse_digits most 0 (c ∷ [])
parse_uint most (c ∷ (d ∷ s)) = parse_digits most 0 (if c == b'+' then d ∷ s else c ∷ (d ∷ s))

abbrev pub IsDigit : ℕ → Type 0
IsDigit c = is_ascii_digit c ≡ true

pub IsDigit-IsInk : (c : ℕ) → IsDigit c → IsInk c
unfolding is_whitespace
IsDigit-IsInk c h = ground arith

pub All-IsDigit-IsSolid : (s : Text) → All IsDigit s → IsSolid s
All-IsDigit-IsSolid [] h = tt
All-IsDigit-IsSolid (c ∷ s) h = (IsDigit-IsInk c h.0, All-IsDigit-IsSolid s h.1)

digits_onto-All : (fuel n : ℕ) (out : Text) → All IsDigit out → All IsDigit (digits_onto fuel n out)
unfolding digits_onto
digits_onto-All zero n out h = h
digits_onto-All (suc fuel) n out h =
    ground (arith, digits_onto-All fuel (n / 10) ((b'0' + n % 10) ∷ out))

pub to_decimal-All : (n : ℕ) → All IsDigit (to_decimal n)
unfolding to_decimal
to_decimal-All n = digits_onto-All (suc n) n [] tt

-- Reading the digits of `n` and then `out` is reading `out` from `n` on.
parse-digits_onto :
    (most fuel n : ℕ) (out : Text)
    → n < fuel
    → n ≤ most
    → parse_digits most 0 (digits_onto fuel n out) ≡ parse_digits most n out
unfolding digits_onto parse_digits
parse-digits_onto most zero n out h k = elim h [ ]
parse-digits_onto most (suc fuel) n out h k =
    ground (arith, parse-digits_onto most fuel (n / 10) ((b'0' + n % 10) ∷ out))

parse_uint-digits :
    (most : ℕ) (s : Text) → All IsDigit s → s ≢ [] → parse_uint most s ≡ parse_digits most 0 s
unfolding parse_uint
parse_uint-digits most [] h ne = absurd (ne refl)
parse_uint-digits most (c ∷ []) h ne = ground arith
parse_uint-digits most (c ∷ (d ∷ s)) h ne = ground arith

digits_onto-ne-nil : (fuel n d : ℕ) (out : Text) → digits_onto fuel n (d ∷ out) ≢ []
unfolding digits_onto
digits_onto-ne-nil zero n d out = cc
digits_onto-ne-nil (suc fuel) n d out =
    ground (arith, digits_onto-ne-nil fuel (n / 10) (b'0' + n % 10) (d ∷ out))

pub to_decimal-ne-nil : (n : ℕ) → to_decimal n ≢ []
unfolding to_decimal
to_decimal-ne-nil n = ground (arith, digits_onto-ne-nil n (n / 10) (b'0' + n % 10) [])

pub parse_uint-to_decimal : (most n : ℕ) → n ≤ most → parse_uint most (to_decimal n) ≡ some n
unfolding parse_digits
parse_uint-to_decimal most n h =
    parse_uint-digits most (to_decimal n) (to_decimal-All n) (to_decimal-ne-nil n)
    ∙ unfold to_decimal in parse-digits_onto most (suc n) n [] (omega arith) h
