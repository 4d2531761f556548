-- ===== src/Sms/Alphabet.antt =====
-- service/src/sms.rs: the GSM 03.38 alphabet and the choice of an encoding.
use green_relay.Prelude.{
  ℕ, ◌≤◌, Bool, ◌||◌, Option, none, some, ◌==◌, if◌then◌else◌, all, arith, Bool-cases, inl, inr,
}
use green_relay.Text.{Text, codes, within, contains, is_some, as_bytes, len}

pub data SmsEncoding : Type 0 where
  gsm7 ucs2 : SmsEncoding

-- the characters that take two septets, and those beside the ranges that take one
abbrev extension : Text
extension = codes "^{}\\[~]|€"

abbrev letters : Text
letters = codes "@\n\r£¥èéùìòÇØøÅåΔ_ΦΓΛΩΠΨΣΘΞÆæßÉ¤¡ÄÖÑÜ§¿äöñüà"

abbrev in_one_septet : ℕ → Bool
in_one_septet c =
    contains c letters || within b' ' b'?' c || within b'A' b'Z' c || within b'a' b'z' c

-- The cost in septets, or `none` for a character outside of the alphabet.
unfoldable pub gsm7_septets : ℕ → Option ℕ
gsm7_septets c = if contains c extension then some 2 else if in_one_septet c then some 1 else none

unfoldable pub is_simple : ℕ → Bool
is_simple b =
    b == b'\n'
    || b == b'\r'
    || b == b'@'
    || b == b'_'
    || within b' ' b'?' b
    || within b'A' b'Z' b
    || within b'a' b'z' b

unfoldable pub simple_ascii_gsm7_len : Text → Option ℕ
unfolding is_simple as_bytes
simple_ascii_gsm7_len s = if all is_simple (as_bytes s) then some (len s) else none

unfoldable pub is_gsm7 : Text → Bool
unfolding gsm7_septets
is_gsm7 s = all (λ c. is_some (gsm7_septets c)) s

unfoldable pub message_encoding : Text → SmsEncoding
unfolding is_gsm7
message_encoding body = if is_gsm7 body then gsm7 else ucs2

-- `gsm7_septets(c).unwrap_or(1)`
unfoldable pub septets_or_one : ℕ → ℕ
unfolding gsm7_septets
septets_or_one c = elim (gsm7_septets c) [ none ↦ 1 | some n ↦ n ]

pub septets_le : (c : ℕ) → septets_or_one c ≤ 2
unfolding septets_or_one
septets_le c = elim (Bool-cases (contains c extension)) [
  | inl e ↦ rw (e, septets_or_one) (omega arith)
  | inr e ↦ elim (Bool-cases (in_one_septet c)) [
    | inl o ↦ rw (e, septets_or_one) (rw (o, septets_or_one) (omega arith))
    | inr o ↦ rw (e, septets_or_one) (rw (o, septets_or_one) (omega arith))
  ]
]
