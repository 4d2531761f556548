-- ===== src/Sms/Validate/Laws.antt =====
-- What the checks of a send request accept.
use green_relay.Prelude.{
  ℕ, ◌≤◌, ◌<◌, ◌≡◌, ◌↔◌, refl, ap, true, [], ◌∷◌, ok, err, length, all, All, arith,
}
use green_relay.Text.{Text, is_ascii, is_ascii_digit, len, as_bytes}
use green_relay.Text.Decimal.{IsDigit}
use green_relay.Text.Bytes.{as_bytes-digits, digits-as_bytes, all-IsDigit}
use green_relay.Sms.Validate.{
  Checked, body_empty, body_too_long, validate_e164, validate_digits, validate_body,
}

-- A number in E.164 form: a plus sign and 7 to 15 digits.
pub record IsE164 (s : Text) : Type 0 where
  pub digits : Text
  pub plus : s ≡ b'+' ∷ digits
  pub numeric : All IsDigit digits
  pub at_least : 7 ≤ length digits
  pub at_most : length digits ≤ 15

validate-IsE164 : (s : Text) → IsE164 s → validate_e164 s ≡ ok tt
unfolding validate_e164
validate-IsE164 s e =
    ground (arith, e.plus, as_bytes-digits e.digits e.numeric, all-IsDigit e.digits e.numeric)

-- The first byte is a plus sign exactly if the first character is.
validate_e164-cons :
    (c : ℕ) (s : Text)
    → validate_e164 (c ∷ s) ≡ ok tt
    → (c ≡ b'+') × (validate_digits (as_bytes s) ≡ ok tt)
unfolding validate_e164
validate_e164-cons c s h = ground arith

validate_digits-eq-ok :
    (d : Text)
    → validate_digits d ≡ ok tt
    → (all is_ascii_digit d ≡ true) × (7 ≤ length d) × (length d ≤ 15)
unfolding validate_digits
validate_digits-eq-ok d h = ground arith

validate_e164-nil : ¬ (validate_e164 [] ≡ ok tt)
unfolding validate_e164
validate_e164-nil h = cc

IsE164-validate : (s : Text) → validate_e164 s ≡ ok tt → IsE164 s
IsE164-validate [] h = absurd (validate_e164-nil h)
IsE164-validate (c ∷ s) h =
    let (plus, rest) = validate_e164-cons c s h in
    let (numeric, low, high) = validate_digits-eq-ok (as_bytes s) rest in
    let digits = digits-as_bytes s numeric in
    let same = ap length (as_bytes-digits s digits) in
    record {
      digits = s;
      plus = rw plus;
      numeric = digits;
      at_least = omega (arith, same);
      at_most = omega (arith, same);
    }

-- A number is accepted exactly if it is a plus sign and 7 to 15 ASCII digits.
pub validate_e164_iff : (s : Text) → (validate_e164 s ≡ ok tt) ↔ IsE164 s
validate_e164_iff s = (IsE164-validate s, validate-IsE164 s)

length-ascii : (s : Text) → all is_ascii s ≡ true → len s ≡ length s
length-ascii [] h = refl
length-ascii (c ∷ s) h = ground (arith, length-ascii s)

-- What each answer of `validate_body` says of the number of characters.
abbrev pub BodyVerdict : ℕ → Checked → Type 0
BodyVerdict n (ok _) = (1 ≤ n) × (n ≤ 1530)
BodyVerdict n (err body_empty) = n ≡ 0
BodyVerdict n (err body_too_long) = 1530 < n
BodyVerdict n (err _) = ⊥

-- The length of a body is counted in characters: 1 to 1530 are accepted, none is body_empty, more
-- are body_too_long.
pub validate_body-BodyVerdict : (body : Text) → BodyVerdict (length body) (validate_body body)
unfolding validate_body
validate_body-BodyVerdict body = ground (arith, length-ascii body)
