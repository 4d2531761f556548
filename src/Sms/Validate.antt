-- ===== src/Sms/Validate.antt =====
-- service/src/sms.rs: the checks of a send request's fields; service/src/error.rs: their errors.
pub mod Laws
use green_relay.Prelude.{
  ℕ, ◌≤◌, Bool, true, false, not, ◌++◌, List, [], ◌∷◌, Option, none, some, Result, ok, err, ltb,
  leb, ◌==◌, if◌then◌else◌, length, all, ◌&&◌,
}
use green_relay.Text.{Text, codes, within, is_ascii, is_ascii_digit, as_bytes, len}

pub data ValidationError : Type 0 where
  missing_fields : List Text → ValidationError
  invalid_phone_number body_empty body_too_long : ValidationError

abbrev pub max_body_chars : ℕ
max_body_chars = 1530

abbrev pub e164_min_digits : ℕ
e164_min_digits = 7

abbrev pub e164_max_digits : ℕ
e164_max_digits = 15

abbrev pub Checked : Type 0
Checked = Result (Unit {0}) ValidationError

-- what follows the `+`, as bytes
validate_digits : List ℕ → Checked
validate_digits digits =
    if not (within e164_min_digits e164_max_digits (length digits))
    then err invalid_phone_number
    else if all is_ascii_digit digits
    then ok tt
    else err invalid_phone_number

validate_bytes : List ℕ → Checked
validate_bytes [] = err invalid_phone_number
validate_bytes (b ∷ rest) = if b == b'+' then validate_digits rest else err invalid_phone_number

unfoldable pub validate_e164 : Text → Checked
unfolding validate_bytes validate_digits as_bytes
validate_e164 s = validate_bytes (as_bytes s)

unfoldable pub validate_body : Text → Checked
validate_body body =
    let count = (if all is_ascii body then len body else length body) in
    if count == 0
    then err body_empty
    else if ltb max_body_chars count
    then err body_too_long
    else ok tt

missing : Option Text → Text → List Text → List Text
missing none name names = names ++ name ∷ []
missing (some _) name names = names

verdict : List Text → Checked
verdict [] = ok tt
verdict names = err (missing_fields names)

unfoldable pub check_required_fields : Option Text → Option Text → Checked
unfolding missing verdict
check_required_fields to body = verdict (missing body (codes "body") (missing to (codes "to") []))
