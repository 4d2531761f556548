-- ===== src/Sms/Frame.antt =====
-- service/src/sms.rs: the bytes of an `AT+CMGS` exchange.
pub mod Laws
use green_relay.Prelude.{ℕ, ◌||◌, not, List, [], ◌∷◌, ◌++◌, ◌==◌, retain}
use green_relay.Text.{Text, codes, is_ascii_digit, as_bytes}
use green_relay.Sms.Alphabet.{SmsEncoding, gsm7, ucs2}
use green_relay.Sms.Ucs2.{ucs2_hex_encode}

-- the characters of a number that are sent
abbrev pub sanitized : Text → Text
sanitized to = retain (λ c. is_ascii_digit c || c == b'+') to

address : Text → SmsEncoding → Text
address to gsm7 = sanitized to
address to ucs2 = ucs2_hex_encode (sanitized to)

unfoldable pub build_cmgs_header : Text → SmsEncoding → List ℕ
unfolding address as_bytes ucs2_hex_encode
build_cmgs_header to encoding =
    codes "AT+CMGS=\"" ++ (as_bytes (address to encoding) ++ codes "\"\r")

body_bytes : Text → SmsEncoding → List ℕ
body_bytes part gsm7 = retain (λ b. not (b == 0x1A)) (as_bytes part)
body_bytes part ucs2 = as_bytes (ucs2_hex_encode part)

unfoldable pub build_cmgs_body : Text → SmsEncoding → List ℕ
unfolding body_bytes as_bytes ucs2_hex_encode
build_cmgs_body part encoding = body_bytes part encoding ++ 0x1A ∷ []

unfoldable pub build_cmgs : Text → Text → List ℕ
unfolding build_cmgs_header build_cmgs_body
build_cmgs to part = build_cmgs_header to gsm7 ++ build_cmgs_body part gsm7
