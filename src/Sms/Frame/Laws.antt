-- ===== src/Sms/Frame/Laws.antt =====
-- No number and no body can break the framing of an `AT+CMGS` exchange.
use green_relay.Prelude.{
  ℕ, ◌≡◌, ◌≢◌, refl, ap, ◌∙◌, true, not, ◌||◌, List, [], ◌∷◌, ◌++◌, ◌==◌, retain, count,
  count-append, All, arith, ok, inl, inr, Bool-cases,
}
use green_relay.Text.{Text, codes, is_ascii_digit, as_bytes}
use green_relay.Text.Decimal.{IsDigit}
use green_relay.Sms.Alphabet.{SmsEncoding, gsm7, ucs2}
use green_relay.Sms.Ucs2.{ucs2_hex_encode}
use green_relay.Sms.Ucs2.RoundTrip.{IsScalar, IsHex, encode-IsHex, as_bytes-IsHex}
use green_relay.Sms.Validate.{validate_e164}
use green_relay.Sms.Validate.Laws.{validate_e164_iff}
use green_relay.Sms.Frame.{sanitized, address, body_bytes, build_cmgs_header, build_cmgs_body}

-- a character that an address may hold
abbrev IsDial : ℕ → Type 0
IsDial c = (is_ascii_digit c || c == b'+') ≡ true

-- a byte that cannot end a command, a quotation or a text
abbrev IsTame : ℕ → Type 0
IsTame b = (b ≢ b'"') × (b ≢ b'\r') × (b ≢ b'\n') × (b ≢ 0x1A) × (b ≢ 0x1B)

sanitized-IsDial : (s : Text) → All IsDial (sanitized s)
sanitized-IsDial [] = tt
sanitized-IsDial (c ∷ s) = elim (Bool-cases (is_ascii_digit c || c == b'+')) [
  | inl keep ↦ rw keep (keep, sanitized-IsDial s)
  | inr drop ↦ rw drop (sanitized-IsDial s)
]

sanitized_plus_digits : (d : Text) → All IsDigit d → sanitized d ≡ d
sanitized_plus_digits [] h = refl
sanitized_plus_digits (c ∷ d) h = ground (arith, sanitized_plus_digits d h.1)

IsDial-IsScalar : (s : Text) → All IsDial s → All IsScalar s
IsDial-IsScalar [] h = tt
IsDial-IsScalar (c ∷ s) h = (ground arith, IsDial-IsScalar s h.1)

as_bytes-IsDial : (s : Text) → All IsDial s → as_bytes s ≡ s
unfolding as_bytes
as_bytes-IsDial [] h = refl
as_bytes-IsDial (c ∷ s) h = ground (arith, as_bytes-IsDial s h.1)

IsDial-IsTame : (s : Text) → All IsDial s → All IsTame s
IsDial-IsTame [] h = tt
IsDial-IsTame (c ∷ s) h = (ground arith, IsDial-IsTame s h.1)

IsHex-IsTame : (s : Text) → All IsHex s → All IsTame s
IsHex-IsTame [] h = tt
IsHex-IsTame (c ∷ s) h = (ground arith, IsHex-IsTame s h.1)

count-IsTame :
    (s : Text)
    → All IsTame s
    → (count b'"' s ≡ 0)
      × (count b'\r' s ≡ 0)
      × (count b'\n' s ≡ 0)
      × (count 0x1A s ≡ 0)
      × (count 0x1B s ≡ 0)
count-IsTame [] h = (refl, refl, refl, refl, refl)
count-IsTame (c ∷ s) h = ground (arith, count-IsTame s h.1)

address-IsTame : (to : Text) (e : SmsEncoding) → All IsTame (as_bytes (address to e))
unfolding address
address-IsTame to gsm7 =
    let d = sanitized-IsDial to in
    rw (as_bytes-IsDial (sanitized to) d) (IsDial-IsTame (sanitized to) d)
address-IsTame to ucs2 =
    let hex = encode-IsHex (sanitized to) (IsDial-IsScalar (sanitized to) (sanitized-IsDial to)) in
    rw (as_bytes-IsHex (ucs2_hex_encode (sanitized to)) hex)
      (IsHex-IsTame (ucs2_hex_encode (sanitized to)) hex)

-- Whatever text stands for the number, the header of a part has two quotation marks, one carriage
-- return, and no line feed, Ctrl-Z or escape.
pub build_cmgs_header_framed :
    (to : Text) (e : SmsEncoding)
    → let h = build_cmgs_header to e in
      (count b'"' h ≡ 2)
      × (count b'\r' h ≡ 1)
      × (count b'\n' h ≡ 0)
      × (count 0x1A h ≡ 0)
      × (count 0x1B h ≡ 0)
unfolding build_cmgs_header
build_cmgs_header_framed to e =
    let a = as_bytes (address to e) in
    let (q, r, n, z, x) = count-IsTame a (address-IsTame to e) in
    (
      omega (arith, count-append b'"' a (codes "\"\r")),
      omega (arith, count-append b'\r' a (codes "\"\r")),
      omega (arith, count-append b'\n' a (codes "\"\r")),
      omega (arith, count-append 0x1A a (codes "\"\r")),
      omega (arith, count-append 0x1B a (codes "\"\r")),
    )

count-retain : (z : ℕ) (s : List ℕ) → count z (retain (λ b. not (b == z)) s) ≡ 0
count-retain z [] = refl
count-retain z (b ∷ s) = ground (arith, count-retain z s)

body_bytes-count :
    (part : Text) (e : SmsEncoding) → All IsScalar part → count 0x1A (body_bytes part e) ≡ 0
unfolding body_bytes
body_bytes-count part gsm7 h = count-retain 0x1A (as_bytes part)
body_bytes-count part ucs2 h =
    let hex = encode-IsHex part h in
    rw (as_bytes-IsHex (ucs2_hex_encode part) hex)
      ((count-IsTame (ucs2_hex_encode part) (IsHex-IsTame (ucs2_hex_encode part) hex)).3)

-- Whatever Unicode scalar values a part holds, its payload ends with Ctrl-Z and has no other.
pub build_cmgs_body_terminated :
    (part : Text) (e : SmsEncoding)
    → All IsScalar part
    → (front : List ℕ) × (build_cmgs_body part e ≡ front ++ 0x1A ∷ []) × (count 0x1A front ≡ 0)
unfolding build_cmgs_body
build_cmgs_body_terminated part e h = (body_bytes part e, refl, body_bytes-count part e h)

-- A number that passed `validate_e164` is sent as it is.
pub build_cmgs_header-validate_e164 :
    (to : Text)
    → validate_e164 to ≡ ok tt
    → build_cmgs_header to gsm7 ≡ codes "AT+CMGS=\"" ++ (to ++ codes "\"\r")
unfolding build_cmgs_header
build_cmgs_header-validate_e164 to h =
    let e = (validate_e164_iff to).0 h in
    let same : sanitized to ≡ to =
      rw e.plus (ground (arith, sanitized_plus_digits e.digits e.numeric)) in
    ap (λ t. codes "AT+CMGS=\"" ++ (t ++ codes "\"\r"))
      (as_bytes-IsDial (sanitized to) (sanitized-IsDial to) ∙ same)
