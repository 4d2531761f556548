-- ===== src/Admin/Cookie.antt =====
-- service/src/admin/session.rs: the session cookie and reading it back.
use green_relay.Prelude.{
  ℕ, ◌*◌, ◌≡◌, refl, ◌∙◌, Bool, List, [], ◌∷◌, ◌++◌, Option, none, some, if◌then◌else◌, count,
  count-append, arith,
}
use green_relay.Text.{Text, codes, text_eq, trim, trim_start, trim_end, is_whitespace}
use green_relay.Text.Decimal.{to_decimal}
use green_relay.Text.Trim.{IsSolid, trim-IsSolid}
use green_relay.Text.Split.{
  split, split_onto-field, split_once, split_once_onto, trim_matches, trim_matches_none,
}

abbrev pub session_cookie_name : Text
session_cookie_name = codes "admin_session"

-- `SESSION_IDLE_TIMEOUT.as_secs()`
abbrev pub session_idle_secs : ℕ
session_idle_secs = 30 * 60

abbrev pub secure_attr : Bool → Text
secure_attr secure = if secure then codes "; Secure" else []

-- `format!("{SESSION_COOKIE}={token}; HttpOnly; SameSite=Strict; Path=/{secure_attr}; Max-Age={}", …)`
unfoldable pub session_cookie : Text → Bool → Text
session_cookie token secure =
    session_cookie_name
    ++ codes "="
    ++ token
    ++ codes "; HttpOnly; SameSite=Strict; Path=/"
    ++ secure_attr secure
    ++ codes "; Max-Age="
    ++ to_decimal session_idle_secs

unfoldable pub clear_cookie : Bool → Text
clear_cookie secure =
    session_cookie_name
    ++ codes "=; HttpOnly; SameSite=Strict; Path=/"
    ++ secure_attr secure
    ++ codes "; Max-Age=0"

-- the closure of `parse_cookie`, on the two halves of a pair
abbrev pub cookie_value : Text → Option (Text × Text) → Option Text
cookie_value name none = none
cookie_value name (some (k, v)) =
    if text_eq (trim k) name then some (trim_matches b'"' (trim v)) else none

-- `Iterator::find_map`
abbrev pub or_next {ℓ} : {A : Type ℓ} → Option A → Option A → Option A
or_next none next = next
or_next (some a) next = some a

unfoldable pub find_cookie : Text → List Text → Option Text
find_cookie name [] = none
find_cookie name (pair ∷ pairs) =
    or_next (cookie_value name (split_once b'=' pair)) (find_cookie name pairs)

unfoldable pub parse_cookie : Text → Text → Option Text
unfolding find_cookie
parse_cookie header_value name = find_cookie name (split b';' header_value)

-- The argument is the `Cookie` header, if there is one that is a text.
unfoldable pub session_token_from_headers : Option Text → Option Text
session_token_from_headers none = none
session_token_from_headers (some cookie_header) = parse_cookie cookie_header session_cookie_name

-- no blank, no semicolon, no quotation mark
abbrev pub IsToken : Text → Type 0
IsToken token = IsSolid token × (count b';' token ≡ 0) × (count b'"' token ≡ 0)

first_field :
    (token rest : Text)
    → count b';' token ≡ 0
    → split b';' (session_cookie_name ++ codes "=" ++ token ++ b';' ∷ rest)
      ≡ (session_cookie_name ++ codes "=" ++ token) ∷ split b';' rest
unfolding split
first_field token rest h =
    split_onto-field b';' [] (session_cookie_name ++ codes "=" ++ token) rest
      (count-append b';' (codes "admin_session=") token ∙ omega (arith, h))

trim_name : trim session_cookie_name ≡ session_cookie_name
unfolding trim trim_start trim_end
trim_name = unfold is_whitespace in refl

-- A token without blanks, semicolons and quotation marks is read back from a Cookie header that
-- begins with the session cookie, whatever further cookies follow it.
pub parse_cookie-token :
    (token rest : Text)
    → IsToken token
    → parse_cookie (session_cookie_name ++ codes "=" ++ token ++ b';' ∷ rest) session_cookie_name
      ≡ some token
unfolding parse_cookie find_cookie split_once split_once_onto
parse_cookie-token token rest h =
    rw (first_field token rest h.1)
      (rw (trim_name, trim-IsSolid token h.0, trim_matches_none b'"' token h.2) refl)
