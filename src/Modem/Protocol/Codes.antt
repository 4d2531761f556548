-- ===== src/Modem/Protocol/Codes.antt =====
-- What is shown is read back: result codes and message references.
use green_relay.Prelude.{ℕ, ◌≤◌, ◌≡◌, refl, ap, ◌∙◌, ◌∷◌, ◌++◌, some, u16_max, u32_max}
use green_relay.Text.{Text, codes, is_whitespace, trim, strip_prefix}
use green_relay.Text.Trim.{IsInk, trim-append, trim_space, trim-IsSolid, IsSolid}
use green_relay.Text.Decimal.{
  to_decimal, parse_uint, parse_uint-to_decimal, to_decimal-All, to_decimal-ne-nil,
  All-IsDigit-IsSolid,
}
use green_relay.Modem.Protocol.Line.{
  AtResult, error, timeout, cms_error, cme_error, show_result, LineClass, terminator,
  non_terminating, code_or_error, classify_cme, classify_cms, classify_trimmed, classify_line,
  reference_of, format_cmgs_response, parse_cmgs_reference,
}

plus-IsInk : IsInk b'+'
unfolding is_whitespace
plus-IsInk = refl

decimal-IsSolid : (n : ℕ) → IsSolid (to_decimal n)
decimal-IsSolid n = All-IsDigit-IsSolid (to_decimal n) (to_decimal-All n)

-- a label, a space and a number
trim_labelled : (s : Text) (n : ℕ) → trim (b'+' ∷ (s ++ to_decimal n)) ≡ b'+' ∷ (s ++ to_decimal n)
trim_labelled s n =
    trim-append b'+' s (to_decimal n) plus-IsInk (decimal-IsSolid n) (to_decimal-ne-nil n)

parse_spaced : (most n : ℕ) → n ≤ most → parse_uint most (trim (b' ' ∷ to_decimal n)) ≡ some n
parse_spaced most n h =
    ap (parse_uint most)
      (trim_space (to_decimal n) ∙ trim-IsSolid (to_decimal n) (decimal-IsSolid n))
    ∙ parse_uint-to_decimal most n h

-- The reference of 32 bits that a +CMGS line shows is the one that is parsed from it.
pub parse_cmgs_reference-format :
    (r : ℕ) → r ≤ u32_max → parse_cmgs_reference (format_cmgs_response r) ≡ some r
unfolding parse_cmgs_reference format_cmgs_response
parse_cmgs_reference-format r h =
    ap (λ t. reference_of (strip_prefix (codes "+CMGS:") t)) (trim_labelled (codes "CMGS: ") r)
    ∙ unfold strip_prefix reference_of in parse_spaced u32_max r h

-- A code fits the 16 bits of its type.
abbrev pub IsWord : AtResult → Type 0
IsWord (cms_error c) = c ≤ u16_max
IsWord (cme_error c) = c ≤ u16_max
IsWord _ = Unit

-- how a shown result is classified: a timeout is no line of the modem
abbrev pub shown_class : AtResult → LineClass
shown_class timeout = non_terminating
shown_class r = terminator r

-- A result whose code fits 16 bits is classified from its text as what it is; TIMEOUT terminates
-- nothing.
pub classify_line-show_result :
    (r : AtResult) → IsWord r → classify_line (show_result r) ≡ shown_class r
unfolding classify_line show_result
classify_line-show_result AtResult.ok h = unfold is_whitespace in refl
classify_line-show_result error h = unfold is_whitespace in refl
classify_line-show_result timeout h = unfold is_whitespace in refl
classify_line-show_result (cms_error c) h =
    ap classify_trimmed (trim_labelled (codes "CMS ERROR: ") c)
    ∙ unfold classify_trimmed strip_prefix classify_cms in
      ap (code_or_error cms_error) (parse_spaced u16_max c h)
classify_line-show_result (cme_error c) h =
    ap classify_trimmed (trim_labelled (codes "CME ERROR: ") c)
    ∙ unfold classify_trimmed strip_prefix classify_cms classify_cme in
      ap (code_or_error cme_error) (parse_spaced u16_max c h)
