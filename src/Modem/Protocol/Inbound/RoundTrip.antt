-- ===== src/Modem/Protocol/Inbound/RoundTrip.antt =====
-- An inbound message that is formatted is read back.
use mathlib.Core.List.{append_assoc}
use mathlib.Core.Path.{ap₂}
use green_relay.Prelude.{
  ◌≡◌, refl, sym, ap, ◌∙◌, false, [], ◌∷◌, ◌++◌, List, some, get_elem?, count, count-append, All,
  arith,
}
use green_relay.Text.{Text, codes, is_whitespace, trim, trim_start, strip_prefix, starts_with}
use green_relay.Text.Trim.{IsInk, IsSolid, IsSolid-all, trim_space, trim-append, trim_inked}
use green_relay.Text.Split.{
  lines, lines_onto, split, split_onto, join_with, join-split_onto, trim_matches, strip_cr-concat,
  strip_cr, lines_onto-feed, lines_onto-split, trim_matches_quoted,
}
use green_relay.Modem.Protocol.Line.{
  non_terminating, terminator, AtResult, classify_line, show_result,
}
use green_relay.Modem.Protocol.Codes.{classify_line-show_result}
use green_relay.Modem.Protocol.Inbound.{
  csv_onto, split_quoted_csv, format_cmgr_response, unquote, parse_cmgr_sender, field_is_ucs2,
  cmgr_dcs_is_ucs2, body_lines, decode_body, with_sender, parse_from, find_header, parse_cmgr,
}
use green_relay.Modem.Protocol.Inbound.Fields.{csv_onto_quoted}

-- A line that ends no exchange.
abbrev pub IsDataLine : Text → Type 0
IsDataLine l = classify_line l ≡ non_terminating

-- the header behind the quotation mark after the sender
abbrev closing : Text
closing = codes "\",,\"24/01/02,03:04:05+00\""

abbrev header : Text → Text
header sender = codes "+CMGR: \"REC UNREAD\",\"" ++ (sender ++ closing)

lines-format :
    (sender body : Text)
    → count b'\n' sender ≡ 0
    → count b'\r' body ≡ 0
    → lines (format_cmgr_response sender body)
      ≡ header sender ∷ (split_onto b'\n' [] body ++ codes "OK" ∷ [])
unfolding lines format_cmgr_response
lines-format sender body h k =
    let line = codes "+CMGR: \"REC UNREAD\",\"" ++ (sender ++ (closing ++ b'\r' ∷ [])) in
    let rest = body ++ codes "\r\nOK" in
    let feed : format_cmgr_response sender body ≡ line ++ b'\n' ∷ rest =
      ap (λ t. codes "+CMGR: \"REC UNREAD\",\"" ++ t)
        (sym (append_assoc sender (closing ++ b'\r' ∷ []) (b'\n' ∷ rest))) in
    let ended : line ≡ header sender ++ b'\r' ∷ [] =
      ap (λ t. codes "+CMGR: \"REC UNREAD\",\"" ++ t)
        (sym (append_assoc sender closing (b'\r' ∷ []))) in
    ap (lines_onto []) feed
    ∙ lines_onto-feed [] line rest
        (omega (arith, count-append b'\n' sender (closing ++ b'\r' ∷ [])))
    ∙ ap (λ t. strip_cr t ∷ lines_onto [] rest) ended
    ∙ ap (λ t. t ∷ lines_onto [] rest) (strip_cr-concat (header sender))
    ∙ ap (λ ts. header sender ∷ ts) (lines_onto-split [] body refl k)

quote-IsInk : IsInk b'"'
unfolding is_whitespace
quote-IsInk = refl

closing-IsSolid : IsSolid closing
unfolding is_whitespace
closing-IsSolid = IsSolid-all closing refl

-- The header behind `+CMGR:` has four fields.
fields :
    (sender : Text)
    → count b'"' sender ≡ 0
    → split_quoted_csv (trim (codes " \"REC UNREAD\",\"" ++ (sender ++ closing)))
      ≡ codes "\"REC UNREAD\""
        ∷ (b'"' ∷ (sender ++ b'"' ∷ []))
        ∷ []
        ∷ codes "\"24/01/02,03:04:05+00\""
        ∷ []
unfolding split_quoted_csv csv_onto
fields sender h =
    ap split_quoted_csv (
      trim_space (codes "\"REC UNREAD\",\"" ++ (sender ++ closing))
      ∙ trim-append b'"' (codes "REC UNREAD\",\"" ++ sender) closing quote-IsInk closing-IsSolid
          (cc))
    ∙ ap (λ fs. codes "\"REC UNREAD\"" ∷ fs) (csv_onto_quoted (codes "\"") sender closing h)

sender-header :
    (sender : Text) → count b'"' sender ≡ 0 → parse_cmgr_sender (header sender) ≡ some sender
unfolding parse_cmgr_sender is_whitespace
sender-header sender h =
    ap (λ fs. unquote (get_elem? fs 1)) (fields sender h)
    ∙ unfold unquote in
      ap some (
        ap (trim_matches b'"') (trim_inked b'"' sender b'"' quote-IsInk quote-IsInk)
        ∙ trim_matches_quoted b'"' sender h)

header-dcs : (sender : Text) → count b'"' sender ≡ 0 → cmgr_dcs_is_ucs2 (header sender) ≡ false
unfolding cmgr_dcs_is_ucs2 is_whitespace
header-dcs sender h = ap (λ fs. field_is_ucs2 (unquote (get_elem? fs 7))) (fields sender h)

body_lines-data : (ls : List Text) → All IsDataLine ls → body_lines (ls ++ codes "OK" ∷ []) ≡ ls
unfolding body_lines show_result
body_lines-data [] h =
    let done : classify_line (codes "OK") ≡ terminator AtResult.ok =
      classify_line-show_result AtResult.ok tt in
    rw (done, body_lines)
body_lines-data (l ∷ ls) h = rw (h.0, body_lines) (ap (λ t. l ∷ t) (body_lines-data ls h.1))

header_found :
    (sender : Text) (ls : List Text)
    → find_header (header sender ∷ ls) ≡ parse_from (header sender) ls
unfolding find_header starts_with strip_prefix trim_start is_whitespace
header_found sender ls = refl

-- A response that shows a sender and a body is parsed to them, if the sender holds no quotation
-- mark and no line feed, and the body no carriage return and no line that ends an exchange.
pub parse_cmgr-format :
    (sender body : Text)
    → count b'"' sender ≡ 0
    → count b'\n' sender ≡ 0
    → count b'\r' body ≡ 0
    → All IsDataLine (split b'\n' body)
    → parse_cmgr (format_cmgr_response sender body) ≡ some (record { sender = sender; body = body })
unfolding parse_cmgr split
parse_cmgr-format sender body q n r data_lines =
    let rest = split_onto b'\n' [] body ++ codes "OK" ∷ [] in
    ap find_header (lines-format sender body n r)
    ∙ header_found sender rest
    ∙ unfold parse_from in
      ap₂ with_sender (sender-header sender q) (
        ap₂ decode_body (header-dcs sender q) (
          ap (join_with b'\n') (body_lines-data (split_onto b'\n' [] body) data_lines)
          ∙ join-split_onto b'\n' [] body))
      ∙ unfold with_sender decode_body in refl
