-- ===== src/Modem/Protocol/Inbound.antt =====
-- service/src/modem/protocol.rs: `+CMGR` responses and their comma-separated fields.
pub mod Fields
pub mod RoundTrip
use Prim.Native.Nat.{bit_and}
use green_relay.Prelude.{
  ℕ, Bool, true, false, not, ◌&&◌, List, [], ◌∷◌, ◌++◌, Option, none, some, ◌==◌, if◌then◌else◌,
  get_elem?, u16_max, u32_max,
}
use green_relay.Text.{Text, codes, trim, trim_start, starts_with, strip_prefix}
use green_relay.Text.Decimal.{parse_uint}
use green_relay.Text.Split.{lines, split, last_or_nil, join_with, trim_matches}
use green_relay.Sms.Ucs2.{ucs2_hex_decode}
use green_relay.Modem.Protocol.Line.{LineClass, terminator, non_terminating, classify_line}

-- the loop of `split_quoted_csv`: the field read so far, and whether it is inside quotation marks
unfoldable pub csv_onto : Text → Bool → Text → List Text
csv_onto current in_quotes [] = current ∷ []
csv_onto current in_quotes (c ∷ s) =
    let quote = csv_onto (current ++ c ∷ []) (not in_quotes) s in
    let comma = current ∷ csv_onto [] in_quotes s in
    let other = csv_onto (current ++ c ∷ []) in_quotes s in
    if c == b'"' then quote else if c == b',' && not in_quotes then comma else other

unfoldable pub split_quoted_csv : Text → List Text
unfolding csv_onto
split_quoted_csv s = csv_onto [] false s

-- A parsed inbound message.
pub record ParsedInbound : Type 0 where
  pub sender : Text
  pub body : Text

unfoldable pub format_cmgr_response : Text → Text → Text
format_cmgr_response sender body =
    codes "+CMGR: \"REC UNREAD\",\""
    ++ (sender ++ (codes "\",,\"24/01/02,03:04:05+00\"\r\n" ++ (body ++ codes "\r\nOK")))

unquote : Option Text → Option Text
unquote none = none
unquote (some f) = some (trim_matches b'"' (trim f))

-- the field of the given number, without the quotation marks round it
unquoted_field : ℕ → Text → Option Text
unfolding split_quoted_csv unquote
unquoted_field n rest = unquote (get_elem? (split_quoted_csv (trim rest)) n)

unfoldable pub parse_cmgr_sender : Text → Option Text
unfolding unquoted_field strip_prefix trim_start
parse_cmgr_sender header = elim (strip_prefix (codes "+CMGR:") (trim_start header)) [
  | none ↦ none
  | some rest ↦ unquoted_field 1 rest
]

-- `dcs & 0x0C == 0x08`
dcs_is_ucs2 : Option ℕ → Bool
dcs_is_ucs2 none = false
dcs_is_ucs2 (some dcs) = bit_and dcs 0x0C == 0x08

field_is_ucs2 : Option Text → Bool
unfolding dcs_is_ucs2
field_is_ucs2 none = false
field_is_ucs2 (some f) = dcs_is_ucs2 (parse_uint u16_max f)

unfoldable pub cmgr_dcs_is_ucs2 : Text → Bool
unfolding unquoted_field field_is_ucs2 strip_prefix trim_start
cmgr_dcs_is_ucs2 header = elim (strip_prefix (codes "+CMGR:") (trim_start header)) [
  | none ↦ false
  | some rest ↦ field_is_ucs2 (unquoted_field 7 rest)
]

-- the lines before the first terminator
unfoldable pub body_lines : List Text → List Text
body_lines [] = []
body_lines (l ∷ ls) = elim (classify_line l) [
  | terminator _ ↦ []
  | non_terminating ↦ l ∷ body_lines ls
]

unfoldable pub decode_body : Bool → Text → Text
unfolding ucs2_hex_decode
decode_body false raw_body = raw_body
decode_body true raw_body = elim (ucs2_hex_decode (trim raw_body)) [ none ↦ raw_body | some s ↦ s ]

with_sender : Option Text → Text → Option ParsedInbound
with_sender none body = none
with_sender (some sender) body = some (record { sender = sender; body = body })

-- what is read from the header on
unfoldable pub parse_from : Text → List Text → Option ParsedInbound
unfolding parse_cmgr_sender cmgr_dcs_is_ucs2 body_lines decode_body join_with with_sender
parse_from header rest =
    with_sender (parse_cmgr_sender header)
      (decode_body (cmgr_dcs_is_ucs2 header) (join_with b'\n' (body_lines rest)))

-- `lines.find(|l| l.trim_start().starts_with("+CMGR:"))`
unfoldable pub find_header : List Text → Option ParsedInbound
unfolding parse_from starts_with trim_start
find_header [] = none
find_header (l ∷ ls) =
    if starts_with (codes "+CMGR:") (trim_start l) then parse_from l ls else find_header ls

unfoldable pub parse_cmgr : Text → Option ParsedInbound
unfolding find_header lines
parse_cmgr response = find_header (lines response)

unfoldable pub parse_cmti_index : Text → Option ℕ
unfolding trim strip_prefix split parse_uint
parse_cmti_index line = elim (strip_prefix (codes "+CMTI:") (trim line)) [
  | none ↦ none
  | some rest ↦ parse_uint u32_max (trim (last_or_nil (split b',' rest)))
]
