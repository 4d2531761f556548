-- ===== src/Modem/Protocol/Line.antt =====
-- service/src/modem/protocol.rs: result codes, references and the outcome of a send.
use green_relay.Prelude.{
  ℕ, Bool, true, false, List, [], ◌∷◌, ◌++◌, Option, none, some, if◌then◌else◌, u16_max, u32_max,
}
use green_relay.Text.{Text, codes, text_eq, trim, trim_start, strip_prefix, starts_with}
use green_relay.Text.Decimal.{to_decimal, parse_uint}
use green_relay.Models.{MessageStatus, sent, failed}

pub data AtResult : Type 0 where
  ok error timeout : AtResult
  cms_error cme_error : ℕ → AtResult

unfoldable pub is_ok : AtResult → Bool
is_ok AtResult.ok = true
is_ok _ = false

unfoldable pub error_code : AtResult → Option ℕ
error_code (cms_error code) = some code
error_code (cme_error code) = some code
error_code _ = none

-- `Display`
unfoldable pub show_result : AtResult → Text
unfolding to_decimal
show_result AtResult.ok = codes "OK"
show_result error = codes "ERROR"
show_result (cms_error c) = codes "+CMS ERROR: " ++ to_decimal c
show_result (cme_error c) = codes "+CME ERROR: " ++ to_decimal c
show_result timeout = codes "TIMEOUT"

pub data LineClass : Type 0 where
  terminator : AtResult → LineClass
  non_terminating : LineClass

unfoldable pub code_or_error : (ℕ → AtResult) → Option ℕ → LineClass
code_or_error code none = terminator error
code_or_error code (some c) = terminator (code c)

unfoldable pub classify_cme : Option Text → LineClass
unfolding code_or_error
classify_cme none = non_terminating
classify_cme (some rest) = code_or_error cme_error (parse_uint u16_max (trim rest))

unfoldable pub classify_cms : Option Text → LineClass → LineClass
unfolding code_or_error
classify_cms none otherwise = otherwise
classify_cms (some rest) otherwise = code_or_error cms_error (parse_uint u16_max (trim rest))

unfoldable pub classify_trimmed : Text → LineClass
unfolding classify_cms classify_cme strip_prefix
classify_trimmed trimmed =
    if text_eq trimmed (codes "OK")
    then terminator AtResult.ok
    else if text_eq trimmed (codes "ERROR")
    then terminator error
    else classify_cms (strip_prefix (codes "+CMS ERROR:") trimmed)
        (classify_cme (strip_prefix (codes "+CME ERROR:") trimmed))

unfoldable pub classify_line : Text → LineClass
unfolding classify_trimmed trim parse_uint
classify_line line = classify_trimmed (trim line)

abbrev pub sms_submit : ℕ
sms_submit = 0x1A

abbrev pub sms_abort : ℕ
sms_abort = 0x1B

pub data ModemMode : Type 0 where
  command awaiting_prompt text_entry : ModemMode

unfoldable pub is_prompt : Text → Bool
unfolding trim_start starts_with
is_prompt fragment = starts_with (codes ">") (trim_start fragment)

unfoldable pub format_cmgs_response : ℕ → Text
unfolding to_decimal
format_cmgs_response reference = codes "+CMGS: " ++ to_decimal reference

unfoldable pub reference_of : Option Text → Option ℕ
reference_of none = none
reference_of (some rest) = parse_uint u32_max (trim rest)

unfoldable pub parse_cmgs_reference : Text → Option ℕ
unfolding reference_of trim strip_prefix parse_uint
parse_cmgs_reference line = reference_of (strip_prefix (codes "+CMGS:") (trim line))

pub record SendOutcome : Type 0 where
  pub status : MessageStatus
  pub reference : Option ℕ
  pub error_code : Option ℕ

abbrev pub sent_outcome : ℕ → SendOutcome
sent_outcome r = record { status = sent; reference = some r; error_code = none }

abbrev pub failed_outcome : Option ℕ → SendOutcome
failed_outcome code = record { status = failed; reference = none; error_code = code }

-- what a terminator makes of the reference read so far
unfoldable pub close_outcome : AtResult → Option ℕ → SendOutcome
close_outcome AtResult.ok (some r) = sent_outcome r
close_outcome AtResult.ok none = failed_outcome none
close_outcome (cms_error code) _ = failed_outcome (some code)
close_outcome (cme_error code) _ = failed_outcome (some code)
close_outcome error _ = failed_outcome none
close_outcome timeout _ = failed_outcome none

-- the loop of `parse_send_outcome`, with the reference read so far
unfoldable pub scan_outcome : Option ℕ → List Text → SendOutcome
unfolding close_outcome
scan_outcome reference [] = failed_outcome none
scan_outcome reference (line ∷ rest) = elim (parse_cmgs_reference line) [
  | some r ↦ scan_outcome (some r) rest
  | none ↦ elim (classify_line line) [
    | terminator result ↦ close_outcome result reference
    | non_terminating ↦ scan_outcome reference rest
  ]
]

unfoldable pub parse_send_outcome : List Text → SendOutcome
unfolding scan_outcome parse_cmgs_reference classify_line
parse_send_outcome lines = scan_outcome none lines

-- A completed exchange: the command, its lines, and its result.
pub record AtExchange : Type 0 where
  pub command : Text
  pub lines : List Text
  pub result : AtResult
