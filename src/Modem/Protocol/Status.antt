-- ===== src/Modem/Protocol/Status.antt =====
-- service/src/modem/protocol.rs: the responses to the status queries.
use green_relay.Prelude.{
  ℕ, ◌*◌, ◌/◌, ◌≤◌, ◌≡◌, Bool, false, ◌||◌, List, [], ◌∷◌, Option, none, some, ltb, ◌==◌,
  if◌then◌else◌, get_elem?, u32_max, min, arith,
}
use green_relay.Text.{Text, codes, trim, strip_prefix, text_eq}
use green_relay.Text.Decimal.{parse_uint}
use green_relay.Text.Split.{split, trim_matches}
use green_relay.Health.{SimStatus, ready, not_ready, unknown}
use green_relay.Modem.Protocol.Inbound.{split_quoted_csv}

-- `lines.iter().find_map(|l| l.trim().strip_prefix(label))`
unfoldable pub find_labelled : Text → List Text → Option Text
unfolding strip_prefix trim
find_labelled label [] = none
find_labelled label (l ∷ ls) = elim (strip_prefix label (trim l)) [
  | some rest ↦ some rest
  | none ↦ find_labelled label ls
]

sim_status_of : Option Text → SimStatus
sim_status_of none = unknown
sim_status_of (some rest) = if text_eq (trim rest) (codes "READY") then ready else not_ready

unfoldable pub parse_cpin : List Text → SimStatus
unfolding sim_status_of find_labelled
parse_cpin lines = sim_status_of (find_labelled (codes "+CPIN:") lines)

is_registered : Option Text → Bool
unfolding trim_matches trim
is_registered none = false
is_registered (some stat) =
    let s = trim_matches b'"' (trim stat) in text_eq s (codes "1") || text_eq s (codes "5")

registered_of : Option Text → Bool
unfolding is_registered split
registered_of none = false
registered_of (some rest) = is_registered (get_elem? (split b',' rest) 1)

unfoldable pub parse_creg_registered : List Text → Bool
unfolding registered_of find_labelled
parse_creg_registered lines = registered_of (find_labelled (codes "+CREG:") lines)

-- `u8::try_from(rssi.saturating_mul(100) / 31).ok()`
percent_of : Option ℕ → Option ℕ
percent_of none = none
percent_of (some rssi) =
    if rssi == 99 || ltb 31 rssi
    then none
    else let scaled = min (rssi * 100) u32_max / 31 in if ltb 255 scaled then none else some scaled

-- `rest.split(',').next()`, which always is there
abbrev first_or_nil : List Text → Text
first_or_nil [] = []
first_or_nil (t ∷ _) = t

rssi_of : Option Text → Option ℕ
unfolding split parse_uint trim
rssi_of none = none
rssi_of (some rest) = parse_uint u32_max (trim (first_or_nil (split b',' rest)))

unfoldable pub parse_csq_percent : List Text → Option ℕ
unfolding rssi_of percent_of find_labelled
parse_csq_percent lines = percent_of (rssi_of (find_labelled (codes "+CSQ:") lines))

name_or_none : Text → Option Text
name_or_none [] = none
name_or_none (c ∷ s) = some (c ∷ s)

operator_field : Option Text → Option Text
unfolding name_or_none trim_matches trim
operator_field none = none
operator_field (some f) = name_or_none (trim_matches b'"' (trim f))

operator_of : Option Text → Option Text
unfolding operator_field split_quoted_csv trim
operator_of none = none
operator_of (some rest) = operator_field (get_elem? (split_quoted_csv (trim rest)) 2)

unfoldable pub parse_cops_operator : List Text → Option Text
unfolding operator_of find_labelled
parse_cops_operator lines = operator_of (find_labelled (codes "+COPS:") lines)

percent_of-le : (r : Option ℕ) (p : ℕ) → percent_of r ≡ some p → p ≤ 100
unfolding percent_of
percent_of-le none p h = absurd (cc)
percent_of-le (some rssi) p h = ground arith

-- A signal strength is a percentage, whatever the modem answers.
pub parse_csq_percent-le : (lines : List Text) (p : ℕ) → parse_csq_percent lines ≡ some p → p ≤ 100
unfolding parse_csq_percent
parse_csq_percent-le lines p h = percent_of-le (rssi_of (find_labelled (codes "+CSQ:") lines)) p h
