-- ===== src/Sms/Segment.antt =====
-- service/src/sms.rs: splitting a body into the parts of a concatenated message.
pub mod Greedy
pub mod Fast
pub mod Optimal
pub mod Laws
use green_relay.Prelude.{
  ℕ, zero, suc, ◌+◌, ◌-◌, ◌*◌, ◌/◌, ◌%◌, ◌^◌, Bool, List, [], ◌∷◌, ◌++◌, Option, none, some, Result,
  ok, err, ltb, leb, if◌then◌else◌, length, min, saturating_add,
}
use green_relay.Text.{Text, len, len_utf8, len_utf16}
use green_relay.Text.Slice.{slice_or_default, tail_or_default}
use green_relay.Sms.Alphabet.{
  SmsEncoding, gsm7, ucs2, simple_ascii_gsm7_len, message_encoding, septets_or_one,
}

abbrev pub single_part_max : ℕ
single_part_max = 160

abbrev pub multi_part_max : ℕ
multi_part_max = 153

abbrev pub ucs2_single_max : ℕ
ucs2_single_max = 70

abbrev pub ucs2_multi_max : ℕ
ucs2_multi_max = 67

abbrev pub max_parts : ℕ
max_parts = 10

pub record Segment : Type 0 where
  pub seq : ℕ
  pub text : Text

pub data SegmentError : Type 0 where
  too_many_parts : ℕ → SegmentError

abbrev pub Segmented : Type 0
Segmented = Result (List Segment) SegmentError

-- `segments.push(Segment { seq: segments.len().saturating_add(1) as u8, text })`
abbrev pub push_segment : List Segment → Text → List Segment
push_segment segments t =
    segments ++ (record { seq = saturating_add (length segments) 1 % 2 ^ 8; text = t } ∷ [])

-- the `while start < len` loop
pub simple_parts : ℕ → Text → ℕ → ℕ → List Segment → List Segment
simple_parts zero body count start segments = segments
simple_parts (suc fuel) body count start segments =
    let end = min (saturating_add start multi_part_max) count in
    let rest =
      simple_parts fuel body count end (push_segment segments (slice_or_default body start end)) in
    if ltb start count then rest else segments

-- Each round takes a byte at least, so `count` rounds are enough.
unfoldable pub segment_simple_ascii_gsm7 : Text → ℕ → Segmented
segment_simple_ascii_gsm7 body count =
    if leb count single_part_max
    then ok (record { seq = 1; text = body } ∷ [])
    else let required = (count + (multi_part_max - 1)) / multi_part_max in
      if ltb max_parts required
      then err (too_many_parts required)
      else ok (simple_parts count body count 0 [])

-- the variables of the loop in `segment_by`
pub record Progress : Type 0 where
  pub segments : List Segment
  pub seg_start : ℕ
  pub current_len : ℕ

abbrev pub sum_of : (ℕ → ℕ) → Text → ℕ
sum_of cost [] = 0
sum_of cost (c ∷ s) = cost c + sum_of cost s

module _ (cost : ℕ → ℕ) (body : Text) (multi_max : ℕ) where
  -- one round of the loop, at the character `c` and its byte offset
  pub step_char : ℕ → ℕ → Progress → Progress
  step_char idx c p =
      let cut =
        (if ltb multi_max (saturating_add p.current_len (cost c))
          then record {
            segments = push_segment p.segments (slice_or_default body p.seg_start idx);
            seg_start = idx;
            current_len = 0;
          }
          else p) in
      record cut { current_len = saturating_add cut.current_len (cost c) }

  -- `for (idx, c) in body.char_indices()`
  pub scan_chars : ℕ → Text → Progress → Progress
  scan_chars idx [] p = p
  scan_chars idx (c ∷ s) p = scan_chars (idx + len_utf8 c) s (step_char idx c p)

  pub all_parts : List Segment
  all_parts =
      let p = scan_chars 0 body (record { segments = []; seg_start = 0; current_len = 0 }) in
      push_segment p.segments (tail_or_default body p.seg_start)

-- A text has at most `isize::MAX` bytes, so the sum of the costs does not wrap.
unfoldable pub segment_by : Text → (ℕ → ℕ) → ℕ → ℕ → Segmented
unfolding step_char scan_chars all_parts
segment_by body cost single_max multi_max =
    if leb (sum_of cost body) single_max
    then ok (record { seq = 1; text = body } ∷ [])
    else let segments = all_parts cost body multi_max in
      if ltb max_parts (length segments)
      then err (too_many_parts (length segments))
      else ok segments

unfoldable pub segment_encoded : SmsEncoding → Text → Segmented
segment_encoded gsm7 body = segment_by body septets_or_one single_part_max multi_part_max
segment_encoded ucs2 body = segment_by body len_utf16 ucs2_single_max ucs2_multi_max

unfoldable pub segment_message : Text → Segmented
unfolding segment_encoded
segment_message body = elim (simple_ascii_gsm7_len body) [
  | some count ↦ segment_simple_ascii_gsm7 body count
  | none ↦ segment_encoded (message_encoding body) body
]
