-- ===== src/Sms/Tests.antt =====
-- Examples for service/src/sms.rs.
use green_relay.Prelude.{
  ℕ, zero, suc, ◌≤◌, ◌<◌, ◌≡◌, ◌↔◌, refl, true, List, [], ◌∷◌, ◌++◌, some, ok, err, leb, length,
  All, leb→le,
}
use green_relay.Text.{Text, codes}
use green_relay.Sms.Validate.{validate_e164}
use green_relay.Sms.Validate.Laws.{IsE164, validate_e164_iff}
use green_relay.Sms.Alphabet.{SmsEncoding, message_encoding, simple_ascii_gsm7_len, septets_or_one}
use green_relay.Sms.Segment.{
  Segment, segment_message, segment_by, segment_simple_ascii_gsm7, too_many_parts, sum_of,
}
use green_relay.Sms.Segment.Greedy.{join}
use green_relay.Sms.Segment.Laws.{
  IsSplit, cost_of, single_of, multi_of, segment_message-IsSplit, segment_message-segment_by,
  segment_message-too_many,
}
use green_relay.Sms.Ucs2.{ucs2_hex_encode, ucs2_hex_decode}
use green_relay.Sms.Ucs2.RoundTrip.{decode-encode, IsScalar}

abbrev number : Text
number = codes "+15551234567"

-- "hi", an accent and a character outside the basic plane
abbrev greeting : Text
greeting = codes "hi é 😀"

abbrev greeting_parts : List Segment
greeting_parts = record { seq = 1; text = greeting } ∷ []

greeting-segments : segment_message greeting ≡ ok greeting_parts
unfolding segment_message segment_by simple_ascii_gsm7_len message_encoding
greeting-segments = refl

segment_message-IsSplit_example :
    IsSplit
      (cost_of (message_encoding greeting))
      (single_of (message_encoding greeting))
      (multi_of (message_encoding greeting))
      greeting
      greeting_parts
segment_message-IsSplit_example = segment_message-IsSplit greeting greeting-segments

segment_message-segment_by_example :
    segment_message greeting
    ≡ segment_by greeting
        (cost_of (message_encoding greeting))
        (single_of (message_encoding greeting))
        (multi_of (message_encoding greeting))
segment_message-segment_by_example = segment_message-segment_by greeting

abbrev times : ℕ → Text → Text
times zero s = []
times (suc n) s = s ++ times n s

-- eleven parts of 153 letters
abbrev part : Text
part = times 153 (codes "a")

abbrev eleven : List Text
eleven = part ∷ part ∷ part ∷ part ∷ part ∷ part ∷ part ∷ part ∷ part ∷ part ∷ part ∷ []

eleven-refused : segment_message (join eleven) ≡ err (too_many_parts 11)
unfolding segment_message segment_simple_ascii_gsm7 simple_ascii_gsm7_len
eleven-refused = refl

abbrev encoding : SmsEncoding
encoding = message_encoding (join eleven)

part-leb : leb (sum_of (cost_of encoding) part) (multi_of encoding) ≡ true
unfolding message_encoding septets_or_one
part-leb = refl

part-fits : sum_of (cost_of encoding) part ≤ multi_of encoding
part-fits = leb→le (sum_of (cost_of encoding) part) (multi_of encoding) part-leb

segment_message-too_many_example : (10 < 11) × (11 ≤ length eleven)
segment_message-too_many_example =
    segment_message-too_many (join eleven) part
      (part ∷ part ∷ part ∷ part ∷ part ∷ part ∷ part ∷ part ∷ part ∷ part ∷ []) eleven-refused refl
      (
        part-fits,
        (
          part-fits,
          (
            part-fits,
            (
              part-fits,
              (
                part-fits,
                (part-fits, (part-fits, (part-fits, (part-fits, (part-fits, (part-fits, tt)))))),
              ),
            ),
          ),
        ),
      )

validate_e164_iff_example : (validate_e164 number ≡ ok tt) ↔ IsE164 number
validate_e164_iff_example = validate_e164_iff number

greeting-IsScalar : All IsScalar greeting
greeting-IsScalar = (refl, (refl, (refl, (refl, (refl, (refl, tt))))))

decode-encode_example : ucs2_hex_decode (ucs2_hex_encode greeting) ≡ some greeting
decode-encode_example = decode-encode greeting greeting-IsScalar cc
