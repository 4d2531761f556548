-- ===== src/Sms/Segment/Laws.antt =====
-- What a split body is: complete, in order, numbered from 1, within the capacities, at most ten
-- parts, and refused only where ten parts cannot hold it.
use mathlib.Core.List.{append-nil}
use green_relay.Prelude.{
  ℕ, suc, ◌+◌, ◌^◌, ◌≤◌, ◌<◌, ◌≡◌, ◌≢◌, refl, sym, ap, ◌∙◌, true, false, List, [], ◌∷◌, ◌++◌, inl,
  inr, arith, ltb, leb, ◌==◌, if◌then◌else◌, length, All, all, Bool-cases, ok, err,
}
use green_relay.Text.{Text, len, len_utf16, as_bytes}
use green_relay.Sms.Alphabet.{
  SmsEncoding, gsm7, ucs2, is_simple, septets_or_one, septets_le, simple_ascii_gsm7_len,
  message_encoding,
}
use green_relay.Sms.Segment.{
  Segment, sum_of, too_many_parts, segment_by, segment_encoded, segment_simple_ascii_gsm7,
  segment_message, all_parts,
}
use green_relay.Sms.Segment.Greedy.{
  greedy, join, number, join-greedy, greedy-ne-nil, greedy-fits, all_parts-greedy,
}
use green_relay.Sms.Segment.Fast.{
  IsUnit, all-as_bytes-IsUnit, is_gsm7-IsUnit, segment_simple-segment_by, length-number,
}
use green_relay.Sms.Segment.Optimal.{greedy-optimal}

-- the texts of the parts, one after the other
abbrev pub joined : List Segment → Text
joined [] = []
joined (g ∷ gs) = g.text ++ joined gs

-- The sequence numbers count up from `n`.
abbrev pub IsNumbered : ℕ → List Segment → Type 0
IsNumbered n [] = Unit
IsNumbered n (g ∷ gs) = (g.seq ≡ n) × IsNumbered (suc n) gs

-- The capacity of each part: a message of one part has more room than a part of several.
abbrev pub capacity : ℕ → ℕ → List Segment → ℕ
capacity single multi segments = if length segments == 1 then single else multi

pub record IsSplit (cost : ℕ → ℕ) (single multi : ℕ) (body : Text) (segments : List Segment)
    : Type 0 where
  pub complete : joined segments ≡ body
  pub numbered : IsNumbered 1 segments
  pub some_part : 1 ≤ length segments
  pub at_most_ten : length segments ≤ 10
  pub fits : All (λ (g : Segment). sum_of cost g.text ≤ capacity single multi segments) segments

joined-number : (n : ℕ) (ts : List Text) → joined (number n ts) ≡ join ts
joined-number n [] = refl
joined-number n (t ∷ ts) = ap (λ r. t ++ r) (joined-number (suc n) ts)

number-IsNumbered :
    (n : ℕ) (ts : List Text) → n + length ts ≤ 255 → IsNumbered (suc n) (number n ts)
number-IsNumbered n [] h = tt
number-IsNumbered n (t ∷ ts) h = (omega arith, number-IsNumbered (suc n) ts (omega arith))

number-All :
    (cost : ℕ → ℕ) (n : ℕ) (cap bound : ℕ) (ts : List Text)
    → cap ≤ bound
    → All (λ t. sum_of cost t ≤ cap) ts
    → All (λ (g : Segment). sum_of cost g.text ≤ bound) (number n ts)
number-All cost n cap bound [] h k = tt
number-All cost n cap bound (t ∷ ts) h k = (omega arith, number-All cost (suc n) cap bound ts h k.1)

length-pos : (ts : List Text) → ts ≢ [] → 0 < length ts
length-pos [] h = absurd (h refl)
length-pos (t ∷ ts) h = omega arith

module _ (cost : ℕ → ℕ) (single multi : ℕ) (small : (c : ℕ) → cost c ≤ multi)
    (order : multi ≤ single) (bound : single ≤ 2 ^ 32) where
  abbrev cut : Text → List Text
  cut body = greedy cost multi [] 0 body

  parts-cut : (body : Text) → all_parts cost body multi ≡ number 0 (cut body)
  parts-cut body = all_parts-greedy cost multi small (omega arith) body

  cut-pos : (body : Text) → 0 < length (cut body)
  cut-pos body = length-pos (cut body) (greedy-ne-nil cost multi [] 0 body)

  one-IsSplit :
      (body : Text)
      → sum_of cost body ≤ single
      → IsSplit cost single multi body (record { seq = 1; text = body } ∷ [])
  one-IsSplit body h = record {
    complete = append-nil body;
    numbered = (refl, tt);
    some_part = omega arith;
    at_most_ten = omega arith;
    fits = (h, tt);
  }

  capacity-le : (segments : List Segment) → multi ≤ capacity single multi segments
  capacity-le segments = ground arith

  many-IsSplit :
      (body : Text) (segments : List Segment)
      → segments ≡ number 0 (cut body)
      → length segments ≤ 10
      → 1 ≤ length segments
      → IsSplit cost single multi body segments
  many-IsSplit body segments e h some_part = record {
    complete = ap joined e ∙ joined-number 0 (cut body) ∙ join-greedy cost multi [] 0 body;
    numbered =
        rw e
          (number-IsNumbered 0 (cut body) (omega (arith, ap length e, length-number 0 (cut body))));
    some_part = some_part;
    at_most_ten = h;
    fits = rw (← e) at (
        number-All cost 0 multi (capacity single multi segments) (cut body) (capacity-le segments)
          (greedy-fits cost multi small [] 0 body refl (omega arith)));
  }

  segment_by-IsSplit :
      (body : Text) {segments : List Segment}
      → segment_by body cost single multi ≡ ok segments
      → IsSplit cost single multi body segments
  unfolding segment_by
  segment_by-IsSplit body {segments} h = elim (Bool-cases (leb (sum_of cost body) single)) [
    | inl one ↦
        let e : record { seq = 1; text = body } ∷ [] ≡ segments = ground arith in
        rw e at (one-IsSplit body (ground arith))
    | inr more ↦ elim (Bool-cases (ltb 10 (length (all_parts cost body multi)))) [
      | inl over ↦ cc
      | inr fits ↦
          let e : all_parts cost body multi ≡ segments = ground arith in
          rw e at (
            many-IsSplit body (all_parts cost body multi) (parts-cut body) (ground arith)
              (omega (arith, ap length (parts-cut body), length-number 0 (cut body), cut-pos body)))
    ]
  ]

  segment_by-too_many :
      (body : Text) {n : ℕ}
      → segment_by body cost single multi ≡ err (too_many_parts n)
      → (10 < n) × (n ≡ length (cut body))
  unfolding segment_by
  segment_by-too_many body h =
      ground (arith, ap length (parts-cut body), length-number 0 (cut body))

abbrev pub cost_of : SmsEncoding → ℕ → ℕ
cost_of gsm7 = septets_or_one
cost_of ucs2 = len_utf16

abbrev pub single_of : SmsEncoding → ℕ
single_of gsm7 = 160
single_of ucs2 = 70

abbrev pub multi_of : SmsEncoding → ℕ
multi_of gsm7 = 153
multi_of ucs2 = 67

cost_of-le : (e : SmsEncoding) (c : ℕ) → cost_of e c ≤ multi_of e
cost_of-le gsm7 c = omega (arith, septets_le c)
cost_of-le ucs2 c = ground arith

multi-le-single : (e : SmsEncoding) → (multi_of e ≤ single_of e) × (single_of e ≤ 2 ^ 32)
multi-le-single gsm7 = omega arith
multi-le-single ucs2 = omega arith

short_cut :
    (body : Text)
    → all is_simple (as_bytes body) ≡ true
    → segment_message body ≡ segment_simple_ascii_gsm7 body (len body)
unfolding segment_message simple_ascii_gsm7_len
short_cut body h = rw (h, segment_message)

no_short_cut :
    (body : Text)
    → all is_simple (as_bytes body) ≡ false
    → segment_message body ≡ segment_encoded (message_encoding body) body
unfolding segment_message simple_ascii_gsm7_len
no_short_cut body h = rw (h, segment_message)

IsUnit-gsm7 : (body : Text) → All IsUnit body → message_encoding body ≡ gsm7
unfolding message_encoding
IsUnit-gsm7 body u = rw (is_gsm7-IsUnit body u)

encoded :
    (e : SmsEncoding) (body : Text)
    → segment_encoded e body ≡ segment_by body (cost_of e) (single_of e) (multi_of e)
unfolding segment_encoded
encoded gsm7 body = refl
encoded ucs2 body = refl

-- The short cut for simple ASCII bodies gives the same parts and the same error as the general
-- routine at the encoding chosen for the body.
pub segment_message-segment_by :
    (body : Text)
    → let e = message_encoding body in
      segment_message body ≡ segment_by body (cost_of e) (single_of e) (multi_of e)
segment_message-segment_by body = elim (Bool-cases (all is_simple (as_bytes body))) [
  | inl simple ↦
      let units = all-as_bytes-IsUnit body simple in
      rw (IsUnit-gsm7 body units) (short_cut body simple ∙ segment_simple-segment_by body units)
  | inr other ↦ no_short_cut body other ∙ encoded (message_encoding body) body
]

-- A body that is split is split completely: the parts, put together, are the body, they are
-- numbered from 1, there are one to ten of them, and each fits the capacity of a part in the
-- encoding chosen for the body.
pub segment_message-IsSplit :
    (body : Text) {segments : List Segment}
    → segment_message body ≡ ok segments
    → let e = message_encoding body in IsSplit (cost_of e) (single_of e) (multi_of e) body segments
segment_message-IsSplit body h =
    let e = message_encoding body in
    let (order, bound) = multi-le-single e in
    segment_by-IsSplit (cost_of e) (single_of e) (multi_of e) (cost_of-le e) order bound body
      (sym (segment_message-segment_by body) ∙ h)

-- A body is refused with n parts only if n is above ten and no way to cut it into texts that fit a
-- part needs fewer than n of them.
pub segment_message-too_many :
    (body : Text) {n : ℕ} (p : Text) (ps : List Text)
    → segment_message body ≡ err (too_many_parts n)
    → join (p ∷ ps) ≡ body
    → All
        (λ t. sum_of (cost_of (message_encoding body)) t ≤ multi_of (message_encoding body))
        (p ∷ ps)
    → (10 < n) × (n ≤ length (p ∷ ps))
segment_message-too_many body p ps h split fits =
    let e = message_encoding body in
    let (order, bound) = multi-le-single e in
    let (over, size) =
      segment_by-too_many (cost_of e) (single_of e) (multi_of e) (cost_of-le e) order bound body
        (sym (segment_message-segment_by body) ∙ h) in
    let best = greedy-optimal (cost_of e) (multi_of e) (cost_of-le e) p ps fits in
    (over, rw size (rw split at best))
