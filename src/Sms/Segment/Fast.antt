-- ===== src/Sms/Segment/Fast.antt =====
-- The loop for simple ASCII bodies cuts them as the general one does.
use mathlib.Core.List.{append-nil, append_assoc}
use green_relay.Prelude.{
  ℕ, zero, suc, ◌+◌, ◌/◌, ◌^◌, ◌≤◌, ◌<◌, ◌≡◌, refl, sym, ap, ◌∙◌, true, false, not, ◌&&◌, ◌||◌,
  List, [], ◌∷◌, ◌++◌, inl, inr, arith, ltb, leb, ◌==◌, lt→ltb, length, length-append, All,
  All-append_left, All-append_right, saturating_add, Bool-cases, min, take, drop, take-append-drop,
  length-take_le, all, ok,
}
use green_relay.Prelude.Tables.{every_below, every_below_sound}
use green_relay.Text.{Text, len, len_utf8, utf8_char, as_bytes, is_some}
use green_relay.Text.Slice.{slice_or_default, slice_between, len-append}
use green_relay.Sms.Alphabet.{is_simple, gsm7_septets, septets_or_one, septets_le}
use green_relay.Sms.Segment.{
  Segment, push_segment, sum_of, simple_parts, segment_simple_ascii_gsm7, segment_by, all_parts,
}
use green_relay.Sms.Segment.Greedy.{greedy, number, push-number, all_parts-greedy}

abbrev pub IsUnit : ℕ → Type 0
IsUnit c = (septets_or_one c ≡ 1) × (len_utf8 c ≡ 1) × (is_some (gsm7_septets c) ≡ true)

simple_table :
    every_below 128 (λ c. not (is_simple c) || (septets_or_one c == 1) && is_some (gsm7_septets c))
    ≡ true
unfolding every_below is_simple septets_or_one gsm7_septets
simple_table = refl

is_simple-lt : (c : ℕ) → is_simple c ≡ true → c < 128
unfolding is_simple
is_simple-lt c h = ground arith

is_simple-IsUnit : (c : ℕ) → is_simple c ≡ true → IsUnit c
is_simple-IsUnit c h =
    let small = is_simple-lt c h in
    let row =
      every_below_sound 128
        (λ c. not (is_simple c) || (septets_or_one c == 1) && is_some (gsm7_septets c)) c
        simple_table small in
    (ground arith, ground arith, ground arith)

is_simple-utf8 :
    (c : ℕ) (rest : List ℕ)
    → all is_simple (utf8_char c ++ rest) ≡ true
    → (is_simple c ≡ true) × (all is_simple rest ≡ true)
is_simple-utf8 c rest h = ground (
  arith,
  is_simple-lt (0xC0 + c / 0x40),
  is_simple-lt (0xE0 + c / 0x1000),
  is_simple-lt (0xF0 + c / 0x40000),
)

pub all-as_bytes-IsUnit : (s : Text) → all is_simple (as_bytes s) ≡ true → All IsUnit s
unfolding as_bytes
all-as_bytes-IsUnit [] h = tt
all-as_bytes-IsUnit (c ∷ s) h =
    let (here, rest) = is_simple-utf8 c (as_bytes s) h in
    (is_simple-IsUnit c here, all-as_bytes-IsUnit s rest)

pub len-IsUnit : (s : Text) → All IsUnit s → len s ≡ length s
len-IsUnit [] h = refl
len-IsUnit (c ∷ s) h = omega (arith, h.0.1, len-IsUnit s h.1)

abbrev pack : Text → ℕ → Text → List Text
pack = greedy septets_or_one 153

-- Characters that fit are added to the part.
fill :
    (part : Text) (used : ℕ) (u s : Text) (end : ℕ)
    → All IsUnit u
    → end ≡ used + length u
    → end ≤ 153
    → pack part used (u ++ s) ≡ pack (part ++ u) end s
unfolding greedy
fill part used [] s end h e b = let same : end ≡ used = omega arith in rw (append-nil, same)
fill part used (c ∷ u) s end h e b =
    let more : used + septets_or_one c ≡ used + 1 = omega (arith, h.0.0) in
    let room : ltb 153 (used + 1) ≡ false = ground arith in
    rw more (
      rw room (
        fill (part ++ c ∷ []) (used + 1) u s end h.1 (omega arith) b
        ∙ ap (λ p. pack p end s) (append_assoc part (c ∷ []) u)))

pack_short : (s : Text) → All IsUnit s → length s ≤ 153 → pack [] 0 s ≡ s ∷ []
unfolding greedy
pack_short s h b =
    ap (λ t. pack [] 0 t) (sym (append-nil s)) ∙ fill [] 0 s [] (length s) h (omega arith) b

-- A full part is closed, and the next character begins a new one.
pack_full :
    (u : Text) (c : ℕ) (v : Text)
    → All IsUnit u
    → IsUnit c
    → length u ≡ 153
    → pack [] 0 (u ++ c ∷ v) ≡ u ∷ pack [] 0 (c ∷ v)
unfolding greedy
pack_full u c v h hc e = fill [] 0 u (c ∷ v) 153 h (omega arith) (omega arith) ∙ rw (hc.0) refl

-- A text longer than a part: its first 153 characters, and the rest, which is not empty.
record IsLong (s : Text) : Type 0 where
  chunk : Text
  next : ℕ
  tail : Text
  splits : s ≡ chunk ++ next ∷ tail
  full : length chunk ≡ 153

cut_at : (s v : Text) → v ≡ drop 153 s → 153 < length s → IsLong s
cut_at s [] e h = absurd (
    omega (
      arith,
      ap length (take-append-drop 153 s),
      length-append (take 153 s) (drop 153 s),
      length-take_le 153 s (omega arith),
      ap {B = ℕ} length e,
    ))
cut_at s (c ∷ v) e h = record {
  chunk = take 153 s;
  next = c;
  tail = v;
  splits = sym (take-append-drop 153 s) ∙ ap (λ t. take 153 s ++ t) (sym e);
  full = length-take_le 153 s (omega arith);
}

pack-length_fuel :
    (fuel : ℕ) (s : Text)
    → length s ≤ fuel
    → 0 < length s
    → All IsUnit s
    → length (pack [] 0 s) ≡ (length s + 152) / 153
pack-length_fuel zero s f h u = absurd (omega arith)
pack-length_fuel (suc fuel) s f h u = elim (Bool-cases (leb (length s) 153)) [
  | inl short ↦ rw (pack_short s u (ground arith)) (ground arith)
  | inr long ↦
      let k = cut_at s (drop 153 s) refl (ground arith) in
      let u' : All IsUnit (k.chunk ++ k.next ∷ k.tail) = rw (← k.splits) u in
      let rest = All-append_right IsUnit k.chunk (k.next ∷ k.tail) u' in
      let total : length s ≡ 153 + suc (length k.tail) =
        omega (arith, ap length k.splits, length-append k.chunk (k.next ∷ k.tail), k.full) in
      let shape : pack [] 0 s ≡ k.chunk ∷ pack [] 0 (k.next ∷ k.tail) =
        ap (λ t. pack [] 0 t) k.splits
        ∙ pack_full k.chunk k.next k.tail (All-append_left IsUnit k.chunk (k.next ∷ k.tail) u')
            rest.0 k.full in
      omega (
        arith,
        ap length shape,
        pack-length_fuel fuel (k.next ∷ k.tail) (omega arith) (omega arith) rest,
        total,
      )
]

simple_parts_done :
    (fuel : ℕ) (body : Text) (count start : ℕ) (segments : List Segment)
    → ltb start count ≡ false
    → simple_parts fuel body count start segments ≡ segments
unfolding simple_parts
simple_parts_done zero body count start segments h = refl
simple_parts_done (suc fuel) body count start segments h = rw h

-- One round of the loop: the slice is `part`, and the loop goes on behind it.
simple_parts_round :
    (fuel : ℕ) (before part after body : Text) (count start end : ℕ) (segments : List Segment)
    → body ≡ before ++ (part ++ after)
    → start ≡ len before
    → end ≡ start + length part
    → All IsUnit part
    → ltb start count ≡ true
    → min (saturating_add start 153) count ≡ end
    → simple_parts (suc fuel) body count start segments
      ≡ simple_parts fuel body count end (push_segment segments part)
unfolding simple_parts
simple_parts_round fuel before part after body count start end segments e es ee u more cut =
    let slice : slice_or_default body start end ≡ part =
      slice_between before part after body start end e es (omega (arith, len-IsUnit part u)) in
    rw (more, cut, slice)

simple_parts-pack :
    (fuel : ℕ) (before s body : Text) (count start : ℕ) (segments : List Segment)
    → body ≡ before ++ s
    → start ≡ len before
    → count ≡ start + length s
    → count ≤ 2 ^ 32
    → length s ≤ fuel
    → 0 < length s
    → All IsUnit s
    → simple_parts fuel body count start segments
      ≡ segments ++ number (length segments) (pack [] 0 s)
simple_parts-pack zero before s body count start segments e es ec b f h u = absurd (omega arith)
simple_parts-pack (suc fuel) before s body count start segments e es ec b f h u =
    elim (Bool-cases (leb (length s) 153)) [
      | inl short ↦ rw (pack_short s u (ground arith)) (
          simple_parts_round fuel before s [] body count start count segments
            (e ∙ ap (λ t. before ++ t) (sym (append-nil s))) es ec u
            (lt→ltb start count (omega arith)) (ground arith)
          ∙ simple_parts_done fuel body count count (push_segment segments s) (ground arith))
      | inr long ↦
          let k = cut_at s (drop 153 s) refl (ground arith) in
          let u' : All IsUnit (k.chunk ++ k.next ∷ k.tail) = rw (← k.splits) u in
          let first = All-append_left IsUnit k.chunk (k.next ∷ k.tail) u' in
          let rest = All-append_right IsUnit k.chunk (k.next ∷ k.tail) u' in
          let total : length s ≡ 153 + suc (length k.tail) =
            omega (arith, ap length k.splits, length-append k.chunk (k.next ∷ k.tail), k.full) in
          let body' : body ≡ before ++ (k.chunk ++ k.next ∷ k.tail) =
            e ∙ ap (λ t. before ++ t) k.splits in
          simple_parts_round fuel before k.chunk (k.next ∷ k.tail) body count start (start + 153)
            segments body' es (omega (arith, k.full)) first (lt→ltb start count (omega arith))
            (omega arith)
          ∙ simple_parts-pack fuel (before ++ k.chunk) (k.next ∷ k.tail) body count (start + 153)
              (push_segment segments k.chunk)
              (body' ∙ sym (append_assoc before k.chunk (k.next ∷ k.tail)))
              (omega (arith, len-append before k.chunk, len-IsUnit k.chunk first, k.full))
              (omega arith) b (omega arith) (omega arith) rest
          ∙ push-number segments k.chunk (pack [] 0 (k.next ∷ k.tail))
          ∙ ap (λ ts. segments ++ number (length segments) ts)
              (sym (
                ap (λ t. pack [] 0 t) k.splits
                ∙ pack_full k.chunk k.next k.tail first rest.0 k.full))
    ]

pub length-number : (n : ℕ) (ts : List Text) → length (number n ts) ≡ length ts
length-number n [] = refl
length-number n (t ∷ ts) = ap suc (length-number (suc n) ts)

sum_of-IsUnit : (s : Text) → All IsUnit s → sum_of septets_or_one s ≡ length s
sum_of-IsUnit [] h = refl
sum_of-IsUnit (c ∷ s) h = omega (arith, h.0.0, sum_of-IsUnit s h.1)

pub is_gsm7-IsUnit : (s : Text) → All IsUnit s → all (λ c. is_some (gsm7_septets c)) s ≡ true
is_gsm7-IsUnit [] h = refl
is_gsm7-IsUnit (c ∷ s) h = ground (arith, is_gsm7-IsUnit s h.1)

pub gsm7_parts : (s : Text) → all_parts septets_or_one s 153 ≡ number 0 (pack [] 0 s)
gsm7_parts s = all_parts-greedy septets_or_one 153 small (omega arith) s
  where
    small : (c : ℕ) → septets_or_one c ≤ 153
    small c = omega (arith, septets_le c)

-- For a body of simple characters the short cut gives what the general routine gives.
pub segment_simple-segment_by :
    (s : Text)
    → All IsUnit s
    → segment_simple_ascii_gsm7 s (len s) ≡ segment_by s septets_or_one 160 153
unfolding segment_simple_ascii_gsm7 segment_by
segment_simple-segment_by s u =
    let size = len-IsUnit s u in
    let total = sum_of-IsUnit s u in
    rw (size, total)
      (elim (Bool-cases (leb (length s) 160)) [
        | inl one ↦ rw one
        | inr more ↦
            let long : 160 < length s = ground arith in
            let count : length (all_parts septets_or_one s 153) ≡ (length s + 152) / 153 =
              ap length (gsm7_parts s)
              ∙ length-number 0 (pack [] 0 s)
              ∙ pack-length_fuel (length s) s (omega arith) (omega arith) u in
            rw (more, count)
              (elim (Bool-cases (ltb 10 ((length s + 152) / 153))) [
                | inl over ↦ rw over
                | inr fits ↦
                    let small : (length s + 152) / 153 ≤ 10 = ground arith in
                    rw fits (
                      ap ok (
                        simple_parts-pack (length s) [] s s (length s) 0 [] refl refl (omega arith)
                          (omega arith) (omega arith) (omega arith) u
                        ∙ sym (gsm7_parts s)))
              ])
      ])
