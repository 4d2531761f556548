-- ===== src/Sms/Segment/Greedy.antt =====
-- What `segment_by` computes, with no offsets: characters are packed into a part until one more
-- would exceed the capacity.
use mathlib.Core.List.{append_assoc, append-nil}
use green_relay.Prelude.{
  ℕ, suc, ◌+◌, ◌%◌, ◌^◌, ◌≤◌, ◌≡◌, ◌≢◌, refl, sym, ap, ◌∙◌, true, false, List, [], ◌∷◌, ◌++◌, inl,
  inr, arith, ltb, if◌then◌else◌, length, length-append, All, saturating_add, Bool-cases,
}
use green_relay.Text.{Text, len, len_utf8}
use green_relay.Text.Slice.{
  slice_or_default, tail_or_default, slice-append, tail-append, len-append,
}
use green_relay.Sms.Segment.{
  Segment, push_segment, sum_of, Progress, step_char, scan_chars, all_parts,
}

abbrev pub join : List Text → Text
join [] = []
join (t ∷ ts) = t ++ join ts

abbrev pub number : ℕ → List Text → List Segment
number n [] = []
number n (t ∷ ts) = record { seq = saturating_add n 1 % 2 ^ 8; text = t } ∷ number (suc n) ts

pub push-number :
    (segments : List Segment) (t : Text) (ts : List Text)
    → push_segment segments t ++ number (length (push_segment segments t)) ts
      ≡ segments ++ number (length segments) (t ∷ ts)
push-number segments t ts =
    let e : length (push_segment segments t) ≡ suc (length segments) = omega (
      arith,
      length-append segments (record { seq = 0; text = t } ∷ []),
      length-append {0} segments,
    ) in
    rw (e, append_assoc)

module _ (cost : ℕ → ℕ) (cap : ℕ) where
  unfoldable pub greedy : Text → ℕ → Text → List Text
  greedy part used [] = part ∷ []
  greedy part used (c ∷ s) =
      let closed = part ∷ greedy (c ∷ []) (cost c) s in
      let grown = greedy (part ++ c ∷ []) (used + cost c) s in
      if ltb cap (used + cost c) then closed else grown

  -- No character is lost, doubled or moved.
  pub join-greedy : (part : Text) (used : ℕ) (s : Text) → join (greedy part used s) ≡ part ++ s
  unfolding greedy
  join-greedy part used [] = refl
  join-greedy part used (c ∷ s) = elim (Bool-cases (ltb cap (used + cost c))) [
    | inl over ↦ rw over (ap (λ t. part ++ t) (join-greedy (c ∷ []) (cost c) s))
    | inr fits ↦
        rw fits (join-greedy (part ++ c ∷ []) (used + cost c) s ∙ append_assoc part (c ∷ []) s)
  ]

  pub greedy-ne-nil : (part : Text) (used : ℕ) (s : Text) → greedy part used s ≢ []
  unfolding greedy
  greedy-ne-nil part used [] = cc
  greedy-ne-nil part used (c ∷ s) = ground (arith, greedy-ne-nil (part ++ c ∷ []) (used + cost c) s)

  pub sum_of-append : (s t : Text) → sum_of cost (s ++ t) ≡ sum_of cost s + sum_of cost t
  sum_of-append [] t = omega arith
  sum_of-append (c ∷ s) t = omega (arith, sum_of-append s t)

  module _ (small : (c : ℕ) → cost c ≤ cap) where
    -- Every part fits.
    pub greedy-fits :
        (part : Text) (used : ℕ) (s : Text)
        → used ≡ sum_of cost part
        → used ≤ cap
        → All (λ t. sum_of cost t ≤ cap) (greedy part used s)
    unfolding greedy
    greedy-fits part used [] e h = (omega arith, tt)
    greedy-fits part used (c ∷ s) e h = elim (Bool-cases (ltb cap (used + cost c))) [
      | inl over ↦ rw over (omega arith, greedy-fits (c ∷ []) (cost c) s (omega arith) (small c))
      | inr fits ↦ rw fits (
          greedy-fits (part ++ c ∷ []) (used + cost c) s
            (omega (arith, sum_of-append part (c ∷ []))) (ground arith))
    ]

    module _ (cap32 : cap ≤ 2 ^ 32) (body : Text) where
      abbrev close : Progress → List Segment
      close p = push_segment p.segments (tail_or_default body p.seg_start)

      abbrev at : List Segment → ℕ → ℕ → Progress
      at segments start used = record { segments = segments; seg_start = start; current_len = used }

      step_over :
          (segments : List Segment) (start idx used c : ℕ) (part : Text)
          → used ≤ cap
          → ltb cap (used + cost c) ≡ true
          → slice_or_default body start idx ≡ part
          → step_char cost body cap idx c (at segments start used)
            ≡ at (push_segment segments part) idx (cost c)
      unfolding step_char
      step_over segments start idx used c part h over e =
          let sum : saturating_add used (cost c) ≡ used + cost c = omega (arith, small c) in
          let alone : saturating_add 0 (cost c) ≡ cost c = omega (arith, small c) in
          rw (sum, over) (rw (e, alone))

      step_fits :
          (segments : List Segment) (start idx used c : ℕ)
          → used ≤ cap
          → ltb cap (used + cost c) ≡ false
          → step_char cost body cap idx c (at segments start used)
            ≡ at segments start (used + cost c)
      unfolding step_char
      step_fits segments start idx used c h fits =
          let sum : saturating_add used (cost c) ≡ used + cost c = omega (arith, small c) in
          rw (sum, fits) (rw sum)

      -- The loop from the offset `idx`, with the part that begins at `start`.
      pub scan-greedy :
          (before part s : Text) (segments : List Segment) (start idx used : ℕ)
          → body ≡ before ++ (part ++ s)
          → start ≡ len before
          → idx ≡ len before + len part
          → used ≤ cap
          → close (scan_chars cost body cap idx s (at segments start used))
            ≡ segments ++ number (length segments) (greedy part used s)
      unfolding greedy scan_chars
      scan-greedy before part [] segments start idx used e es ei h =
          rw (e, es, append-nil) (rw (tail-append before part))
      scan-greedy before part (c ∷ s) segments start idx used e es ei h =
          elim (Bool-cases (ltb cap (used + cost c))) [
            | inl over ↦ rw over (
                ap (λ p. close (scan_chars cost body cap (idx + len_utf8 c) s p))
                  (step_over segments start idx used c part h over
                    (rw (e, es, ei) (slice-append before part (c ∷ s))))
                ∙ scan-greedy (before ++ part) (c ∷ []) s (push_segment segments part) idx
                    (idx + len_utf8 c) (cost c) (e ∙ sym (append_assoc before part (c ∷ s)))
                    (omega (arith, len-append before part)) (omega (arith, len-append before part))
                    (small c)
                ∙ push-number segments part (greedy (c ∷ []) (cost c) s))
            | inr fits ↦ rw fits (
                ap (λ p. close (scan_chars cost body cap (idx + len_utf8 c) s p))
                  (step_fits segments start idx used c h fits)
                ∙ scan-greedy before (part ++ c ∷ []) s segments start (idx + len_utf8 c)
                    (used + cost c) (e ∙ ap (λ t. before ++ t) (sym (append_assoc part (c ∷ []) s)))
                    es (omega (arith, len-append part (c ∷ []))) (ground arith))
          ]

      pub all_parts-greedy : all_parts cost body cap ≡ number 0 (greedy [] 0 body)
      unfolding all_parts
      all_parts-greedy = scan-greedy [] [] body [] 0 0 0 refl refl refl (omega arith)
