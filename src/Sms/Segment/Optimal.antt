-- ===== src/Sms/Segment/Optimal.antt =====
-- No split into parts within the capacity has fewer parts than the greedy one.
use mathlib.Core.List.{append-nil, append_assoc}
use green_relay.Prelude.{
  ℕ, suc, ◌+◌, ◌≤◌, ◌≡◌, ap, ◌∙◌, true, false, List, [], ◌∷◌, ◌++◌, inl, inr, arith, ltb, length,
  All, Bool-cases,
}
use green_relay.Text.{Text}
use green_relay.Sms.Segment.{sum_of}
use green_relay.Sms.Segment.Greedy.{greedy, join}

module _ (cost : ℕ → ℕ) (cap : ℕ) (small : (c : ℕ) → cost c ≤ cap) where
  abbrev parts : ℕ → Text → Text → ℕ
  parts used part s = length (greedy cost cap part used s)

  -- Starting a part with more in it costs at most one part, and never saves one.
  parts_mono :
      (s part part' : Text) (used used' : ℕ)
      → used ≤ used'
      → (parts used part s ≤ parts used' part' s) × (parts used' part' s ≤ suc (parts used part s))
  unfolding greedy
  parts_mono [] part part' used used' h = (omega arith, omega arith)
  parts_mono (c ∷ s) part part' used used' h = elim (Bool-cases (ltb cap (used + cost c))) [
    | inl over ↦
        let over' : ltb cap (used' + cost c) ≡ true = ground arith in
        rw (over, over') (omega arith, omega arith)
    | inr fits ↦ elim (Bool-cases (ltb cap (used' + cost c))) [
      | inl over' ↦
          let ih = parts_mono s (c ∷ []) (part ++ c ∷ []) (cost c) (used + cost c) (omega arith) in
          rw (fits, over') (omega (arith, ih.1), omega (arith, ih.0))
      | inr fits' ↦
          rw (fits, fits')
            (parts_mono s (part ++ c ∷ []) (part' ++ c ∷ []) (used + cost c) (used' + cost c)
              (omega arith))
    ]
  ]

  fill :
      (part : Text) (used : ℕ) (p s : Text) (end : ℕ)
      → end ≡ used + sum_of cost p
      → end ≤ cap
      → greedy cost cap part used (p ++ s) ≡ greedy cost cap (part ++ p) end s
  unfolding greedy
  fill part used [] s end e h = let same : end ≡ used = omega arith in rw (append-nil, same)
  fill part used (c ∷ p) s end e h =
      let room : ltb cap (used + cost c) ≡ false = ground arith in
      rw room (
        fill (part ++ c ∷ []) (used + cost c) p s end (omega arith) h
        ∙ ap (λ t. greedy cost cap t end s) (append_assoc part (c ∷ []) p))

  pub greedy-optimal :
      (p : Text) (ps : List Text)
      → All (λ t. sum_of cost t ≤ cap) (p ∷ ps)
      → length (greedy cost cap [] 0 (join (p ∷ ps))) ≤ suc (length ps)
  unfolding greedy
  greedy-optimal p [] h =
      omega (arith, ap length (fill [] 0 p [] (sum_of cost p) (omega arith) h.0))
  greedy-optimal p (q ∷ ps) h = omega (
    arith,
    ap length (fill [] 0 p (join (q ∷ ps)) (sum_of cost p) (omega arith) h.0),
    parts_mono (join (q ∷ ps)) [] p 0 (sum_of cost p) (omega arith),
    greedy-optimal q ps h.1,
  )
