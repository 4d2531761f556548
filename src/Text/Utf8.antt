-- ===== src/Text/Utf8.antt =====
-- Lemmas on UTF-8: decoding the first character, and the units as bytes.
use mathlib.Core.Path.{ap₂}
use green_relay.Prelude.{
  ℕ, ◌+◌, ◌-◌, ◌*◌, ◌/◌, ◌<◌, ◌≡◌, ◌≢◌, refl, sym, ap, ◌∙◌, true, false, List, [], ◌∷◌, ◌++◌, ltb,
  if◌then◌else◌, All, All-append, Bool-cases, inl, inr, arith,
}
use green_relay.Text.{Text, is_scalar, utf8_char, as_bytes}

abbrev after_two : ℕ → List ℕ → ℕ × List ℕ
after_two a (b ∷ s) = ((a - 0xC0) * 0x40 + (b - 0x80), s)
after_two a _ = (0, [])

abbrev after_three : ℕ → List ℕ → ℕ × List ℕ
after_three a (b ∷ (c ∷ s)) = ((a - 0xE0) * 0x1000 + (b - 0x80) * 0x40 + (c - 0x80), s)
after_three a _ = (0, [])

abbrev after_four : ℕ → List ℕ → ℕ × List ℕ
after_four a (b ∷ (c ∷ (d ∷ s))) =
    ((a - 0xF0) * 0x40000 + (b - 0x80) * 0x1000 + (c - 0x80) * 0x40 + (d - 0x80), s)
after_four a _ = (0, [])

-- the first character and the rest
abbrev first_char : List ℕ → ℕ × List ℕ
first_char [] = (0, [])
first_char (a ∷ s) =
    if ltb a 0x80
    then (a, s)
    else if ltb a 0xE0
    then after_two a s
    else if ltb a 0xF0
    then after_three a s
    else after_four a s

first_char-utf8_char :
    (c : ℕ) (s : List ℕ) → is_scalar c ≡ true → first_char (utf8_char c ++ s) ≡ (c, s)
first_char-utf8_char c s h = elim (Bool-cases (ltb c 0x80)) [
  | inl one ↦ rw one (rw one refl)
  | inr more ↦ rw more (elim (Bool-cases (ltb c 0x800)) [
    | inl two ↦ rw two (
        let high : ltb (192 + c / 64) 128 ≡ false = ground arith in
        let low : ltb (192 + c / 64) 224 ≡ true = ground arith in
        rw (high, low) (ap (λ n. (n, s)) (omega arith)))
    | inr more ↦ rw more (elim (Bool-cases (ltb c 0x10000)) [
      | inl three ↦ rw three (
          let high : ltb (224 + c / 4096) 128 ≡ false = ground arith in
          let higher : ltb (224 + c / 4096) 224 ≡ false = ground arith in
          let low : ltb (224 + c / 4096) 240 ≡ true = ground arith in
          rw (high, higher, low) (ap (λ n. (n, s)) (omega arith)))
      | inr four ↦ rw four (
          let high : ltb (240 + c / 262144) 128 ≡ false = ground arith in
          let higher : ltb (240 + c / 262144) 224 ≡ false = ground arith in
          let highest : ltb (240 + c / 262144) 240 ≡ false = ground arith in
          rw (high, higher, highest) (ap (λ n. (n, s)) (omega arith)))
    ])
  ])
]

no_bytes : (c : ℕ) (s : List ℕ) → utf8_char c ++ s ≢ []
no_bytes c s = ground arith

pub as_bytes_injective :
    (s t : Text)
    → All (λ c. is_scalar c ≡ true) s
    → All (λ c. is_scalar c ≡ true) t
    → as_bytes s ≡ as_bytes t
    → s ≡ t
unfolding as_bytes
as_bytes_injective [] [] hs ht e = refl
as_bytes_injective [] (d ∷ t) hs ht e = absurd (no_bytes d (as_bytes t) (sym e))
as_bytes_injective (c ∷ s) [] hs ht e = absurd (no_bytes c (as_bytes s) e)
as_bytes_injective (c ∷ s) (d ∷ t) hs ht e =
    let both : Path (ℕ × List ℕ) (c, as_bytes s) (d, as_bytes t) =
      sym (first_char-utf8_char c (as_bytes s) hs.0)
      ∙ ap first_char e
      ∙ first_char-utf8_char d (as_bytes t) ht.0 in
    let tails : s ≡ t = as_bytes_injective s t hs.1 ht.1 (ap (λ p. p.1) both) in
    ap₂ (◌∷◌) (ap (λ p. p.0) both) tails

pub IsByte-as_bytes : (s : Text) → All (λ c. is_scalar c ≡ true) s → All (λ b. b < 256) (as_bytes s)
unfolding as_bytes
IsByte-as_bytes [] h = tt
IsByte-as_bytes (c ∷ s) h =
    All-append (λ b. b < 256) (utf8_char c) (as_bytes s) (bytes_of c h.0) (IsByte-as_bytes s h.1)
  where
    bytes_of : (c : ℕ) → is_scalar c ≡ true → All (λ b. b < 256) (utf8_char c)
    bytes_of c h = ground arith
