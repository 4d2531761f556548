-- ===== src/Text/Trim.antt =====
-- What `trim` leaves alone.
use mathlib.Core.List.{reverse, reverse-append, reverse-reverse, reverse-cons, append_assoc}
use green_relay.Prelude.{
  ℕ, ◌≡◌, refl, sym, ap, ◌∙◌, true, not, all, false, [], ◌∷◌, ◌++◌, All, All-append,
  All-append_right, ◌≢◌, arith,
}
use green_relay.Text.{Text, is_whitespace, trim_start, trim_end, trim}

abbrev pub IsInk : ℕ → Type 0
IsInk c = is_whitespace c ≡ false

-- A text with no white space.
abbrev pub IsSolid : Text → Type 0
IsSolid s = All IsInk s

pub IsSolid-all : (s : Text) → all (λ c. not (is_whitespace c)) s ≡ true → IsSolid s
IsSolid-all [] h = tt
IsSolid-all (c ∷ s) h = (ground arith, IsSolid-all s (ground arith))

reverse-IsSolid : (s : Text) → IsSolid s → IsSolid (reverse s)
reverse-IsSolid [] h = h
reverse-IsSolid (c ∷ s) h =
    rw reverse-cons (All-append IsInk (reverse s) (c ∷ []) (reverse-IsSolid s h.1) (h.0, tt))

pub trim_start-cons : (c : ℕ) (s : Text) → IsInk c → trim_start (c ∷ s) ≡ c ∷ s
unfolding trim_start
trim_start-cons c s h = ground arith

trim_start-IsSolid : (s : Text) → IsSolid s → trim_start s ≡ s
unfolding trim_start
trim_start-IsSolid [] h = refl
trim_start-IsSolid (c ∷ s) h = ground arith

-- White space before a character that is none stays.
pub trim_end-concat : (s : Text) (c : ℕ) → IsInk c → trim_end (s ++ c ∷ []) ≡ s ++ c ∷ []
unfolding trim_end
trim_end-concat s c h = rw (reverse-append s (c ∷ [])) (
    ap reverse (trim_start-cons c (reverse s) h)
    ∙ ap reverse (sym (reverse-append s (c ∷ [])))
    ∙ reverse-reverse (s ++ c ∷ []))

pub trim-IsSolid : (s : Text) → IsSolid s → trim s ≡ s
unfolding trim trim_end
trim-IsSolid s h =
    ap (λ t. reverse (trim_start (reverse t))) (trim_start-IsSolid s h)
    ∙ ap reverse (trim_start-IsSolid (reverse s) (reverse-IsSolid s h))
    ∙ reverse-reverse s

-- A text that begins and ends with ink is its own trim.
pub trim_inked :
    (c : ℕ) (s : Text) (d : ℕ) → IsInk c → IsInk d → trim (c ∷ (s ++ d ∷ [])) ≡ c ∷ (s ++ d ∷ [])
unfolding trim
trim_inked c s d hc hd = ap trim_end (trim_start-cons c _ hc) ∙ trim_end-concat (c ∷ s) d hd

record Ends (t : Text) : Type 0 where
  front : Text
  last : ℕ
  splits : t ≡ front ++ last ∷ []

ends : (c : ℕ) (s : Text) → Ends (c ∷ s)
ends c [] = record { front = []; last = c; splits = refl }
ends c (d ∷ s) =
    let e = ends d s in
    record { front = c ∷ e.front; last = e.last; splits = ap (λ t. c ∷ t) e.splits }

trim_end-IsSolid : (s t : Text) → IsSolid t → t ≢ [] → trim_end (s ++ t) ≡ s ++ t
trim_end-IsSolid s [] h ne = absurd (ne refl)
trim_end-IsSolid s (c ∷ t) h ne =
    let e = ends c t in
    let ink = All-append_right IsInk e.front (e.last ∷ []) (rw (← e.splits) h) in
    rw (e.splits, ← append_assoc) (trim_end-concat (s ++ e.front) e.last ink.0)

-- A text that begins with ink and ends with a solid text is its own trim.
pub trim-append :
    (c : ℕ) (s t : Text) → IsInk c → IsSolid t → t ≢ [] → trim (c ∷ (s ++ t)) ≡ c ∷ (s ++ t)
unfolding trim
trim-append c s t hc ht ne =
    ap trim_end (trim_start-cons c (s ++ t) hc) ∙ trim_end-IsSolid (c ∷ s) t ht ne

pub trim_space : (s : Text) → trim (b' ' ∷ s) ≡ trim s
unfolding trim trim_start is_whitespace
trim_space s = refl
