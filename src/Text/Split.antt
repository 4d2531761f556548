-- ===== src/Text/Split.antt =====
-- Splitting and joining: `lines`, `split`, `rsplit`, `join`, `trim_matches`.
use mathlib.Core.List.{
  append-nil, append_assoc, reverse, reverse-append, reverse-cons, reverse-reverse,
}
use green_relay.Prelude.{
  ℕ, Option, none, some, ◌≡◌, ◌≢◌, refl, sym, ap, ◌∙◌, List, [], ◌∷◌, ◌++◌, ◌==◌, if◌then◌else◌,
  count, count-append, arith,
}
use green_relay.Text.{Text, codes}

-- A line loses a carriage return before its line feed.
unfoldable pub strip_cr : Text → Text
strip_cr [] = []
strip_cr (c ∷ []) = if c == b'\r' then [] else c ∷ []
strip_cr (c ∷ (d ∷ s)) = c ∷ strip_cr (d ∷ s)

last_line : Text → List Text
last_line [] = []
last_line cur = cur ∷ []

-- the lines of `cur ++ s`, where `cur` has no line feed
unfoldable pub lines_onto : Text → Text → List Text
unfolding strip_cr last_line
lines_onto cur [] = last_line cur
lines_onto cur (c ∷ s) =
    let feed = strip_cr cur ∷ lines_onto [] s in
    let more = lines_onto (cur ++ c ∷ []) s in if c == b'\n' then feed else more

-- `str::lines`
unfoldable pub lines : Text → List Text
unfolding lines_onto
lines s = lines_onto [] s

-- the fields of `cur ++ s`, where `cur` has no separator
unfoldable pub split_onto : ℕ → Text → Text → List Text
split_onto sep cur [] = cur ∷ []
split_onto sep cur (c ∷ s) =
    let next = cur ∷ split_onto sep [] s in
    let more = split_onto sep (cur ++ c ∷ []) s in if c == sep then next else more

-- `s.split(sep)`
unfoldable pub split : ℕ → Text → List Text
unfolding split_onto
split sep s = split_onto sep [] s

-- `s.rsplit(sep).next()`, which always is there
abbrev pub last_or_nil : List Text → Text
last_or_nil [] = []
last_or_nil (t ∷ []) = t
last_or_nil (t ∷ (u ∷ ts)) = last_or_nil (u ∷ ts)

-- `fields.join(sep)`
unfoldable pub join_with : ℕ → List Text → Text
join_with sep [] = []
join_with sep (t ∷ []) = t
join_with sep (t ∷ (u ∷ ts)) = t ++ sep ∷ join_with sep (u ∷ ts)

abbrev trim_start_matches : ℕ → Text → Text
trim_start_matches q [] = []
trim_start_matches q (c ∷ s) = if c == q then trim_start_matches q s else c ∷ s

-- `s.trim_matches(q)`
unfoldable pub trim_matches : ℕ → Text → Text
trim_matches q s = reverse (trim_start_matches q (reverse (trim_start_matches q s)))

pub split_onto-ne-nil : (sep : ℕ) (cur s : Text) → split_onto sep cur s ≢ []
unfolding split_onto
split_onto-ne-nil sep cur [] = cc
split_onto-ne-nil sep cur (c ∷ s) = ground (arith, split_onto-ne-nil sep (cur ++ c ∷ []) s)

pub join_with-cons :
    (sep : ℕ) (t : Text) (ts : List Text)
    → ts ≢ []
    → join_with sep (t ∷ ts) ≡ t ++ sep ∷ join_with sep ts
unfolding join_with
join_with-cons sep t [] h = absurd (h refl)
join_with-cons sep t (u ∷ ts) h = refl

pub join-split_onto : (sep : ℕ) (cur s : Text) → join_with sep (split_onto sep cur s) ≡ cur ++ s
unfolding split_onto
join-split_onto sep cur [] = unfold join_with in sym (append-nil cur)
join-split_onto sep cur (c ∷ s) = ground (
  arith,
  join_with-cons sep cur (split_onto sep [] s) (split_onto-ne-nil sep [] s),
  join-split_onto sep [] s,
  join-split_onto sep (cur ++ c ∷ []) s,
  append_assoc cur (c ∷ []) s,
)

pub strip_cr-concat : (s : Text) → strip_cr (s ++ b'\r' ∷ []) ≡ s
unfolding strip_cr
strip_cr-concat [] = refl
strip_cr-concat (c ∷ []) = refl
strip_cr-concat (c ∷ (d ∷ s)) = ap (λ t. c ∷ t) (strip_cr-concat (d ∷ s))

pub strip_cr_none : (s : Text) → count b'\r' s ≡ 0 → strip_cr s ≡ s
unfolding strip_cr
strip_cr_none [] h = refl
strip_cr_none (c ∷ []) h = ground arith
strip_cr_none (c ∷ (d ∷ s)) h = ap (λ t. c ∷ t) (strip_cr_none (d ∷ s) (ground arith))

-- The first line is what stands before the first line feed.
pub lines_onto-feed :
    (cur h s : Text)
    → count b'\n' h ≡ 0
    → lines_onto cur (h ++ b'\n' ∷ s) ≡ strip_cr (cur ++ h) ∷ lines_onto [] s
unfolding lines_onto
lines_onto-feed cur [] s e = ap (λ t. strip_cr t ∷ lines_onto [] s) (sym (append-nil cur))
lines_onto-feed cur (c ∷ h) s e =
    ground (arith, lines_onto-feed (cur ++ c ∷ []) h s, append_assoc cur (c ∷ []) h)

-- With no carriage return in the text, its lines are its fields between line feeds.
pub lines_onto-split :
    (cur s : Text)
    → count b'\r' cur ≡ 0
    → count b'\r' s ≡ 0
    → lines_onto cur (s ++ codes "\r\nOK") ≡ split_onto b'\n' cur s ++ codes "OK" ∷ []
unfolding lines_onto split_onto
lines_onto-split cur [] h k = ap (λ t. t ∷ codes "OK" ∷ []) (strip_cr-concat cur)
lines_onto-split cur (c ∷ s) h k = ground (
  arith,
  strip_cr_none cur h,
  lines_onto-split [] s,
  lines_onto-split (cur ++ c ∷ []) s,
  count-append b'\r' cur (c ∷ []),
)

trim_start_matches_none : (q : ℕ) (s : Text) → count q s ≡ 0 → trim_start_matches q s ≡ s
trim_start_matches_none q [] h = refl
trim_start_matches_none q (c ∷ s) h = ground arith

count-reverse : (q : ℕ) (s : Text) → count q (reverse s) ≡ count q s
count-reverse q [] = refl
count-reverse q (c ∷ s) =
    rw reverse-cons (ground (arith, count-append q (reverse s) (c ∷ []), count-reverse q s))

trim_reversed :
    (q : ℕ) (s : Text) → count q s ≡ 0 → reverse (trim_start_matches q (reverse (s ++ q ∷ []))) ≡ s
trim_reversed q s h =
    ap (λ t. reverse (trim_start_matches q t)) (reverse-append s (q ∷ []))
    ∙ ap reverse (quote_first q (reverse s) (count-reverse q s ∙ h))
    ∙ reverse-reverse s
  where
    quote_first : (q : ℕ) (r : Text) → count q r ≡ 0 → trim_start_matches q (q ∷ r) ≡ r
    quote_first q r k = ground (arith, trim_start_matches_none q r k)

-- The quotation marks round a text that has none are removed.
pub trim_matches_quoted :
    (q : ℕ) (s : Text) → count q s ≡ 0 → trim_matches q (q ∷ (s ++ q ∷ [])) ≡ s
unfolding trim_matches
trim_matches_quoted q [] h = ground arith
trim_matches_quoted q (c ∷ s) h =
    let kept : trim_start_matches q (q ∷ (c ∷ (s ++ q ∷ []))) ≡ c ∷ (s ++ q ∷ []) = ground arith in
    ap (λ t. reverse (trim_start_matches q (reverse t))) kept ∙ trim_reversed q (c ∷ s) h

-- Nothing is removed from a text without the mark.
pub trim_matches_none : (q : ℕ) (s : Text) → count q s ≡ 0 → trim_matches q s ≡ s
unfolding trim_matches
trim_matches_none q s h =
    rw
      (trim_start_matches_none q s h, trim_start_matches_none q (reverse s) (count-reverse q s ∙ h))
      (reverse-reverse s)

-- The first field is what stands before the first separator.
pub split_onto-field :
    (sep : ℕ) (cur h s : Text)
    → count sep h ≡ 0
    → split_onto sep cur (h ++ sep ∷ s) ≡ (cur ++ h) ∷ split_onto sep [] s
unfolding split_onto
split_onto-field sep cur [] s e = ground (arith, append-nil cur)
split_onto-field sep cur (c ∷ h) s e =
    ground (arith, split_onto-field sep (cur ++ c ∷ []) h s, append_assoc cur (c ∷ []) h)

-- `s.split_once(sep)`, on `cur ++ s`, where `cur` has no separator
unfoldable pub split_once_onto : ℕ → Text → Text → Option (Text × Text)
split_once_onto sep cur [] = none
split_once_onto sep cur (c ∷ s) =
    let more = split_once_onto sep (cur ++ c ∷ []) s in if c == sep then some (cur, s) else more

unfoldable pub split_once : ℕ → Text → Option (Text × Text)
unfolding split_once_onto
split_once sep s = split_once_onto sep [] s
