-- ===== src/Text/Slice.antt =====
-- `str::get(a..b)`: slices by byte offsets, which exist only on character boundaries.
use green_relay.Prelude.{
  ℕ, ◌+◌, ◌-◌, ◌≡◌, refl, [], ◌∷◌, ◌++◌, Option, none, some, arith, leb, ◌==◌, if◌then◌else◌,
}
use green_relay.Text.{Text, len_utf8, len}

-- `s.get(n..)`
pub skip_bytes : ℕ → Text → Option Text
skip_bytes n [] = if n == 0 then some [] else none
skip_bytes n (c ∷ s) =
    if n == 0
    then some (c ∷ s)
    else if leb (len_utf8 c) n
    then skip_bytes (n - len_utf8 c) s
    else none

-- `s.get(..n)`
pub take_bytes : ℕ → Text → Option Text
take_bytes n [] = if n == 0 then some [] else none
take_bytes n (c ∷ s) =
    if n == 0
    then some []
    else if leb (len_utf8 c) n
    then elim (take_bytes (n - len_utf8 c) s) [ none ↦ none | some t ↦ some (c ∷ t) ]
    else none

-- `s.get(a..b).unwrap_or_default()`
unfoldable pub slice_or_default : Text → ℕ → ℕ → Text
slice_or_default s a b =
    if leb a b
    then elim (skip_bytes a s) [
      | none ↦ []
      | some t ↦ elim (take_bytes (b - a) t) [ none ↦ [] | some r ↦ r ]
    ]
    else []

-- `s.get(a..).unwrap_or_default()`
unfoldable pub tail_or_default : Text → ℕ → Text
tail_or_default s a = elim (skip_bytes a s) [ none ↦ [] | some t ↦ t ]

pub len-append : (s t : Text) → len (s ++ t) ≡ len s + len t
len-append [] t = omega arith
len-append (c ∷ s) t = ground (arith, len-append s t)

pub skip_bytes-append : (s t : Text) → skip_bytes (len s) (s ++ t) ≡ some t
unfolding skip_bytes
skip_bytes-append [] [] = refl
skip_bytes-append [] (c ∷ t) = refl
skip_bytes-append (c ∷ s) t = ground (arith, skip_bytes-append s t)

pub take_bytes-append : (s t : Text) → take_bytes (len s) (s ++ t) ≡ some s
unfolding take_bytes
take_bytes-append [] [] = refl
take_bytes-append [] (c ∷ t) = refl
take_bytes-append (c ∷ s) t = ground (arith, take_bytes-append s t)

-- A slice between two character boundaries is the text between them.
pub slice-append : (r s t : Text) → slice_or_default (r ++ (s ++ t)) (len r) (len r + len s) ≡ s
unfolding slice_or_default
slice-append r s t = ground (arith, skip_bytes-append r (s ++ t), take_bytes-append s t)

pub tail-append : (r s : Text) → tail_or_default (r ++ s) (len r) ≡ s
unfolding tail_or_default
tail-append r s = ground (arith, skip_bytes-append r s)

pub slice_between :
    (r s t body : Text) (a b : ℕ)
    → body ≡ r ++ (s ++ t)
    → a ≡ len r
    → b ≡ a + len s
    → slice_or_default body a b ≡ s
slice_between r s t body a b e ea eb = rw (e, eb, ea) (slice-append r s t)
