-- ===== src/Admin/Bytes.antt =====
-- service/src/admin/session.rs: the comparison of tokens in constant time.
use Prim.Native.Nat.{bit_xor, bit_or}
use green_relay.Prelude.{
  ℕ, ◌<◌, ◌≡◌, ◌∙◌, refl, sym, ap, Bool, true, false, not, ◌&&◌, List, [], ◌∷◌, ◌==◌, if◌then◌else◌,
  length, All, arith, ltb, Bool-cases, inl, inr,
}
use green_relay.Text.{text_eq}
use green_relay.Text.Equality.{text_eq_sound}
use green_relay.Prelude.Tables.{every_below, every_below_sound}

-- the loop over both slices at once
unfoldable pub diff_onto : ℕ → List ℕ → List ℕ → ℕ
diff_onto diff (x ∷ a) (y ∷ b) = diff_onto (bit_or diff (bit_xor x y)) a b
diff_onto diff _ _ = diff

unfoldable pub constant_time_eq : List ℕ → List ℕ → Bool
unfolding diff_onto
constant_time_eq a b = if not (length a == length b) then false else diff_onto 0 a b == 0

abbrev agree : Bool → Bool → Bool
agree a b = if a then b else not b

xor_table :
    (x y : ℕ)
    → x < 256
    → y < 256
    → (ltb (bit_xor x y) 256 && agree (bit_xor x y == 0) (x == y)) ≡ true
unfolding every_below
xor_table x y hx hy =
    every_below_sound 256 (λ y. ltb (bit_xor x y) 256 && agree (bit_xor x y == 0) (x == y)) y
      (every_below_sound 256
        (λ x. every_below 256 (λ y. ltb (bit_xor x y) 256 && agree (bit_xor x y == 0) (x == y))) x
        refl hx)
      hy

or_table :
    (d e : ℕ)
    → d < 256
    → e < 256
    → (ltb (bit_or d e) 256 && agree (bit_or d e == 0) (d == 0 && e == 0)) ≡ true
unfolding every_below
or_table d e hd he =
    every_below_sound 256 (λ e. ltb (bit_or d e) 256 && agree (bit_or d e == 0) (d == 0 && e == 0))
      e
      (every_below_sound 256
        (λ d.
          every_below 256 (λ e. ltb (bit_or d e) 256 && agree (bit_or d e == 0) (d == 0 && e == 0)))
        d refl hd)
      he

agree-equal : (a b : Bool) → agree a b ≡ true → a ≡ b
agree-equal a b h = ground (arith, h)

xor_equal : (x y : ℕ) → x < 256 → y < 256 → ((bit_xor x y == 0) ≡ (x == y)) × (bit_xor x y < 256)
xor_equal x y hx hy = ground (arith, xor_table x y hx hy)

or_equal :
    (d e : ℕ) → d < 256 → e < 256 → ((bit_or d e == 0) ≡ (d == 0 && e == 0)) × (bit_or d e < 256)
or_equal d e hd he = ground (arith, or_table d e hd he)

abbrev pub IsByte : ℕ → Type 0
IsByte b = b < 256

diff_onto_lem :
    (d : ℕ) (a b : List ℕ)
    → IsByte d
    → All IsByte a
    → All IsByte b
    → length a ≡ length b
    → (diff_onto d a b == 0) ≡ (d == 0 && text_eq a b)
unfolding diff_onto
diff_onto_lem d [] [] hd ha hb l = ground arith
diff_onto_lem d [] (y ∷ b) hd ha hb l = absurd (omega arith)
diff_onto_lem d (x ∷ a) [] hd ha hb l = absurd (omega arith)
diff_onto_lem d (x ∷ a) (y ∷ b) hd ha hb l =
    let x_or_y = xor_equal x y ha.0 hb.0 in
    let next = or_equal d (bit_xor x y) hd x_or_y.1 in
    diff_onto_lem (bit_or d (bit_xor x y)) a b next.1 ha.1 hb.1 (omega (arith, l))
    ∙ rw (next.0, x_or_y.0) ground arith

-- On bytes the comparison in constant time is equality.
pub constant_time_eq-text_eq :
    (a b : List ℕ) → All IsByte a → All IsByte b → constant_time_eq a b ≡ text_eq a b
unfolding constant_time_eq
constant_time_eq-text_eq a b ha hb = elim (Bool-cases (length a == length b)) [
  | inl same ↦ rw same (diff_onto_lem 0 a b (omega arith) ha hb (ground (arith, same)))
  | inr differ ↦ rw differ (sym (ground (arith, text_eq-length a b, differ)))
]
  where
    text_eq-length : (a b : List ℕ) → text_eq a b ≡ true → length a ≡ length b
    text_eq-length a b h = ap {B = ℕ} length (text_eq_sound a b h)
