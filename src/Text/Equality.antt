-- ===== src/Text/Equality.antt =====
-- `==` on texts decides their equality.
use green_relay.Prelude.{◌≡◌, refl, true, false, sym, ◌∙◌, [], ◌∷◌, arith, ap}
use green_relay.Text.{Text, text_eq}

pub text_eq_sound : (s t : Text) → text_eq s t ≡ true → s ≡ t
text_eq_sound [] [] h = refl
text_eq_sound [] (b ∷ t) h = cc
text_eq_sound (a ∷ s) [] h = cc
text_eq_sound (a ∷ s) (b ∷ t) h = ground (arith, text_eq_sound s t)

pub text_eq_refl : (s : Text) → text_eq s s ≡ true
text_eq_refl [] = refl
text_eq_refl (a ∷ s) = ground (arith, text_eq_refl s)

pub text_eq_sym : (s t : Text) → text_eq s t ≡ text_eq t s
text_eq_sym [] [] = refl
text_eq_sym [] (b ∷ t) = refl
text_eq_sym (a ∷ s) [] = refl
text_eq_sym (a ∷ s) (b ∷ t) = ground (arith, text_eq_sym s t)

-- An equal name may stand for the other in a comparison.
pub text_eq-other : (i j k : Text) → text_eq i j ≡ true → text_eq j k ≡ text_eq i k
text_eq-other i j k h = ap (λ t. text_eq t k) (sym (text_eq_sound i j h))

pub text_eq-differ : (j i k : Text) → text_eq j i ≡ true → text_eq j k ≡ false → text_eq k i ≡ false
text_eq-differ j i k h n = text_eq_sym k i ∙ text_eq-other j i k h ∙ n
