-- ===== src/HashMap.antt =====
-- `HashMap<String, V>` of Rust's standard library, as a list of entries, with the operations that
-- the trackers and the session store use. No order of the entries is relied on.
use green_relay.Prelude.{
  suc, ◌≤◌, ◌≡◌, refl, ◌∙◌, Bool, true, false, List, [], ◌∷◌, Option, none, some, if◌then◌else◌,
  length, arith, Bool-cases, inl, inr,
}
use green_relay.Text.{Text, text_eq}
use green_relay.Text.Equality.{text_eq-other, text_eq-differ}

abbrev pub HashMap {ℓ} : Type ℓ → Type ℓ
HashMap V = List (Text × V)

module _ {ℓ} {V : Type ℓ} where
  unfoldable pub get : HashMap V → Text → Option V
  get [] k = none
  get ((j, v) ∷ m) k = if text_eq j k then some v else get m k

  unfoldable pub insert : Text → V → HashMap V → HashMap V
  insert k v [] = (k, v) ∷ []
  insert k v ((j, w) ∷ m) = if text_eq j k then (k, v) ∷ m else (j, w) ∷ insert k v m

  unfoldable pub remove : Text → HashMap V → HashMap V
  remove k [] = []
  remove k ((j, w) ∷ m) = if text_eq j k then remove k m else (j, w) ∷ remove k m

  -- whether `get` finds something
  abbrev pub contains_key : HashMap V → Text → Bool
  contains_key [] k = false
  contains_key ((j, v) ∷ m) k = if text_eq j k then true else contains_key m k

  pub get-insert :
      (m : HashMap V) (k : Text) (v : V) (i : Text)
      → get (insert k v m) i ≡ (if text_eq k i then some v else get m i)
  unfolding get insert
  get-insert [] k v i = refl
  get-insert ((j, w) ∷ m) k v i = elim (Bool-cases (text_eq j k)) [
    | inl e ↦ rw e (rw (text_eq-other j k i e) (ground arith))
    | inr n ↦ rw n (elim (Bool-cases (text_eq j i)) [
      | inl e ↦ rw (e, text_eq-differ j i k e n) refl
      | inr n2 ↦ rw n2 (get-insert m k v i)
    ])
  ]

  pub get-remove :
      (m : HashMap V) (k i : Text) → get (remove k m) i ≡ (if text_eq k i then none else get m i)
  unfolding get remove
  get-remove [] k i = ground arith
  get-remove ((j, w) ∷ m) k i = elim (Bool-cases (text_eq j k)) [
    | inl e ↦ rw e (get-remove m k i ∙ rw (text_eq-other j k i e) (ground arith))
    | inr n ↦ rw n (elim (Bool-cases (text_eq j i)) [
      | inl e ↦ rw (e, text_eq-differ j i k e n) refl
      | inr n2 ↦ rw n2 (get-remove m k i)
    ])
  ]

  pub length-insert :
      (m : HashMap V) (k : Text) (v : V)
      → length (insert k v m) ≡ (if contains_key m k then length m else suc (length m))
  unfolding insert
  length-insert [] k v = refl
  length-insert ((j, w) ∷ m) k v = ground (arith, length-insert m k v)

  pub length-remove_le : (m : HashMap V) (k : Text) → length (remove k m) ≤ length m
  unfolding remove
  length-remove_le [] k = omega arith
  length-remove_le ((j, w) ∷ m) k = ground (arith, length-remove_le m k)
