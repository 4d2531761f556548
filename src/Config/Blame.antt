-- ===== src/Config/Blame.antt =====
-- service/src/config.rs: when `from_map` fails, and what its error names.
use green_relay.Prelude.{
  ℕ, ◌≡◌, refl, Bool, true, false, Option, none, some, ◌⊎◌, inl, inr, Bool-cases, Option-cases,
  Result, Within, returned, raised,
}
use green_relay.Text.{Text, trim}
use green_relay.Text.Case.{member}
use green_relay.HashMap.{get}
use green_relay.Config.{
  ConfigError, missing_key, invalid_value, file_read, ◌>>=◌, Settings, is_empty, require,
  optional_string, read_or, out_of_range, ensure,
}
use green_relay.Config.Keys.{known_keys}

module _ {A B E : Type 0} where
  pub >>=-Within :
      {P : B → Type 0} {F : E → Type 0} {Q : A → Type 0} (m : Result A E) (f : A → Result B E)
      → Within Q F m
      → ((a : A) → Q a → Within P F (f a))
      → Within P F (m >>= f)
  unfolding ◌>>=◌
  >>=-Within {P} {F} m f (returned a e q) k = rw e (k a q)
  >>=-Within {P} {F} m f (raised x e p) k = raised x (rw e refl) p

-- The key has a value, and it is not blank.
pub record IsGiven (settings : Settings) (k raw : Text) : Type 0 where
  pub found : get settings k ≡ some raw
  pub not_blank : is_empty (trim raw) ≡ false

-- An error that the map is to blame for: a key that has no value or a blank one, or one with a
-- value, which the error shows, with or without the blanks round it.
abbrev pub IsBlamed : Settings → ConfigError → Type 0
IsBlamed settings (missing_key k) =
    (optional_string settings k ≡ none) × (member k known_keys ≡ true)
IsBlamed settings (invalid_value k v reason) =
    (raw : Text) × IsGiven settings k raw
    × ((v ≡ raw) ⊎ (v ≡ trim raw))
    × (member k known_keys ≡ true)
IsBlamed settings (file_read path reason) = ⊥

-- What `optional_string` finds.
pub optional_string-cases :
    (settings : Settings) (k : Text)
    → (optional_string settings k ≡ none)
      ⊎ ((raw : Text) × IsGiven settings k raw × (optional_string settings k ≡ some (trim raw)))
unfolding optional_string
optional_string-cases settings k = elim (Option-cases (get settings k)) [
  | inl e ↦ inl (rw e refl)
  | inr (raw, e) ↦ elim (Bool-cases (is_empty (trim raw))) [
    | inl b ↦ inl (rw e (rw b refl))
    | inr b ↦ inr (raw, record { found = e; not_blank = b }, rw e (rw b refl))
  ]
]

module _ (settings : Settings) (k : Text) (known : member k known_keys ≡ true) where
  pub require-Within : Within (λ v. IsGiven settings k v) (IsBlamed settings) (require settings k)
  unfolding require optional_string
  require-Within = elim (Option-cases (get settings k)) [
    | inl e ↦ raised (missing_key k) (rw e refl) (rw e refl, known)
    | inr (raw, e) ↦ elim (Bool-cases (is_empty (trim raw))) [
      | inl b ↦ raised (missing_key k) (rw e (rw b refl)) (rw e (rw b refl), known)
      | inr b ↦ returned raw (rw e (rw b refl)) (record { found = e; not_blank = b })
    ]
  ]

  -- A value is the default, or the key is set.
  abbrev pub IsRead : {A : Type 0} → A → A → Type 0
  IsRead default a = (a ≡ default) ⊎ ((raw : Text) × IsGiven settings k raw)

  pub read_or-Within :
      {A : Type 0} (read : Text → Option A) (reason : Text) (default : A)
      → Within
          (IsRead default)
          (IsBlamed settings)
          (read_or read k reason default (optional_string settings k))
  read_or-Within read reason default = elim (optional_string-cases settings k) [
    | inl e ↦ rw e (returned default refl (inl refl))
    | inr (raw, s, e) ↦ rw e (elim (Option-cases (read (trim raw))) [
      | inl n ↦ raised (invalid_value k (trim raw) reason) (rw n refl) (raw, s, inr refl, known)
      | inr (a, n) ↦ returned a (rw n refl) (inr (raw, s))
    ])
  ]

  -- A default that is in range is never reported.
  pub ensure-Within :
      (test : ℕ → Bool) (reason : Text) (default n : ℕ)
      → test default ≡ true
      → IsRead default n
      → Within
          (λ _. test n ≡ true)
          (IsBlamed settings)
          (ensure (test n) (out_of_range settings k reason))
  unfolding out_of_range
  ensure-Within test reason default n fits (inl e) =
      returned tt (rw (e, fits) refl) (rw (e, fits) refl)
  ensure-Within test reason default n fits (inr (raw, s)) = elim (Bool-cases (test n)) [
    | inl y ↦ returned tt (rw y refl) y
    | inr y ↦ raised (invalid_value k raw reason) (rw (y, s.found) refl) (raw, s, inl refl, known)
  ]
