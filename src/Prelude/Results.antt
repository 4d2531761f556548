-- ===== src/Prelude/Results.antt =====
-- Rust's `Result` with its bind, and the saturating additions.
use mathlib.Core.Path.{◌≡◌, refl, subst}
use mathlib.Core.Logic.{◌⊎◌, inl, inr}
use Prim.Native.Nat.{ℕ, ◌+◌, ◌-◌, ◌^◌, min}

pub data Result {ℓ} (A E : Type ℓ) : Type ℓ where
  ok : A → Result A E
  err : E → Result A E

abbrev pub usize_max : ℕ
usize_max = 2 ^ 64 - 1

abbrev pub u32_max : ℕ
u32_max = 2 ^ 32 - 1

abbrev pub u16_max : ℕ
u16_max = 2 ^ 16 - 1

-- `usize::saturating_add`, `u32::saturating_add`
abbrev pub saturating_add : ℕ → ℕ → ℕ
saturating_add a b = min (a + b) usize_max

abbrev pub saturating_add_u32 : ℕ → ℕ → ℕ
saturating_add_u32 a b = min (a + b) u32_max

-- What holds of a value that is returned, and what of an error.
pub data Within {A E : Type 0} (P : A → Type 0) (F : E → Type 0) (r : Result A E) : Type 0 where
  returned : (a : A) → r ≡ ok a → P a → Within P F r
  raised : (e : E) → r ≡ err e → F e → Within P F r

module _ {A E : Type 0} {P : A → Type 0} {F : E → Type 0} {r : Result A E} where
  pub Within-ok : (a : A) → Within P F r → r ≡ ok a → P a
  Within-ok a (returned b e p) h = subst P (cc) p
  Within-ok a (raised x e p) h = cc

  pub Within-err : (x : E) → Within P F r → r ≡ err x → F x
  Within-err x (returned b e p) h = cc
  Within-err x (raised y e p) h = subst F (cc) p

pub ok_or_err {ℓ} :
    {A E : Type ℓ} (r : Result A E) → ((a : A) × (r ≡ ok a)) ⊎ ((e : E) × (r ≡ err e))
ok_or_err (ok a) = inl (a, refl)
ok_or_err (err e) = inr (e, refl)
