-- ===== src/Config/Precedence.antt =====
-- service/src/config.rs: which of the file and the environment wins.
use green_relay.Prelude.{
  ◌≡◌, refl, ◌∙◌, Bool, true, false, List, [], ◌∷◌, Option, none, some, arith, if◌then◌else◌,
  Bool-cases, inl, inr,
}
use mathlib.Core.Path.{subst}
use green_relay.Text.{Text, text_eq}
use green_relay.Text.Case.{member}
use green_relay.Text.Equality.{text_eq_sound, text_eq_refl, text_eq-other, text_eq_sym}
use green_relay.HashMap.{get, insert, contains_key, get-insert}
use green_relay.Config.{Settings}
use green_relay.Config.Keys.{known_keys}
use green_relay.Config.File.{merge_env_over_file, set_var, env_from, env_map}

-- Every key stands once.
abbrev pub IsUnique : Settings → Type 0
IsUnique [] = Unit {0}
IsUnique ((k, v) ∷ m) = (contains_key m k ≡ false) × IsUnique m

contains_key-insert :
    (m : Settings) (k v i : Text)
    → contains_key (insert k v m) i ≡ (if text_eq k i then true else contains_key m i)
unfolding insert
contains_key-insert [] k v i = refl
contains_key-insert ((j, w) ∷ m) k v i = elim (Bool-cases (text_eq j k)) [
  | inl e ↦ rw e (rw (text_eq-other j k i e) (ground arith))
  | inr n ↦ rw n (rw (contains_key-insert m k v i) (ground arith))
]

insert-IsUnique : (k v : Text) (m : Settings) → IsUnique m → IsUnique (insert k v m)
unfolding insert
insert-IsUnique k v [] u = (refl, tt)
insert-IsUnique k v ((j, w) ∷ m) u = elim (Bool-cases (text_eq j k)) [
  | inl e ↦ rw e (subst (λ i. contains_key m i ≡ false) (text_eq_sound j k e) u.0, u.1)
  | inr n ↦
      rw n (rw (contains_key-insert m k v j, text_eq_sym k j, n) u.0, insert-IsUnique k v m u.1)
]

set_var-IsUnique :
    (k : Text) (o : Option Text) (m : Settings) → IsUnique m → IsUnique (set_var k o m)
set_var-IsUnique k none m u = u
set_var-IsUnique k (some v) m u = insert-IsUnique k v m u

env_from-IsUnique :
    (var : Text → Option Text) (ks : List Text) (m : Settings)
    → IsUnique m
    → IsUnique (env_from var ks m)
unfolding env_from
env_from-IsUnique var [] m u = u
env_from-IsUnique var (k ∷ ks) m u =
    env_from-IsUnique var ks (set_var k (var k) m) (set_var-IsUnique k (var k) m u)

abbrev pub or_else : {A : Type 0} → Option A → Option A → Option A
or_else none b = b
or_else (some a) b = some a

get-none :
    (m : Settings) (j k : Text) → text_eq j k ≡ true → contains_key m j ≡ false → get m k ≡ none
unfolding get
get-none [] j k e h = refl
get-none ((i, v) ∷ m) j k e h = rw (← text_eq_sound j k e) (elim (Bool-cases (text_eq i j)) [
  | inl y ↦ cc (rw y at h)
  | inr n ↦ rw n (get-none m j j (text_eq_refl j) (rw n at h))
])

get-merge :
    (env file : Settings) (k : Text)
    → IsUnique env
    → get (merge_env_over_file file env) k ≡ or_else (get env k) (get file k)
unfolding merge_env_over_file get
get-merge [] file k u = refl
get-merge ((j, v) ∷ env) file k u = elim (Bool-cases (text_eq j k)) [
  | inl e ↦
      get-merge env (insert j v file) k u.1
      ∙ rw (get-none env j k e u.0, get-insert file j v k, e) refl
  | inr n ↦ get-merge env (insert j v file) k u.1 ∙ rw (get-insert file j v k, n) refl
]

abbrev pub known_var : (Text → Option Text) → List Text → Text → Option Text
known_var var ks k = if member k ks then var k else none

or_else-none : {A : Type 0} (o : Option A) → or_else o none ≡ o
or_else-none none = refl
or_else-none (some a) = refl

get-set_var :
    (k : Text) (o : Option Text) (m : Settings) (i : Text)
    → get (set_var k o m) i ≡ (if text_eq k i then or_else o (get m i) else get m i)
get-set_var k none m i = ground arith
get-set_var k (some v) m i = get-insert m k v i

twice :
    (b : Bool) (o : Option Text) (p : Option Text)
    → or_else (if b then o else none) (or_else o p) ≡ or_else o p
twice true none p = refl
twice true (some v) p = refl
twice false o p = refl

get-env_from :
    (var : Text → Option Text) (ks : List Text) (m : Settings) (k : Text)
    → get (env_from var ks m) k ≡ or_else (known_var var ks k) (get m k)
unfolding env_from member
get-env_from var [] m k = refl
get-env_from var (j ∷ ks) m k =
    get-env_from var ks (set_var j (var j) m) k
    ∙ rw (get-set_var j (var j) m k) (elim (Bool-cases (text_eq j k)) [
      | inl e ↦ rw (e, ← text_eq_sound j k e) (twice (member j ks) (var j) (get m j))
      | inr n ↦ rw n refl
    ])

-- The merged settings give a known key the value of its environment variable, if that is set, and
-- every other key, and one whose variable is not set, that of the file.
pub get-merged :
    (var : Text → Option Text) (file : Settings) (k : Text)
    → get (merge_env_over_file file (env_map var)) k
      ≡ or_else (known_var var known_keys k) (get file k)
unfolding env_map
get-merged var file k =
    get-merge (env_from var known_keys []) file k (env_from-IsUnique var known_keys [] tt)
    ∙ rw (get-env_from var known_keys [] k)
        (unfold get in rw (or_else-none (known_var var known_keys k)) refl)
