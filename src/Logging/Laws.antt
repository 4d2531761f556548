-- ===== src/Logging/Laws.antt =====
-- service/src/logging.rs: what a log record shows, and what redaction hides.
use green_relay.Prelude.{
  ◌≡◌, refl, ap, sym, ◌∙◌, true, false, List, [], ◌∷◌, some, if◌then◌else◌, Bool-cases, inl, inr,
  All,
}
use green_relay.Text.{Text, codes, text_eq}
use green_relay.Text.Case.{member}
use green_relay.Text.Order.{text_lt}
use green_relay.Text.Equality.{text_eq_sound, text_eq_sym}
use green_relay.Db.Rows.{map_some}
use green_relay.Logging.{as_str}
use green_relay.Logging.Record.{
  LogRecord, redacted, reserved_keys, is_credential_field, put, field, put_all, with_field,
  to_json_value, redact_credentials,
}

module _ {V : Type 0} where
  field-put :
      (k i : Text) (v : V) (m : List (Text × V))
      → field (put k v m) i ≡ (if text_eq k i then some v else field m i)
  unfolding put field
  field-put k i v [] = refl
  field-put k i v ((j, w) ∷ m) = elim (Bool-cases (text_eq j k)) [
    | inl e ↦
        rw (e, text_eq_sound j k e)
          (elim (Bool-cases (text_eq k i)) [ inl y ↦ rw y refl | inr n ↦ rw n refl ])
    | inr e ↦ rw e (elim (Bool-cases (text_lt k j)) [
      | inl y ↦ rw y refl
      | inr n ↦ rw n (elim (Bool-cases (text_eq j i)) [
        | inl p ↦
            let other : text_eq k i ≡ false =
              ap (λ x. text_eq k x) (sym (text_eq_sound j i p)) ∙ (text_eq_sym k j ∙ e) in
            rw (p, other) refl
        | inr p ↦ rw p (field-put k i v m)
      ])
    ])
  ]

  -- No key of a record's fields is one that the record writes itself.
  abbrev pub Reserves : Text × V → Type 0
  Reserves f = member f.0 reserved_keys ≡ false

  put-Reserves :
      (k : Text) (v : V) (m : List (Text × V))
      → member k reserved_keys ≡ false
      → All Reserves m
      → All Reserves (put k v m)
  unfolding put
  put-Reserves k v [] e h = (e, tt)
  put-Reserves k v ((j, w) ∷ m) e h = elim (Bool-cases (text_eq j k)) [
    | inl y ↦ rw y (e, h.1)
    | inr n ↦ rw n (elim (Bool-cases (text_lt k j)) [
      | inl y ↦ rw y (e, h)
      | inr p ↦ rw p (h.0, put-Reserves k v m e h.1)
    ])
  ]

  field-put_all :
      (string : Text → V) (i : Text) (fs m : List (Text × V))
      → member i reserved_keys ≡ true
      → All Reserves fs
      → field (put_all string fs m) i ≡ field m i
  unfolding put_all
  field-put_all string i [] m e h = refl
  field-put_all string i ((k, v) ∷ fs) m e h =
      field-put_all string i fs (put k v m) e h.1 ∙ (field-put k i v m ∙ other)
    where
      other : (if text_eq k i then some v else field m i) ≡ field m i
      other = elim (Bool-cases (text_eq k i)) [
        | inl y ↦ cc (sym (ap (λ x. member x reserved_keys) (text_eq_sound k i y) ∙ e) ∙ h.0)
        | inr n ↦ rw n refl
      ]

  module _ (string : Text → V) where
    with_field-Reserves :
        (r : LogRecord V) (k : Text) (v : V)
        → All Reserves r.fields
        → All Reserves (with_field string r k v).fields
    unfolding with_field
    with_field-Reserves r k v h = elim (Bool-cases (member k reserved_keys)) [
      | inl e ↦ rw e h
      | inr e ↦ rw e (put-Reserves k v r.fields e h)
    ]

    to_json_value-own :
        (r : LogRecord V)
        → All Reserves r.fields
        → (field (to_json_value string r) (codes "timestamp") ≡ some (string r.timestamp))
          × (field (to_json_value string r) (codes "severity") ≡ some (string (as_str r.severity)))
          × (field (to_json_value string r) (codes "message") ≡ some (string r.message))
    unfolding to_json_value reserved_keys member put field text_lt
    to_json_value-own r h = (
      field-put_all string (codes "timestamp") r.fields _ refl h,
      field-put_all string (codes "severity") r.fields _ refl h,
      field-put_all string (codes "message") r.fields _ refl h,
    )

    -- Redaction replaces the value of every field whose name is that of a credential, in whatever
    -- case, and of no other.
    redact_credentials-field :
        (m : List (Text × V)) (k : Text)
        → field (redact_credentials string m) k ≡ (
            if is_credential_field k
            then map_some (λ v. string redacted) (field m k)
            else field m k)
    unfolding redact_credentials field
    redact_credentials-field [] k = elim (Bool-cases (is_credential_field k)) [
      | inl e ↦ rw e refl
      | inr e ↦ rw e refl
    ]
    redact_credentials-field ((j, w) ∷ m) k = elim (Bool-cases (text_eq j k)) [
      | inl e ↦
          rw (e, text_eq_sound j k e)
            (elim (Bool-cases (is_credential_field k)) [ inl y ↦ rw y refl | inr n ↦ rw n refl ])
      | inr e ↦ rw e (redact_credentials-field m k)
    ]
