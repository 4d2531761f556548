-- ===== src/Admin/Session/Csrf.antt =====
-- service/src/admin/session.rs: which submitted tokens are accepted.
use green_relay.Prelude.{
  ℕ, ◌≡◌, ◌≢◌, ◌↔◌, ◌<◌, ◌+◌, ◌*◌, arith, [], ◌∷◌, Option-cases, refl, sym, ap, ◌∙◌, Bool, true,
  false, not, ◌&&◌, Option, none, some, All, Bool-cases, inl, inr,
}
use green_relay.Text.{Text, as_bytes, text_eq, is_scalar}
use green_relay.Text.Utf8.{as_bytes_injective, IsByte-as_bytes}
use green_relay.Text.Equality.{text_eq_sound, text_eq_refl}
use green_relay.Lockout.Tracker.{is_empty}
use green_relay.Admin.Bytes.{constant_time_eq-text_eq}
use mathlib.Core.Path.{subst}
use green_relay.HashMap.{get}
use green_relay.Admin.Cookie.{session_token_from_headers}
use green_relay.Admin.Session.{
  Session, session_valid, csrf_token_of, SessionStore, csrf_matches, csrf_token_for_request,
  csrf_valid,
}

abbrev IsScalars : Text → Type 0
IsScalars s = All (λ c. is_scalar c ≡ true) s

-- The description: the token is there, is not empty, and is the one submitted.
abbrev pub accepts : Text → Option Text → Bool
accepts submitted none = false
accepts submitted (some expected) = not (is_empty expected) && text_eq expected submitted

as_bytes-text_eq :
    (s t : Text) → IsScalars s → IsScalars t → text_eq (as_bytes s) (as_bytes t) ≡ text_eq s t
as_bytes-text_eq s t hs ht = elim (Bool-cases (text_eq (as_bytes s) (as_bytes t))) [
  | inl same ↦
      same
      ∙ sym (
          ap (text_eq s)
            (sym (as_bytes_injective s t hs ht (text_eq_sound (as_bytes s) (as_bytes t) same)))
          ∙ text_eq_refl s)
  | inr differ ↦ elim (Bool-cases (text_eq s t)) [
    | inr differ' ↦ differ ∙ sym differ'
    | inl same ↦ absurd (
        differs-same (
          sym differ
          ∙ ap (λ r. text_eq (as_bytes s) (as_bytes r)) (sym (text_eq_sound s t same))
          ∙ text_eq_refl (as_bytes s)))
  ]
]
  where
    differs-same : false ≢ true
    differs-same = cc

accepts_lem :
    (submitted expected : Text)
    → IsScalars expected
    → IsScalars submitted
    → csrf_matches submitted (some expected) ≡ accepts submitted (some expected)
accepts_lem submitted expected h k =
    rw
      (constant_time_eq-text_eq (as_bytes expected) (as_bytes submitted)
        (IsByte-as_bytes expected h) (IsByte-as_bytes submitted k))
      (ap (λ r. not (is_empty expected) && r) (as_bytes-text_eq expected submitted h k))

accepts_same :
    (expected submitted : Text)
    → expected ≢ []
    → expected ≡ submitted
    → accepts submitted (some expected) ≡ true
accepts_same [] submitted n e = absurd (n refl)
accepts_same (c ∷ cs) submitted n e =
    subst (λ t. accepts t (some (c ∷ cs)) ≡ true) e (text_eq_refl (c ∷ cs))

accepts-parts :
    (expected submitted : Text)
    → accepts submitted (some expected) ≡ true
    → (expected ≢ []) × (expected ≡ submitted)
accepts-parts [] submitted h = cc
accepts-parts (c ∷ cs) submitted h = ((λ e. cc), text_eq_sound (c ∷ cs) submitted h)

-- every session has a token of characters
abbrev pub AreScalars : SessionStore → Type 0
AreScalars sessions = All (λ entry. IsScalars entry.1.csrf_token) sessions

get-IsScalars :
    (sessions : SessionStore) (token : Text) (session : Session)
    → AreScalars sessions
    → get sessions token ≡ some session
    → IsScalars session.csrf_token
unfolding get
get-IsScalars [] token session h e = cc
get-IsScalars ((k, v) ∷ sessions) token session h e = elim (Bool-cases (text_eq k token)) [
  | inl y ↦ let same : v ≡ session = cc (rw y at e) in subst (λ x. IsScalars x.csrf_token) same h.0
  | inr n ↦ get-IsScalars sessions token session h.1 (rw n at e)
]

-- A session that the cookie of the request names, used within the last half hour, whose token is not
-- empty and is the one submitted.
pub record IsGuarded (sessions : SessionStore) (headers : Option Text) (submitted : Text) (now : ℕ)
    : Type 0 where
  pub token : Text
  pub session : Session
  pub named : session_token_from_headers headers ≡ some token
  pub held : get sessions token ≡ some session
  pub used : now < session.last_activity + 30 * 60 * 1000000000
  pub not_empty : session.csrf_token ≢ []
  pub same : session.csrf_token ≡ submitted

module _ (sessions : SessionStore) (headers : Option Text) (submitted : Text) (now : ℕ)
    (stored : AreScalars sessions) (sent : All (λ c. is_scalar c ≡ true) submitted) where
  IsGuarded-valid :
      IsGuarded sessions headers submitted now → csrf_valid sessions headers submitted now ≡ true
  unfolding csrf_valid csrf_token_for_request csrf_token_of
  IsGuarded-valid g =
      let valid : session_valid g.session now ≡ true = ground (arith, g.used) in
      rw (g.named, g.held, valid)
        (accepts_lem submitted g.session.csrf_token
            (get-IsScalars sessions g.token g.session stored g.held) sent
          ∙ accepts_same g.session.csrf_token submitted g.not_empty g.same)

  valid-IsGuarded :
      csrf_valid sessions headers submitted now ≡ true → IsGuarded sessions headers submitted now
  unfolding csrf_valid csrf_token_for_request csrf_token_of
  valid-IsGuarded h = elim (Option-cases (session_token_from_headers headers)) [
    | inl e ↦ cc (rw e at h)
    | inr (token, e) ↦ elim (Option-cases (get sessions token)) [
      | inl q ↦ cc (rw (e, q) at h)
      | inr (session, q) ↦ elim (Bool-cases (session_valid session now)) [
        | inr v ↦ cc (rw (e, q, v) at h)
        | inl v ↦
            let b : accepts submitted (some session.csrf_token) ≡ true =
              sym (
                accepts_lem submitted session.csrf_token
                  (get-IsScalars sessions token session stored q) sent)
              ∙ rw (e, q, v) at h in
            let (filled, equal) = accepts-parts session.csrf_token submitted b in
            record {
              token = token;
              session = session;
              named = e;
              held = q;
              used = ground (arith, v);
              not_empty = filled;
              same = equal;
            }
      ]
    ]
  ]

  -- A form is accepted exactly if the cookie of the request names a session that was used within
  -- the last half hour and the form submits the token of that session, which is not empty, all
  -- texts being of Unicode scalar values.
  pub csrf_valid_iff :
      (csrf_valid sessions headers submitted now ≡ true) ↔ IsGuarded sessions headers submitted now
  csrf_valid_iff = (valid-IsGuarded, IsGuarded-valid)
