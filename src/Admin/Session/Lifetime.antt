-- ===== src/Admin/Session/Lifetime.antt =====
-- service/src/admin/session.rs: how long a session lasts.
use green_relay.Prelude.{
  ℕ, ◌-◌, ◌≡◌, refl, ap, ◌∙◌, List, [], ◌∷◌, Option, none, some, ltb, if◌then◌else◌, Bool-cases,
  inl, inr,
}
use green_relay.Text.{Text}
use green_relay.Text.Equality.{text_eq_refl}
use green_relay.HashMap.{get, insert, remove, get-insert, get-remove}
use green_relay.Admin.Session.{
  SessionStore, Session, session_valid, session_idle_timeout, create, validate,
}

-- the answers to requests with one token at some times
abbrev pub validate_at : SessionStore → Text → List ℕ → List (Option ℕ)
validate_at sessions token [] = []
validate_at sessions token (t ∷ times) =
    let (sessions', found) = validate sessions token t in found ∷ validate_at sessions' token times

abbrev pub all_refused : List ℕ → List (Option ℕ)
all_refused [] = []
all_refused (t ∷ times) = none ∷ all_refused times

-- The description: requests are answered with the administrator until one comes half an hour or
-- more after the one before it; it and all later ones are refused.
abbrev pub sliding : ℕ → ℕ → List ℕ → List (Option ℕ)
sliding id seen [] = []
sliding id seen (t ∷ times) =
    if ltb (t - seen) session_idle_timeout
    then some id ∷ sliding id t times
    else none ∷ all_refused times

validate_at_gone :
    (sessions : SessionStore) (token : Text) (times : List ℕ)
    → get sessions token ≡ none
    → validate_at sessions token times ≡ all_refused times
unfolding validate
validate_at_gone sessions token [] h = refl
validate_at_gone sessions token (t ∷ times) h =
    rw h (ap (λ r. none ∷ r) (validate_at_gone sessions token times h))

validate_at_lem :
    (sessions : SessionStore) (token : Text) (session : Session) (times : List ℕ)
    → get sessions token ≡ some session
    → validate_at sessions token times ≡ sliding session.admin_id session.last_activity times
unfolding validate
validate_at_lem sessions token session [] h = refl
validate_at_lem sessions token session (t ∷ times) h =
    rw h (elim (Bool-cases (session_valid session t)) [
      | inl valid ↦ rw (valid) (
          ap (λ r. some session.admin_id ∷ r)
            (validate_at_lem (insert token (record session { last_activity = t }) sessions) token
              (record session { last_activity = t }) times
              (get-insert sessions token _ token ∙ rw (text_eq_refl token) refl)))
      | inr over ↦ rw over (
          ap (λ r. none ∷ r)
            (validate_at_gone (remove token sessions) token times
              (get-remove sessions token token ∙ rw (text_eq_refl token) refl)))
    ])

-- A new session admits its administrator at each request that comes less than half an hour after
-- the one before it, or after the login, and from the first longer pause on no more.
pub validate_at-create :
    (sessions : SessionStore) (id now : ℕ) (token csrf : Text) (times : List ℕ)
    → validate_at (create sessions id now token csrf).0 token times ≡ sliding id now times
unfolding create
validate_at-create sessions id now token csrf times =
    validate_at_lem
      (insert token (record { admin_id = id; last_activity = now; csrf_token = csrf }) sessions)
      token (record { admin_id = id; last_activity = now; csrf_token = csrf }) times
      (get-insert sessions token _ token ∙ rw (text_eq_refl token) refl)
