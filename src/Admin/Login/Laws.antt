-- ===== src/Admin/Login/Laws.antt =====
-- service/src/admin/login.rs: what a login shows, and what it leaves behind.
use green_relay.Prelude.{
  ℕ, ◌≡◌, ◌≢◌, refl, ap, ◌∙◌, Bool, true, false, ◌++◌, Option, none, some, Result, ok, err, arith,
  Bool-cases, inl, inr,
}
use green_relay.Text.{Text, codes}
use green_relay.Text.Equality.{text_eq_refl}
use green_relay.HashMap.{get, insert, get-insert, get-remove}
use green_relay.Lockout.{admin_locked}
use green_relay.Lockout.Tracker.{record_failure, record_success, is_locked}
use green_relay.Admin.Session.{
  SessionStore, Session, create, validate, validate_found, admin_policy,
}
use green_relay.Admin.Login.{
  LoginResult, success, login_locked_out, Database, State, conclude_audit, after_failure, refuse,
  admit, with_credentials, perform_login,
}

module _ {E : Type 0} (db : Database E) (verify_password : Text → Text → Bool) where
  -- the stored hash, if there is one, is the password's
  abbrev pub is_verified : Text → Result (Option (ℕ × Text)) E → Bool
  is_verified password (err e) = false
  is_verified password (ok none) = false
  is_verified password (ok (some (id, stored_hash))) = verify_password password stored_hash

  conclude_audit-sessions :
      (state : State db verify_password) (result : LoginResult) (r : db.Rows × Result Unit E)
      → (conclude_audit db verify_password state result r).0.sessions ≡ state.sessions
  conclude_audit-sessions state result (rows, ok done) = refl
  conclude_audit-sessions state result (rows, err e) = refl

  after_failure-sessions :
      (state : State db verify_password) (username : Text) (now_locked : Bool)
      (r : db.Rows × Result Unit E)
      → (after_failure db verify_password state username now_locked r).0.sessions ≡ state.sessions
  after_failure-sessions state username now_locked (rows, err e) = refl
  after_failure-sessions state username true (rows, ok done) =
      conclude_audit-sessions (record state { rows = rows }) login_locked_out
        (db.insert_audit rows (codes "admin_login_locked_out")
          (codes "account `" ++ username ++ codes "` locked after repeated failures"))
  after_failure-sessions state username false (rows, ok done) = refl

  refuse-sessions :
      (state : State db verify_password) (username client_ip : Text) (now : ℕ)
      → (refuse db verify_password state username client_ip now).0.sessions ≡ state.sessions
  unfolding refuse
  refuse-sessions state username client_ip now =
      let tracker = record_failure admin_policy state.login_tracker client_ip now in
      after_failure-sessions (record state { login_tracker = tracker }) username
        (is_locked (admin_locked admin_policy) tracker client_ip now)
        (db.insert_audit state.rows (codes "admin_login_failed")
          (codes "failed login for `" ++ username ++ codes "`"))

  with_credentials-sessions :
      (state : State db verify_password) (username password client_ip : Text) (now : ℕ)
      (token csrf : Text) (found : Result (Option (ℕ × Text)) E)
      → is_verified password found ≡ false
      → (with_credentials db verify_password state username password client_ip now token csrf
          found).0.sessions
        ≡ state.sessions
  with_credentials-sessions state username password client_ip now token csrf (err e) h = refl
  with_credentials-sessions state username password client_ip now token csrf (ok none) h =
      refuse-sessions state username client_ip now
  with_credentials-sessions state username password client_ip now token csrf
        (ok (some (id, stored))) h =
      rw h (refuse-sessions state username client_ip now)

  -- A login whose password is not that of the account, or that names no account, or whose account
  -- cannot be read, opens no session, on whatever path it ends.
  pub perform_login-no_session :
      (state : State db verify_password) (username password client_ip : Text) (now : ℕ)
      (token csrf : Text)
      → is_verified password (db.find_admin_credentials state.rows username) ≡ false
      → (perform_login db verify_password state username password client_ip now token
          csrf).0.sessions
        ≡ state.sessions
  unfolding perform_login
  perform_login-no_session state username password client_ip now token csrf h =
      elim (Bool-cases (is_locked (admin_locked admin_policy) state.login_tracker client_ip now)) [
        | inl locked ↦ rw locked (
            conclude_audit-sessions state login_locked_out (
              db.insert_audit state.rows (codes "admin_login_locked_out")
                (codes "login rejected from locked source for `" ++ username ++ codes "`")))
        | inr free ↦ rw free (
            with_credentials-sessions state username password client_ip now token csrf
              (db.find_admin_credentials state.rows username) h)
      ]

  abbrev pub account : Result (Option (ℕ × Text)) E → Option ℕ
  account (ok (some (id, h))) = some id
  account _ = none

  -- what a successful login has shown and done
  abbrev pub Opens :
      State db verify_password
      → Text
      → Text
      → Text
      → ℕ
      → Text
      → State db verify_password
      → Text
      → Type 0
  Opens before username password client_ip now token after token' =
      (is_locked (admin_locked admin_policy) before.login_tracker client_ip now ≡ false)
      × (is_verified password (db.find_admin_credentials before.rows username) ≡ true)
      × (token' ≡ token)
      × (get after.login_tracker client_ip ≡ none)
      × ((validate after.sessions token' now).1
          ≡ account (db.find_admin_credentials before.rows username))

  conclude_audit-ok :
      (state : State db verify_password) (result result' : LoginResult)
      (r : db.Rows × Result Unit E)
      → (conclude_audit db verify_password state result r).1 ≡ ok result'
      → result ≡ result'
  conclude_audit-ok state result result' (rows, ok done) h = cc
  conclude_audit-ok state result result' (rows, err e) h = cc

  conclude_audit-tracker :
      (state : State db verify_password) (result : LoginResult) (r : db.Rows × Result Unit E)
      → (conclude_audit db verify_password state result r).0.login_tracker ≡ state.login_tracker
  conclude_audit-tracker state result (rows, ok done) = refl
  conclude_audit-tracker state result (rows, err e) = refl

  after_failure-ok :
      (state : State db verify_password) (username token : Text) (now_locked : Bool)
      (r : db.Rows × Result Unit E)
      → (after_failure db verify_password state username now_locked r).1 ≢ ok (success token)
  after_failure-ok state username token now_locked (rows, err e) = λ h. cc
  after_failure-ok state username token true (rows, ok done) = λ h.
      let e =
        conclude_audit-ok (record state { rows = rows }) login_locked_out (success token)
          (db.insert_audit rows (codes "admin_login_locked_out")
            (codes "account `" ++ username ++ codes "` locked after repeated failures"))
          h in
      cc
  after_failure-ok state username token false (rows, ok done) = λ h. cc

  refuse-ok :
      (state : State db verify_password) (username client_ip token : Text) (now : ℕ)
      → (refuse db verify_password state username client_ip now).1 ≢ ok (success token)
  unfolding refuse
  refuse-ok state username client_ip token now =
      let tracker = record_failure admin_policy state.login_tracker client_ip now in
      after_failure-ok (record state { login_tracker = tracker }) username token
        (is_locked (admin_locked admin_policy) tracker client_ip now)
        (db.insert_audit state.rows (codes "admin_login_failed")
          (codes "failed login for `" ++ username ++ codes "`"))

  validate-create :
      (sessions : SessionStore) (id now : ℕ) (token csrf : Text)
      → (validate (create sessions id now token csrf).0 token now).1 ≡ some id
  unfolding validate create
  validate-create sessions id now token csrf =
      let s : Session = record { admin_id = id; last_activity = now; csrf_token = csrf } in
      let found : get (insert token s sessions) token ≡ some s =
        get-insert sessions token s token ∙ rw (text_eq_refl token) refl in
      ap (λ o. (validate_found (insert token s sessions) token now o).1) found ∙ ground arith

  admit-opens :
      (state : State db verify_password) (username client_ip token csrf token' : Text) (now id : ℕ)
      → (admit db verify_password state username client_ip now id token csrf).1
        ≡ ok (success token')
      → let after = (admit db verify_password state username client_ip now id token csrf).0 in
        (token' ≡ token)
        × (get after.login_tracker client_ip ≡ none)
        × ((validate after.sessions token' now).1 ≡ some id)
  unfolding admit create record_success
  admit-opens state username client_ip token csrf token' now id h =
      let tracker = record_success state.login_tracker client_ip in
      let sessions = (create state.sessions id now token csrf).0 in
      let opened = record state { login_tracker = tracker; sessions = sessions } in
      let entry =
        db.insert_audit state.rows (codes "admin_login_success")
          (codes "admin `" ++ username ++ codes "` authenticated") in
      let e = conclude_audit-ok opened (success token) (success token') entry h in
      let same : token' ≡ token = cc in
      (
        same,
        ap (λ m. get m client_ip) (conclude_audit-tracker opened (success token) entry)
            ∙ get-remove state.login_tracker client_ip client_ip
            ∙ rw (text_eq_refl client_ip) refl,
        ap (λ m. (validate m token' now).1) (conclude_audit-sessions opened (success token) entry)
            ∙ ap (λ t. (validate sessions t now).1) same
            ∙ validate-create state.sessions id now token csrf,
      )

  with_credentials-opens :
      (state : State db verify_password) (username password client_ip : Text) (now : ℕ)
      (token csrf token' : Text) (found : Result (Option (ℕ × Text)) E)
      → (with_credentials db verify_password state username password client_ip now token csrf
          found).1
        ≡ ok (success token')
      → let after =
          (with_credentials db verify_password state username password client_ip now token csrf
            found).0 in
        (is_verified password found ≡ true)
        × (token' ≡ token)
        × (get after.login_tracker client_ip ≡ none)
        × ((validate after.sessions token' now).1 ≡ account found)
  with_credentials-opens state username password client_ip now token csrf token' (err e) h =
      absurd cc
  with_credentials-opens state username password client_ip now token csrf token' (ok none) h =
      absurd (refuse-ok state username client_ip token' now h)
  with_credentials-opens state username password client_ip now token csrf token'
        (ok (some (id, stored))) h =
      elim (Bool-cases (verify_password password stored)) [
        | inl good ↦
            let r = admit-opens state username client_ip token csrf token' now id (rw good at h) in
            rw good (refl, r.0, r.1, r.2)
        | inr bad ↦ absurd (refuse-ok state username client_ip token' now (rw bad at h))
      ]

  -- A login that succeeds came from a source that was not locked out and gave the password of an
  -- account; its token is the random one, admits the administrator of that account, and the
  -- failures of the source are forgotten.
  pub perform_login-Opens :
      (state : State db verify_password) (username password client_ip : Text) (now : ℕ)
      (token csrf token' : Text)
      → (perform_login db verify_password state username password client_ip now token csrf).1
        ≡ ok (success token')
      → Opens state username password client_ip now token
          (perform_login db verify_password state username password client_ip now token csrf).0
          token'
  unfolding perform_login
  perform_login-Opens state username password client_ip now token csrf token' h =
      elim (Bool-cases (is_locked (admin_locked admin_policy) state.login_tracker client_ip now)) [
        | inl locked ↦
            let e =
              conclude_audit-ok state login_locked_out (success token')
                (db.insert_audit state.rows (codes "admin_login_locked_out")
                  (codes "login rejected from locked source for `" ++ username ++ codes "`"))
                (rw locked at h) in
            absurd cc
        | inr free ↦
            let r =
              with_credentials-opens state username password client_ip now token csrf token'
                (db.find_admin_credentials state.rows username) (rw free at h) in
            rw free (refl, r.0, r.1, r.2, r.3)
      ]
