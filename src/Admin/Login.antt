-- ===== src/Admin/Login.antt =====
-- service/src/admin/login.rs: the login of an administrator. The database, the check of a password
-- and the random tokens are parameters; the locks on the shared state are held for whole operations
-- on it, and one login is followed at a time.
pub mod Laws
use green_relay.Prelude.{
  ℕ, Bool, true, false, List, [], ◌∷◌, ◌++◌, Option, none, some, if◌then◌else◌, Result, ok, err,
}
use green_relay.Text.{Text, codes}
use green_relay.Lockout.{admin_locked}
use green_relay.Lockout.Tracker.{Failures, record_failure, record_success, is_locked}
use green_relay.Admin.Session.{SessionStore, create, admin_policy}

pub data LoginResult : Type 0 where
  success : Text → LoginResult
  failed : LoginResult
  login_locked_out : LoginResult

-- The database, with its state: an audit entry, by the type of its event and its detail, may not be
-- written.
pub record Database (E : Type 0) : Type 1 where
  pub Rows : Type 0
  pub find_admin_credentials : Rows → Text → Result (Option (ℕ × Text)) E
  pub insert_audit : Rows → Text → Text → Rows × Result Unit E

-- `AdminState`, as far as the login uses it
pub record AdminState (R : Type 0) : Type 0 where
  pub rows : R
  pub login_tracker : Failures
  pub sessions : SessionStore

module _ {E : Type 0} (db : Database E) (verify_password : Text → Text → Bool) where
  abbrev pub State : Type 0
  State = AdminState db.Rows

  -- `.await?` on an audit entry, and then the result
  abbrev pub conclude_audit :
      State → LoginResult → db.Rows × Result Unit E → State × Result LoginResult E
  conclude_audit state result (rows, ok done) = (record state { rows = rows }, ok result)
  conclude_audit state result (rows, err e) = (record state { rows = rows }, err e)

  abbrev pub audited : State → Text → Text → LoginResult → State × Result LoginResult E
  audited state event detail result =
      conclude_audit state result (db.insert_audit state.rows event detail)

  -- after the entry on a failed login
  abbrev pub after_failure :
      State → Text → Bool → db.Rows × Result Unit E → State × Result LoginResult E
  after_failure state username now_locked (rows, err e) = (record state { rows = rows }, err e)
  after_failure state username now_locked (rows, ok done) =
      if now_locked
      then audited (record state { rows = rows }) (codes "admin_login_locked_out")
          (codes "account `" ++ username ++ codes "` locked after repeated failures")
          login_locked_out
      else (record state { rows = rows }, ok failed)

  unfoldable pub refuse : State → Text → Text → ℕ → State × Result LoginResult E
  refuse state username client_ip now =
      let tracker = record_failure admin_policy state.login_tracker client_ip now in
      let now_locked = is_locked (admin_locked admin_policy) tracker client_ip now in
      after_failure (record state { login_tracker = tracker }) username now_locked
        (db.insert_audit state.rows (codes "admin_login_failed")
          (codes "failed login for `" ++ username ++ codes "`"))

  unfoldable pub admit : State → Text → Text → ℕ → ℕ → Text → Text → State × Result LoginResult E
  admit state username client_ip now admin_id token csrf =
      let tracker = record_success state.login_tracker client_ip in
      let (sessions, token') = create state.sessions admin_id now token csrf in
      audited (record state { login_tracker = tracker; sessions = sessions })
        (codes "admin_login_success") (codes "admin `" ++ username ++ codes "` authenticated")
        (success token')

  -- with the credentials that were found; without any the time of a check is spent
  abbrev pub with_credentials :
      State
      → Text
      → Text
      → Text
      → ℕ
      → Text
      → Text
      → Result (Option (ℕ × Text)) E
      → State × Result LoginResult E
  with_credentials state username password client_ip now token csrf (err e) = (state, err e)
  with_credentials state username password client_ip now token csrf (ok none) =
      refuse state username client_ip now
  with_credentials state username password client_ip now token csrf
        (ok (some (admin_id, stored_hash))) =
      if verify_password password stored_hash
      then admit state username client_ip now admin_id token csrf
      else refuse state username client_ip now

  unfoldable pub perform_login :
      State → Text → Text → Text → ℕ → Text → Text → State × Result LoginResult E
  unfolding refuse admit
  perform_login state username password client_ip now token csrf =
      if is_locked (admin_locked admin_policy) state.login_tracker client_ip now
      then audited state (codes "admin_login_locked_out")
          (codes "login rejected from locked source for `" ++ username ++ codes "`")
          login_locked_out
      else with_credentials state username password client_ip now token csrf
          (db.find_admin_credentials state.rows username)
