-- ===== src/Admin/Tests.antt =====
-- Examples for service/src/admin.
use green_relay.Prelude.{
  ◌≡◌, ◌↔◌, true, refl, Bool, List, [], ◌∷◌, Option, none, some, if◌then◌else◌, Result,
}
use green_relay.Text.{Text, codes, text_eq, is_whitespace}
use green_relay.HashMap.{get}
use green_relay.Lockout.Tracker.{is_locked}
use green_relay.Lockout.{seconds}
use green_relay.Admin.Cookie.{IsToken}
use green_relay.Admin.Session.{SessionStore, create, csrf_valid}
use green_relay.Admin.Session.Lifetime.{validate_at, sliding, validate_at-create}
use green_relay.Admin.Session.Csrf.{IsGuarded, csrf_valid_iff}
use green_relay.Admin.Login.{success, Database, AdminState, perform_login}
use green_relay.Admin.Login.Laws.{Opens, perform_login-Opens}

abbrev token : Text
token = codes "ab12"

token-IsToken : IsToken token
unfolding is_whitespace
token-IsToken = ((refl, (refl, (refl, (refl, tt)))), refl, refl)

validate_at-create_example :
    validate_at
      (create [] 7 0 token (codes "c5f")).0
      token
      (seconds 1799 ∷ seconds 3598 ∷ seconds 5398 ∷ seconds 5399 ∷ [])
    ≡ sliding 7 0 (seconds 1799 ∷ seconds 3598 ∷ seconds 5398 ∷ seconds 5399 ∷ [])
validate_at-create_example =
    validate_at-create [] 7 0 token (codes "c5f")
      (seconds 1799 ∷ seconds 3598 ∷ seconds 5398 ∷ seconds 5399 ∷ [])

abbrev open_store : SessionStore
open_store = (token, record { admin_id = 7; last_activity = 0; csrf_token = codes "c5f" }) ∷ []

abbrev cookie_header : Option Text
cookie_header = some (codes "admin_session=ab12; theme=dark")

csrf_valid_iff_example :
    (csrf_valid open_store cookie_header (codes "c5f") 5 ≡ true)
    ↔ IsGuarded open_store cookie_header (codes "c5f") 5
csrf_valid_iff_example =
    csrf_valid_iff open_store cookie_header (codes "c5f") 5 ((refl, (refl, (refl, tt))), tt)
      (refl, (refl, (refl, tt)))

-- A database of one account, whose rows are the types of the audit entries.
abbrev database : Database Unit
database = record {
  Rows = List Text;
  find_admin_credentials = λ rows username.
      Result.ok (if text_eq username (codes "root") then some (7, codes "hash") else none);
  insert_audit = λ rows event detail. (event ∷ rows, Result.ok tt);
}

abbrev verify : Text → Text → Bool
verify password stored = text_eq password (codes "secret")

abbrev closed : AdminState (List Text)
closed = record { rows = []; login_tracker = []; sessions = [] }

login-succeeds :
    (perform_login database verify closed
      (codes "root")
      (codes "secret")
      (codes "::1")
      5
      token
      (codes "c5f")).1
    ≡ Result.ok (success token)
unfolding perform_login is_locked get create
login-succeeds = refl

perform_login-Opens_example :
    Opens database verify closed
      (codes "root")
      (codes "secret")
      (codes "::1")
      5
      token
      (perform_login database verify closed
        (codes "root")
        (codes "secret")
        (codes "::1")
        5
        token
        (codes "c5f")).0
      token
perform_login-Opens_example =
    perform_login-Opens database verify closed (codes "root") (codes "secret") (codes "::1") 5 token
      (codes "c5f") token login-succeeds
