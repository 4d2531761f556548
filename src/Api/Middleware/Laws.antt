-- ===== src/Api/Middleware/Laws.antt =====
-- service/src/api/mod.rs: who gets past the authentication, and what a refusal leaves.
use green_relay.Prelude.{
  ℕ, ◌≡◌, refl, Bool, true, false, List, Option, none, some, inl, inr, Result, Bool-cases,
}
use green_relay.Text.{Text}
use green_relay.Auth.{auth_policy, passes_guard, key_identifier, authenticate_identified}
use green_relay.Lockout.{is_locked_out}
use green_relay.Lockout.Tracker.{Failures, is_locked, record_failure, record_success}
use green_relay.RateLimit.{WindowState}
use green_relay.RateLimit.Limiter.{Cache}
use green_relay.Metrics.{record_auth_failure}
use green_relay.Db.{DbError}
use green_relay.KeyCache.{CachedKey, Shared, resolve_active_key}
use green_relay.Api.{Response, unauthorized_response, internal_error, ApiState, Headers}
use green_relay.Api.Middleware.{AuthContext, Handler, after_resolve, presented_in, auth_middleware}

module _ (cache : Cache WindowState) (sha256 : List ℕ → List ℕ) (headers : Headers) (now : ℕ)
    (s : ApiState cache.States) where
  abbrev pub presented : Text
  presented = presented_in cache headers

  abbrev pub key_id : Text
  key_id = key_identifier sha256 presented

  abbrev pub locked_now : Bool
  locked_now = is_locked (is_locked_out auth_policy) s.auth_failures key_id now

  -- Why a request is refused, with the failures that are then on record.
  pub data Refusal (failures : Failures) : Type 0 where
    unfit : passes_guard presented ≡ false → failures ≡ s.auth_failures → Refusal failures
    locked :
        passes_guard presented ≡ true
        → locked_now ≡ true
        → failures ≡ s.auth_failures
        → Refusal failures
    unknown :
        (shared : Shared)
        → passes_guard presented ≡ true
        → locked_now ≡ false
        → resolve_active_key key_id s.shared ≡ (shared, Result.ok none)
        → failures ≡ record_failure auth_policy s.auth_failures key_id now
        → Refusal failures

  -- What becomes of a request. A refused one is answered 401 and counted; one whose key cannot be
  -- looked up is answered 500 and counts as no failure; any other is passed on, with the limit of the
  -- key and the failures of the key forgotten.
  pub data Authed (next : AuthContext → Handler cache) (r : ApiState cache.States × Response)
      : Type 0 where
    refused :
        Refusal r.0.auth_failures
        → r.1 ≡ unauthorized_response
        → r.0.metrics ≡ record_auth_failure s.metrics
        → r.0.rate_limiter ≡ s.rate_limiter
        → Authed next r
    broken :
        (shared : Shared) (e : DbError)
        → passes_guard presented ≡ true
        → locked_now ≡ false
        → resolve_active_key key_id s.shared ≡ (shared, Result.err e)
        → r ≡ (record s { shared = shared }, internal_error)
        → Authed next r
    passed :
        (shared : Shared) (id : ℕ) (limit : Option ℕ)
        → passes_guard presented ≡ true
        → locked_now ≡ false
        → resolve_active_key key_id s.shared ≡ (shared, Result.ok (some (id, limit)))
        → r
          ≡ next
              (record { custom_rate_limit = limit; identifier = key_id })
              (record s { shared = shared; auth_failures = record_success s.auth_failures key_id })
        → Authed next r

  module _ (next : AuthContext → Handler cache) (fits : passes_guard presented ≡ true)
      (free : locked_now ≡ false) where
    after_resolve-Authed :
        (r : Shared × Result CachedKey DbError)
        → resolve_active_key key_id s.shared ≡ r
        → Authed next (after_resolve cache next key_id now s r)
    unfolding authenticate_identified
    after_resolve-Authed (shared, Result.err e) q = broken shared e fits free q refl
    after_resolve-Authed (shared, Result.ok none) q =
        rw free (refused (unknown shared fits free q refl) refl refl refl)
    after_resolve-Authed (shared, Result.ok (some (id, limit))) q =
        rw free (passed shared id limit fits free q refl)

  -- A request is passed on exactly when its key has 1 to 256 characters, is not locked out and
  -- resolves to an active key, whose failures are then forgotten; an error of the database is
  -- answered 500; every other request is answered 401 and counted, a failure is recorded only for a
  -- key that is unknown, and the rate limiter is left as it was.
  pub auth_middleware-Authed :
      (next : AuthContext → Handler cache)
      → Authed next (auth_middleware cache sha256 headers now next s)
  unfolding auth_middleware
  auth_middleware-Authed next = elim (Bool-cases (passes_guard presented)) [
    | inr e ↦ rw e (refused (unfit e refl) refl refl refl)
    | inl e ↦ rw e (elim (Bool-cases locked_now) [
      | inl l ↦ rw l (refused (locked e l refl) refl refl refl)
      | inr l ↦ rw l (after_resolve-Authed next e l (resolve_active_key key_id s.shared) refl)
    ])
  ]
