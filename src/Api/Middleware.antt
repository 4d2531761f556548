-- ===== src/Api/Middleware.antt =====
-- service/src/api/mod.rs: authentication, the rate limit, and their order round a protected route.
-- What is only logged is left out.
pub mod Laws
use green_relay.Prelude.{ℕ, Bool, not, List, [], Option, none, some, if◌then◌else◌, Result}
use green_relay.Text.{Text, codes}
use green_relay.Auth.{
  AuthOutcome, authorized, unauthorized, locked_out, auth_policy, passes_guard, key_identifier,
  authenticate_identified,
}
use green_relay.Lockout.{is_locked_out}
use green_relay.Lockout.Tracker.{Failures, is_locked}
use green_relay.RateLimit.{WindowState, RateDecision, allow, reject, effective_limit}
use green_relay.RateLimit.Limiter.{Cache, Request, check}
use green_relay.Metrics.{record_auth_failure, record_rate_limited}
use green_relay.Db.{DbError}
use green_relay.KeyCache.{CachedKey, Shared, resolve_active_key}
use green_relay.Api.{
  Response, api_error, json_with_retry_after, unauthorized_response, internal_error, ApiConfig,
  ApiState, set_metrics, Headers, unwrap_or, extract_api_key,
}

pub record AuthContext : Type 0 where
  pub custom_rate_limit : Option ℕ
  pub identifier : Text

abbrev pub id_of : CachedKey → Option ℕ
id_of none = none
id_of (some key) = some key.0

abbrev pub limit_of : CachedKey → Option ℕ
limit_of none = none
limit_of (some key) = key.1

module _ (cache : Cache WindowState) where
  abbrev pub Handler : Type 0
  Handler = ApiState cache.States → ApiState cache.States × Response

  abbrev pub count_failure : Handler
  count_failure s = (set_metrics s (record_auth_failure s.metrics), unauthorized_response)

  -- what is done with the outcome
  abbrev pub proceed :
      (AuthContext → Handler)
      → Text
      → CachedKey
      → ApiState cache.States
      → Failures × AuthOutcome
      → ApiState cache.States × Response
  proceed next key_id resolved s (tracker, authorized id) =
      next (record { custom_rate_limit = limit_of resolved; identifier = key_id })
        (record s { auth_failures = tracker })
  proceed next key_id resolved s (tracker, unauthorized) =
      count_failure (record s { auth_failures = tracker })
  proceed next key_id resolved s (tracker, locked_out) =
      count_failure (record s { auth_failures = tracker })

  abbrev pub after_resolve :
      (AuthContext → Handler)
      → Text
      → ℕ
      → ApiState cache.States
      → Shared × Result CachedKey DbError
      → ApiState cache.States × Response
  after_resolve next key_id now s (shared, Result.err e) =
      (record s { shared = shared }, internal_error)
  after_resolve next key_id now s (shared, Result.ok resolved) =
      proceed next key_id resolved (record s { shared = shared })
        (authenticate_identified (λ _. id_of resolved) key_id s.auth_failures now)

  abbrev pub presented_in : Headers → Text
  presented_in headers = unwrap_or (extract_api_key headers) []

  module _ (sha256 : List ℕ → List ℕ) where
    unfoldable pub auth_middleware : Headers → ℕ → (AuthContext → Handler) → Handler
    unfolding extract_api_key passes_guard key_identifier resolve_active_key authenticate_identified
        unauthorized_response
    auth_middleware headers now next s =
        let presented = presented_in headers in
        let key_id = key_identifier sha256 presented in
        if not (passes_guard presented)
        then count_failure s
        else if is_locked (is_locked_out auth_policy) s.auth_failures key_id now
        then count_failure s
        else after_resolve next key_id now s (resolve_active_key key_id s.shared)

  -- what is done with the decision
  abbrev pub decided :
      Handler
      → ApiState cache.States
      → cache.States × RateDecision
      → ApiState cache.States × Response
  decided next s (limiter, allow n) = next (record s { rate_limiter = limiter })
  decided next s (limiter, reject retry_after_secs) = (
    set_metrics (record s { rate_limiter = limiter }) (record_rate_limited s.metrics),
    json_with_retry_after 429 retry_after_secs (api_error (codes "rate limit exceeded") []),
  )

  unfoldable pub rate_limit_middleware : ApiConfig → ℕ → Handler → AuthContext → Handler
  unfolding effective_limit check
  rate_limit_middleware config now next ctx s = decided next s (
      check cache s.rate_limiter (record {
        key = ctx.identifier;
        limit = (effective_limit ctx.custom_rate_limit config.default_rate_limit).0;
        window = config.rate_window;
        now = now;
      }))

  -- a protected route: the layer of authentication is the outer one
  unfoldable pub protected : (List ℕ → List ℕ) → ApiConfig → Headers → ℕ → ℕ → Handler → Handler
  unfolding auth_middleware rate_limit_middleware
  protected sha256 config headers now later handler =
      auth_middleware sha256 headers now (rate_limit_middleware config later handler)
