-- ===== src/Oauth/Server/Endpoint.antt =====
-- internal/oauth/token.go: `handleToken`, and revoke.go: `handleRevoke`.
pub mod Metered
pub mod Refused
pub mod Revoked
use pgedge_postgres_mcp.Prelude.{
  ℕ, String, Bool, false, not, ◌&&◌, ◌||◌, Option, none, some, str_eq, if◌then◌else◌,
}
use pgedge_postgres_mcp.Oauth.Types.{Store}
use pgedge_postgres_mcp.Auth.RateLimiter.{RateLimiter, is_allowed, record_failed_attempt}
use pgedge_postgres_mcp.Oauth.Server.Errors.{
  GrantResult, granted, refused, Error, Config, External, Draws, Times, Form, TokenResponse,
  new_error,
}
use pgedge_postgres_mcp.Oauth.Server.CodeGrant.{handle_authorization_code_grant}
use pgedge_postgres_mcp.Oauth.Store.Tokens.{delete_token}
use pgedge_postgres_mcp.Oauth.Store.Clients.{touch_client}
use pgedge_postgres_mcp.Oauth.Server.RefreshGrant.{handle_refresh_token_grant}
use pgedge_postgres_mcp.Oauth.Server.DeviceGrant.{handle_device_code_grant}

-- `DeviceGrantType`
abbrev pub device_grant_type : String
device_grant_type = "urn:ietf:params:oauth:grant-type:device_code"

-- `tokenGrantShouldRecord`
unfoldable pub token_grant_should_record : String → String → Bool
token_grant_should_record grant_type err_code =
    if str_eq grant_type device_grant_type
    then str_eq err_code "invalid_grant"
    else if not (str_eq grant_type "authorization_code") && not (str_eq grant_type "refresh_token")
    then false
    else str_eq err_code "invalid_grant" || str_eq err_code "invalid_client"

-- The state that the endpoints change: the store and the two limiters, each of which may be nil.
pub record Server : Type 0 where
  pub store : Store
  pub rate_limiter : Option RateLimiter
  pub anonymous_rate_limiter : Option RateLimiter

-- A request to the token endpoint or to the revocation endpoint. `form_ok` says that the body was
-- within the limit and could be parsed; `token` is the field of a revocation.
pub record Request : Type 0 where
  pub is_post : Bool
  pub form_ok : Bool
  pub ip : String
  pub form : Form
  pub token : String

-- When the limiter was asked, the client touched, and a failure recorded, with the readings of the
-- grant in between.
pub record EndpointTimes : Type 0 where
  pub limited : ℕ
  pub touched : ℕ
  pub grant : Times
  pub failed : ℕ

-- What is written to the caller; `empty_ok` is status 200 with no body, and `retry_later` the error
-- under a Retry-After header.
pub data Response : Type 0 where
  json_token : TokenResponse → Response
  json_error : Error → Response
  retry_later : Error → Response
  empty_ok : Response

abbrev pub too_many_requests : Response
too_many_requests = retry_later (new_error "access_denied" "too many requests" 429)

-- `limiter != nil && !limiter.IsAllowed(ip)`
abbrev pub blocked : Option RateLimiter → String → ℕ → Bool
blocked none ip now = false
blocked (some rl) ip now = not (is_allowed ip now rl)

-- `if limiter != nil { limiter.RecordFailedAttempt(ip) }`
abbrev pub record_failure : Option RateLimiter → String → ℕ → Option RateLimiter
record_failure none ip now = none
record_failure (some rl) ip now = some (record_failed_attempt ip now rl)

module _ (ext : External) (config : Config) where
  -- The switch on the grant type
  unfoldable pub dispatch : Form → Times → Draws → Store → Store × GrantResult
  dispatch f times draws s =
      if str_eq f.grant_type "authorization_code"
      then handle_authorization_code_grant ext config f times draws s
      else if str_eq f.grant_type "refresh_token"
      then handle_refresh_token_grant ext config f times draws s
      else if str_eq f.grant_type device_grant_type
      then handle_device_code_grant ext config f times draws s
      else (s, refused (new_error "unsupported_grant_type" "unsupported grant_type" 400))

  abbrev pub answered : Request → EndpointTimes → Server → Store × GrantResult → Server × Response
  answered r times srv (s, granted tr) = (record srv { store = s }, json_token tr)
  answered r times srv (s, refused e) = (
    record srv {
      store = s;
      rate_limiter =
          if token_grant_should_record (Form.grant_type r.form) e.code
          then record_failure srv.rate_limiter r.ip times.failed
          else srv.rate_limiter;
    },
    json_error e,
  )

  -- `handleToken`
  unfoldable pub handle_token : Request → EndpointTimes → Draws → Server → Server × Response
  unfolding token_grant_should_record
  handle_token r times draws srv =
      if not r.is_post
      then (srv, json_error (new_error "invalid_request" "method not allowed" 405))
      else if not r.form_ok
      then (srv, json_error (new_error "invalid_request" "malformed request" 400))
      else if not (str_eq (Form.grant_type r.form) device_grant_type)
          && blocked srv.rate_limiter r.ip times.limited
      then (srv, too_many_requests)
      else let touched =
          if str_eq (Form.client_id r.form) ""
          then srv.store
          else touch_client (Form.client_id r.form) times.touched srv.store in
        answered r times srv (dispatch r.form times.grant draws touched)

  -- `fail` of `handleRevoke`
  abbrev revoke_failed : Request → EndpointTimes → Server → Error → Server × Response
  revoke_failed r times srv e =
      if blocked srv.anonymous_rate_limiter r.ip times.limited then (srv, too_many_requests) else (
        record srv {
          anonymous_rate_limiter = record_failure srv.anonymous_rate_limiter r.ip times.failed;
        },
        json_error e,
      )

  -- `handleRevoke`
  unfoldable pub handle_revoke : Request → EndpointTimes → Server → Server × Response
  handle_revoke r times srv =
      if not r.is_post
      then revoke_failed r times srv (new_error "invalid_request" "method not allowed" 405)
      else if not r.form_ok
      then revoke_failed r times srv (new_error "invalid_request" "malformed request" 400)
      else if str_eq r.token ""
      then revoke_failed r times srv (new_error "invalid_request" "token is required" 400)
      else (record srv { store = (delete_token (ext.hash_token r.token) srv.store).0 }, empty_ok)
