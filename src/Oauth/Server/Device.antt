-- ===== src/Oauth/Server/Device.antt =====
-- internal/oauth/device.go: the device authorisation request and the verification page.
pub mod Pending
pub mod Verify
pub mod Approves
use pgedge_postgres_mcp.Prelude.{
  ℕ, ◌+◌, String, Bool, false, not, Option, none, some, List, str_eq, if◌then◌else◌, ◌/◌,
  str_append,
}
use pgedge_postgres_mcp.Oauth.Server.Authorize.{EndpointOptions}
use pgedge_postgres_mcp.Oauth.Server.Errors.{Error, new_error}
use pgedge_postgres_mcp.Oauth.Types.{DeviceCode, Store, StoreError}
use pgedge_postgres_mcp.Oauth.Server.Endpoint.{Server, blocked, record_failure}
use pgedge_postgres_mcp.Oauth.Server.UserCode.{new_user_code}
use pgedge_postgres_mcp.Oauth.Store.Clients.{get_client}
use pgedge_postgres_mcp.Oauth.Store.Devices.{put_device_code}
use pgedge_postgres_mcp.Oauth.Server.Scope.{scope_permitted}

-- `deviceResponse`
pub record DeviceResponse : Type 0 where
  pub device_code : String
  pub user_code : String
  pub verification_uri : String
  pub verification_uri_complete : String
  pub expires_in : ℕ
  pub interval : ℕ

-- A request to /oauth/device. The clock is read when the limiter is asked, when the request is
-- counted, and when the code is stored; `drawn` is the result of `randomToken`, and `bytes` what the
-- generator gives for the user code.
pub record DeviceRequest : Type 0 where
  pub is_post : Bool
  pub form_ok : Bool
  pub ip : String
  pub client_id : String
  pub scope : String
  pub limited_at : ℕ
  pub counted_at : ℕ
  pub stored_at : ℕ
  pub drawn : Option String
  pub bytes : List ℕ

pub data DeviceAnswer : Type 0 where
  device_wait : Error → DeviceAnswer
  device_error : Error → DeviceAnswer
  device_started : DeviceResponse → DeviceAnswer

-- `deviceCodePollInterval`: five seconds
abbrev pub device_code_poll_interval : ℕ
device_code_poll_interval = 5_000_000_000

module _ (hash_token : String → String) (query_escape : String → String)
    (opts : EndpointOptions) where
  -- The `DeviceCode` of a request
  abbrev pub new_device_code : DeviceRequest → String → String → DeviceCode
  new_device_code r device_code user_code = record {
    device_hash = hash_token device_code;
    user_code = user_code;
    client_id = r.client_id;
    scope = r.scope;
    subject = "";
    approved = false;
    denied = false;
    expires_at = r.stored_at + opts.device_code_lifetime;
    last_polled = 0;
    interval = device_code_poll_interval;
  }

  -- `verificationURI`; `DeviceVerifyPath` is /oauth/device/verify
  abbrev pub verification_uri : String
  verification_uri = str_append opts.issuer "/oauth/device/verify"

  abbrev pub device_response : String → String → DeviceResponse
  device_response device_code user_code = record {
    device_code = device_code;
    user_code = user_code;
    verification_uri = verification_uri;
    verification_uri_complete =
        str_append verification_uri (str_append "?user_code=" (query_escape user_code));
    expires_in = opts.device_code_lifetime / 1_000_000_000;
    interval = device_code_poll_interval / 1_000_000_000;
  }

  abbrev pub device_stored :
      String → String → Server → Store × Option StoreError → Server × DeviceAnswer
  device_stored device_code user_code srv (s, some full) = (
    record srv { store = s },
    device_error (new_error "server_error" "failed to store device code" 503),
  )
  device_stored device_code user_code srv (s, none) =
      (record srv { store = s }, device_started (device_response device_code user_code))

  -- What follows the checks
  abbrev pub device_drawn : DeviceRequest → Server → Server × DeviceAnswer
  device_drawn r srv = elim r.drawn [
    | none ↦ (srv, device_error (new_error "server_error" "failed to generate device code" 500))
    | some device_code ↦ elim (new_user_code r.bytes) [
      | none ↦ (srv, device_error (new_error "server_error" "failed to generate user code" 500))
      | some user_code ↦
          device_stored device_code user_code srv
            (put_device_code (new_device_code r device_code user_code) srv.store)
    ]
  ]

  -- What follows the metering
  unfoldable pub device_counted : DeviceRequest → Server → Server × DeviceAnswer
  device_counted r srv =
      if not r.is_post
      then (srv, device_error (new_error "invalid_request" "method not allowed" 405))
      else if not r.form_ok
      then (srv, device_error (new_error "invalid_request" "malformed request" 400))
      else if str_eq r.client_id ""
      then (srv, device_error (new_error "invalid_request" "client_id is required" 400))
      else elim (get_client r.client_id srv.store) [
        | none ↦ (srv, device_error (new_error "invalid_client" "unknown client" 400))
        | some c ↦
            if not (scope_permitted r.scope)
            then (srv, device_error (new_error "invalid_scope" "scope must be \"mcp\"" 400))
            else device_drawn r srv
      ]

  -- `handleDevice`
  unfoldable pub handle_device : DeviceRequest → Server → Server × DeviceAnswer
  handle_device r srv =
      if blocked srv.anonymous_rate_limiter r.ip r.limited_at
      then (srv, device_wait (new_error "access_denied" "too many requests" 429))
      else device_counted r (record srv {
        anonymous_rate_limiter = record_failure srv.anonymous_rate_limiter r.ip r.counted_at;
      })
