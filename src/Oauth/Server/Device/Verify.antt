-- ===== src/Oauth/Server/Device/Verify.antt =====
-- internal/oauth/device.go: the page on which a user approves a device.
use pgedge_postgres_mcp.Prelude.{
  ℕ, String, Bool, true, false, not, ◌||◌, Option, none, some, str_eq, ltb, if◌then◌else◌,
}
use pgedge_postgres_mcp.Oauth.Types.{DeviceCode, Store}
use pgedge_postgres_mcp.Oauth.Server.SignIn.{
  err_rate_limited, err_invalid_credentials, Login, Authenticator, AuthResult, authenticated_as,
}
use pgedge_postgres_mcp.Oauth.Server.Authorize.{
  method_get, method_post, method_other, PageLibrary, Method, client_display_name,
}
use pgedge_postgres_mcp.Oauth.Server.Errors.{Error, new_error}
use pgedge_postgres_mcp.Oauth.Store.Devices.{get_device_by_user_code, deny_device, approve_device}
use pgedge_postgres_mcp.Oauth.Server.UserCode.{normalise_user_code}
use pgedge_postgres_mcp.Oauth.Store.Clients.{get_client}
use pgedge_postgres_mcp.Oauth.Server.Endpoint.{record_failure, blocked}
use pgedge_postgres_mcp.Oauth.Server.Csrf.{verify, authorize_csrf_max_age}

-- A request to the page. `user_code` comes from the query of a GET request and from the form of a
-- POST request. The clock is read when the limiter is asked, for the client that the page names,
-- for the token of the form, for the validity of the code, and for a failure.
pub record VerifyRequest : Type 0 where
  pub method : Method
  pub form_ok : Bool
  pub ip : String
  pub user_code : String
  pub csrf_token : String
  pub action : String
  pub login : Login
  pub limited_at : ℕ
  pub named_at : ℕ
  pub checked_at : ℕ
  pub valid_at : ℕ
  pub failed_at : ℕ

-- What is written: an error, the form with its status, message, user code, client and scope, and the
-- final page with its message.
pub data VerifyAnswer : Type 0 where
  verify_error : Error → VerifyAnswer
  verify_later : Error → VerifyAnswer
  verify_form : ℕ → String → String → String × String → VerifyAnswer
  verify_done : String → VerifyAnswer

-- `pendingDeviceConsent`
unfoldable pub pending_device_consent : String → ℕ → Store → String × String
pending_device_consent user_code now s =
    if str_eq user_code "" then ("", "") else elim (get_device_by_user_code user_code s) [
      | none ↦ ("", "")
      | some d ↦
          if d.approved || d.denied || not (ltb now d.expires_at)
          then ("", "")
          else elim (get_client d.client_id s) [
            | none ↦ (d.client_id, d.scope)
            | some c ↦ (client_display_name c, d.scope)
          ]
    ]

-- `invalidCode`
unfoldable pub invalid_device_code : ℕ → Option DeviceCode → Bool
invalid_device_code now none = true
invalid_device_code now (some d) = not (ltb now d.expires_at) || d.approved || d.denied

module _ (lib : PageLibrary) (to_upper : String → String) where
  -- The user code that the handler works with
  abbrev pub typed_code : VerifyRequest → String
  typed_code r = normalise_user_code to_upper r.user_code

  -- `reRender`, and the form of a GET request
  abbrev pub verify_render : VerifyRequest → Store → ℕ → String → VerifyAnswer
  verify_render r s status message =
      verify_form status message (typed_code r) (pending_device_consent (typed_code r) r.named_at s)

  module _ {W : Type 0} (auth : Authenticator W) where
    abbrev pub verify_store : W → Store
    verify_store w = (auth.server w).store

    -- A failure is counted against the address, if there is a limiter
    abbrev pub count_failure : VerifyRequest → W → W
    count_failure r w =
        auth.with_server
          (record (auth.server w) {
            rate_limiter = record_failure (auth.server w).rate_limiter r.ip r.failed_at;
          })
          w

    abbrev pub rejected_code : VerifyRequest → W → W × VerifyAnswer
    rejected_code r w = (
      count_failure r w,
      verify_render r (verify_store w) 400 "That code is not valid or has expired",
    )

    abbrev pub denied_answer : VerifyRequest → W → Store × Bool → W × VerifyAnswer
    denied_answer r w (s, false) = rejected_code r w
    denied_answer r w (s, true) = (
      auth.with_server (record (auth.server w) { store = s }) w,
      verify_done "Request denied. You can close this window.",
    )

    -- The branch of a refusal
    unfoldable pub deny : VerifyRequest → W → W × VerifyAnswer
    deny r w = elim (get_device_by_user_code (typed_code r) (verify_store w)) [
      | none ↦ rejected_code r w
      | some d ↦
          if invalid_device_code r.valid_at (some d)
          then rejected_code r w
          else denied_answer r w (deny_device d.device_hash (verify_store w))
    ]

    abbrev pub approved_answer : VerifyRequest → W → VerifyAnswer → Store × Bool → W × VerifyAnswer
    approved_answer r w again (s, false) = (w, again)
    approved_answer r w again (s, true) =
        (auth.with_server (record (auth.server w) { store = s }) w, verify_done "")

    -- What follows the attempt to sign in; `page` is the store from which the form is drawn again
    abbrev pub verify_authenticated :
        VerifyRequest → Store → DeviceCode → W × AuthResult → W × VerifyAnswer
    verify_authenticated r page d (w, err_rate_limited) =
        (w, verify_render r page 429 "Too many attempts, please wait and try again")
    verify_authenticated r page d (w, err_invalid_credentials) =
        (w, verify_render r page 401 "Invalid username or password")
    verify_authenticated r page d (w, authenticated_as subject) =
        approved_answer r w (verify_render r page 400 "That code is not valid or has expired")
          (approve_device d.device_hash subject (verify_store w))

    -- The branch of an approval
    unfoldable pub approve : VerifyRequest → W → W × VerifyAnswer
    approve r w = elim (get_device_by_user_code (typed_code r) (verify_store w)) [
      | none ↦ rejected_code r w
      | some d ↦
          if invalid_device_code r.valid_at (some d)
          then rejected_code r w
          else verify_authenticated r (verify_store w) d (auth.authenticate r.login w)
    ]

    -- The submission of the form
    unfoldable pub verify_submit : VerifyRequest → W → W × VerifyAnswer
    verify_submit r w =
        if not r.form_ok
        then (w, verify_error (new_error "invalid_request" "malformed request" 400))
        else if not (verify lib.csrf lib.csrf_key r.csrf_token r.checked_at authorize_csrf_max_age)
        then (w, verify_render r (verify_store w) 400 "Your session expired, please try again")
        else if str_eq r.action "deny"
        then deny r w
        else approve r w

    -- `handleDeviceVerify`
    unfoldable pub handle_device_verify : VerifyRequest → W → W × VerifyAnswer
    handle_device_verify r w = elim r.method [
      | method_other ↦ (w, verify_error (new_error "invalid_request" "method not allowed" 405))
      | method_get ↦
          if blocked (auth.server w).rate_limiter r.ip r.limited_at
          then (w, verify_later (new_error "access_denied" "too many requests" 429))
          else (w, verify_render r (verify_store w) 200 "")
      | method_post ↦
          if blocked (auth.server w).rate_limiter r.ip r.limited_at
          then (w, verify_later (new_error "access_denied" "too many requests" 429))
          else verify_submit r w
    ]
