-- ===== src/Oauth/Server/DeviceGrant.antt =====
-- internal/oauth/device.go: the device grant at the token endpoint.
pub mod Approved
pub mod Answers
pub mod Refused
use pgedge_postgres_mcp.Prelude.{not, ◌||◌, Option, none, some, str_eq, ltb, if◌then◌else◌}
use pgedge_postgres_mcp.Oauth.Types.{DeviceCode, Store}
use pgedge_postgres_mcp.Oauth.Store.Devices.{
  Poll, delete_device, get_device_by_hash, touch_device_poll, take_device_if_approved,
}
use pgedge_postgres_mcp.Oauth.Server.Errors.{
  GrantResult, granted, refused, Config, External, Draws, Times, Form, TokenResponse, new_error,
}
use pgedge_postgres_mcp.Oauth.Server.Issue.{issue_tokens}

abbrev pub invalid_device : GrantResult
invalid_device =
    refused
      (new_error "invalid_grant" "device code is invalid or does not belong to this client" 400)

abbrev pub authorization_pending : GrantResult
authorization_pending =
    refused (new_error "authorization_pending" "the user has not yet approved this device" 400)

module _ (ext : External) (config : Config) where
  abbrev device_issued : Store × Option TokenResponse → Store × GrantResult
  device_issued (s, none) = (s, refused (new_error "server_error" "failed to issue tokens" 503))
  device_issued (s, some tr) = (s, granted tr)

  abbrev device_taken : Form → Times → Draws → Store × Option DeviceCode → Store × GrantResult
  device_taken f times draws (s, none) = (s, authorization_pending)
  device_taken f times draws (s, some taken) =
      device_issued
        (issue_tokens ext config f.client_id taken.subject taken.scope "" draws times.issued s)

  abbrev pub device_polled : Form → Times → Draws → Store × Option Poll → Store × GrantResult
  device_polled f times draws (s, none) = (s, invalid_device)
  device_polled f times draws (s, some p) =
      if p.too_soon
      then (s, refused (new_error "slow_down" "polling too frequently" 400))
      else if DeviceCode.denied p.device
      then (
        delete_device (ext.hash_token f.device_code) s,
        refused (new_error "access_denied" "the resource owner denied the request" 400),
      )
      else if not (DeviceCode.approved p.device)
      then (s, authorization_pending)
      else device_taken f times draws (take_device_if_approved (ext.hash_token f.device_code) s)

  abbrev device_found : Form → Times → Draws → Store → Option DeviceCode → Store × GrantResult
  device_found f times draws s none = (s, invalid_device)
  device_found f times draws s (some d) =
      if not (str_eq d.client_id f.client_id)
      then (s, invalid_device)
      else if not (ltb times.checked d.expires_at)
      then (
        delete_device (ext.hash_token f.device_code) s,
        refused (new_error "expired_token" "device code has expired" 400),
      )
      else device_polled f times draws
          (touch_device_poll (ext.hash_token f.device_code) times.checked s)

  -- `handleDeviceCodeGrant`
  unfoldable pub handle_device_code_grant : Form → Times → Draws → Store → Store × GrantResult
  handle_device_code_grant f times draws s =
      if str_eq f.device_code "" || str_eq f.client_id ""
      then (s, refused (new_error "invalid_request" "device_code and client_id are required" 400))
      else device_found f times draws s (get_device_by_hash (ext.hash_token f.device_code) s)
