-- ===== src/Tests/Devices.antt =====
-- From a sign-in to a token, and requests of devices and of clients that register.
use pgedge_postgres_mcp.Oauth.Server.SignIn.{authenticate, authenticate_hooked}
use pgedge_postgres_mcp.Prelude.{
  ◌+◌, ◌≤◌, String, ◌≡◌, refl, true, some, [], ◌∷◌, arith, eq_iff, char_count,
}
use pgedge_postgres_mcp.Tests.Oauth.{signed_in, tv_code}
use pgedge_postgres_mcp.Tests.Grants.{outside, lifetimes, code_form, at_ten, fresh, device_form}
use pgedge_postgres_mcp.Tests.Pages.{
  pages, endpoint_options, portal, alice_request, checked_users, alice_gets_code, toy_urls,
  ten_seconds, alice_params, alice_login,
}
use pgedge_postgres_mcp.Oauth.Pkce.{valid_code_verifier, valid_code_challenge}
use pgedge_postgres_mcp.Oauth.Server.Device.Pending.{StartsDevice, device_starts_pending}
use pgedge_postgres_mcp.Oauth.Server.Device.{
  DeviceRequest, handle_device, device_response, device_counted,
}
use pgedge_postgres_mcp.Oauth.Server.Device.Verify.{
  handle_device_verify, VerifyRequest, verify_submit, approve, pending_device_consent,
  invalid_device_code,
}
use pgedge_postgres_mcp.Oauth.Server.Errors.{Form, TokenResponse, granted}
use pgedge_postgres_mcp.Oauth.Server.UserCode.{
  without_separators, normalise_user_code, new_user_code,
}
use pgedge_postgres_mcp.Oauth.Types.{Store}
use pgedge_postgres_mcp.Oauth.Server.Register.Registered.{Registers, registered_client_is_checked}
use pgedge_postgres_mcp.Oauth.Server.Register.{
  Registration, RegistrationResponse, handle_register, register_counted, check_registration,
  truncate_runes,
}
use pgedge_postgres_mcp.GoMap.{get, size, has, has, put, delete}
use pgedge_postgres_mcp.Oauth.Server.DeviceGrant.Answers.{IsReady, approved_poll_is_answered}
use pgedge_postgres_mcp.Oauth.Server.Authorize.{
  method_post, store_of, handle_authorize, validate_authorize, check_authorize_params, submit,
  issue_code,
}
use pgedge_postgres_mcp.Oauth.Pkce.Charset.{is_unreserved_char, is_base64url_char}
use pgedge_postgres_mcp.Oauth.Server.DeviceGrant.{handle_device_code_grant}
use pgedge_postgres_mcp.Oauth.Server.Issue.Succeeds.{CanIssue}
use pgedge_postgres_mcp.Oauth.Server.CodeGrant.{handle_authorization_code_grant}
use pgedge_postgres_mcp.Oauth.Server.Authorize.Redeemed.{RedeemsFor, sign_in_lets_client_in}
use pgedge_postgres_mcp.Oauth.Server.UserCode.Normal.{normalise-new_user_code}
use pgedge_postgres_mcp.Oauth.Server.RefreshGrant.{validate_access_token}
use pgedge_postgres_mcp.Oauth.Store.Devices.{
  get_device_by_user_code, put_device_code, approve_device,
}
use pgedge_postgres_mcp.Auth.RateLimiter.{is_allowed, is_allowed, reset}
use pgedge_postgres_mcp.Oauth.Store.Clients.{get_client, put_client, touch_client}
use pgedge_postgres_mcp.Oauth.Server.Scope.{scope_permitted, fields, is_space, words}
use pgedge_postgres_mcp.Oauth.Server.Redirect.{
  first_forbidden, redirect_uri_allowed, any_permits, entry_permits, is_loopback_hostname,
}
use pgedge_postgres_mcp.Oauth.Server.Csrf.{verify, verify_bytes, issue, put_uint64, uint64_from}
use pgedge_postgres_mcp.Auth.Users.Authenticate.{authenticate_user}
use pgedge_postgres_mcp.Oauth.Server.Accounts.{revoke_all}
use pgedge_postgres_mcp.Oauth.Server.Device.Approves.{Approves, approval_is_earned}
use pgedge_postgres_mcp.Oauth.Store.Codes.{put_code}

abbrev k2_form : Form
k2_form = record code_form { code = "k2" }

k2_redeems : RedeemsFor outside alice_params "k2" k2_form 10 70
unfolding valid_code_verifier is_unreserved_char
k2_redeems = record {
  same_code = refl;
  same_client = refl;
  same_target = refl;
  verifier_valid = refl;
  challenge_met = refl;
  in_time = omega arith;
  code_named = ground (arith, eq_iff "k2" "");
  client_named = ground (arith, eq_iff "c1" "");
  target_named = ground (arith, eq_iff "http://localhost/cb" "");
}

abbrev two_more_fit : (s : Store) → size s.tokens + 2 ≤ s.limits.tokens → CanIssue fresh s
two_more_fit s room = record {
  access = "a2";
  refresh = "r2";
  family = "f2";
  access_drawn = refl;
  refresh_drawn = refl;
  family_drawn = refl;
  room = room;
}

abbrev after_login : Store
after_login =
    store_of pages endpoint_options checked_users
      (handle_authorize pages endpoint_options checked_users alice_request portal).0

room_after_login : size after_login.tokens + 2 ≤ after_login.limits.tokens
unfolding handle_authorize validate_authorize get_client get redirect_uri_allowed any_permits
    entry_permits check_authorize_params valid_code_challenge is_base64url_char scope_permitted
    submit verify verify_bytes issue put_uint64 uint64_from has put issue_code is_loopback_hostname
    fields is_space words touch_client put_code authenticate authenticate_hooked authenticate_user
    is_allowed revoke_all reset delete
room_after_login = omega arith

sign_in_lets_client_in_example :
    (resp : TokenResponse) × ((handle_authorization_code_grant outside lifetimes k2_form at_ten
        fresh after_login).1
      ≡ granted resp)
    × ((validate_access_token outside lifetimes resp.access_token 50
          (handle_authorization_code_grant outside lifetimes k2_form at_ten fresh after_login).0).1
        ≡ some ("alice", "c1"))
sign_in_lets_client_in_example =
    sign_in_lets_client_in pages endpoint_options lifetimes checked_users alice_request portal
      "http://localhost/cb" "k2" "st" k2_form at_ten fresh 50 alice_gets_code k2_redeems
      (two_more_fit after_login room_after_login) refl (omega arith)

abbrev d1_ready : IsReady device_form 10 tv_code
d1_ready = record {
  same_client = refl;
  unexpired = omega arith;
  waited = omega arith;
  approved = refl;
  not_denied = refl;
}

approved_poll_is_answered_example :
    (resp : TokenResponse) × ((handle_device_code_grant outside lifetimes device_form at_ten fresh
        signed_in).1
      ≡ granted resp)
unfolding get
approved_poll_is_answered_example =
    approved_poll_is_answered outside lifetimes device_form at_ten fresh signed_in tv_code
      (ground (arith, eq_iff "d1" "")) (ground (arith, eq_iff "c1" "")) refl d1_ready
      (two_more_fit signed_in (omega arith))

abbrev approve_request : VerifyRequest
approve_request = record {
  method = method_post;
  form_ok = true;
  ip = "10.0.0.1";
  user_code = "BCDF GHJK";
  csrf_token = ten_seconds;
  action = "";
  login = alice_login;
  limited_at = 5;
  named_at = 6;
  checked_at = 62_135_596_820_000_000_000;
  valid_at = 7;
  failed_at = 8;
}

approval_is_earned_example :
    Approves pages
      (λ s. s)
      checked_users
      approve_request
      portal
      (handle_device_verify pages (λ s. s) checked_users approve_request portal).0
unfolding handle_device_verify verify_submit approve get_device_by_user_code get normalise_user_code
    pending_device_consent invalid_device_code verify verify_bytes issue put_uint64 uint64_from has
    put authenticate authenticate_hooked authenticate_user is_allowed revoke_all reset delete
    approve_device
approval_is_earned_example =
    approval_is_earned pages (λ s. s) checked_users approve_request portal refl

abbrev tv_request : DeviceRequest
tv_request = record {
  is_post = true;
  form_ok = true;
  ip = "10.0.0.1";
  client_id = "c1";
  scope = "mcp";
  limited_at = 5;
  counted_at = 5;
  stored_at = 6;
  drawn = some "d3";
  bytes = 0 ∷ 255 ∷ 1 ∷ 2 ∷ 3 ∷ 4 ∷ 5 ∷ 6 ∷ 7 ∷ [];
}

abbrev escaped : String → String
escaped s = s

device_starts_pending_example :
    StartsDevice
      (λ t. t)
      endpoint_options
      tv_request
      portal.server
      (handle_device (λ t. t) escaped endpoint_options tv_request portal.server).0
      (device_response (λ t. t) escaped endpoint_options "d3" "BCDF-GHJK")
unfolding handle_device is_allowed get device_counted get_client scope_permitted new_user_code
    put_device_code has
device_starts_pending_example =
    device_starts_pending (λ t. t) escaped endpoint_options tv_request portal.server
      (device_response (λ t. t) escaped endpoint_options "d3" "BCDF-GHJK") refl

normalise-new_user_code_example :
    (char_count (without_separators "BCDF-GHJK") ≡ 8)
    × (normalise_user_code (λ s. s) "BC DF GHJK" ≡ "BCDF-GHJK")
unfolding new_user_code
normalise-new_user_code_example =
    normalise-new_user_code (λ s. s) (0 ∷ 255 ∷ 1 ∷ 2 ∷ 3 ∷ 4 ∷ 5 ∷ 6 ∷ 7 ∷ []) "BCDF-GHJK"
      "BC DF GHJK" refl refl

abbrev client_request : Registration
client_request = record {
  is_post = true;
  ip = "10.0.0.1";
  body = some (record {
    redirect_uris = "http://localhost/cb" ∷ [];
    client_name = "tool";
    token_endpoint_auth_method = "";
    grant_types = [];
    response_types = [];
  });
  limited_at = 5;
  counted_at = 5;
  stored_at = 6;
  drawn = some "c2";
}

abbrev client_answer : RegistrationResponse
client_answer = record {
  client_id = "c2";
  client_id_issued_at = 0;
  client_name = "tool";
  redirect_uris = "http://localhost/cb" ∷ [];
  token_endpoint_auth_method = "none";
  grant_types = "authorization_code" ∷ "refresh_token" ∷ [];
  response_types = "code" ∷ [];
}

registered_client_is_checked_example :
    Registers toy_urls endpoint_options client_request portal.server
      (handle_register toy_urls endpoint_options client_request portal.server).0
      client_answer
unfolding handle_register is_allowed get register_counted check_registration first_forbidden
    redirect_uri_allowed any_permits entry_permits put_client has truncate_runes
registered_client_is_checked_example =
    registered_client_is_checked toy_urls endpoint_options client_request portal.server
      client_answer refl
