-- ===== src/Tests/Endpoint.antt =====
-- Bearer tokens and requests at which the properties of validation and of the endpoint are applied.
use pgedge_postgres_mcp.Oauth.Types.{Token}
use pgedge_postgres_mcp.Prelude.{
  String, ◌≡◌, refl, inl, true, none, some, [], ◌∷◌, arith, eq_iff, str_eq,
}
use pgedge_postgres_mcp.Tests.Grants.{
  refresh_form, blank, outside, code_form, at_ten, gone, lifetimes, fresh,
}
use pgedge_postgres_mcp.GoMap.{get, has, put}
use pgedge_postgres_mcp.Oauth.Server.Endpoint.{
  handle_revoke, Request, handle_token, Server, EndpointTimes, dispatch,
}
use pgedge_postgres_mcp.Auth.Validator.{
  Identity, validate, Validator, identity_oauth, api_identity, session_identity, oauth_identity,
}
use pgedge_postgres_mcp.Auth.Users.{UserStore, is_active, new_user, disable_user}
use pgedge_postgres_mcp.Auth.RateLimiter.{is_allowed, new_rate_limiter}
use pgedge_postgres_mcp.Tests.Oauth.{refresh_token, signed_in, access_token, signed_in-IsKeyed}
use pgedge_postgres_mcp.Oauth.Server.RefreshGrant.{
  validate_access_token, handle_refresh_token_grant,
}
use pgedge_postgres_mcp.GoMap.Distinct.{keep}
use pgedge_postgres_mcp.Oauth.Server.CodeGrant.{handle_authorization_code_grant}
use pgedge_postgres_mcp.Oauth.Store.Codes.{take_code, take_used_code}
use pgedge_postgres_mcp.Oauth.Server.Session.{inactive_is_refused}
use pgedge_postgres_mcp.Oauth.Store.Tokens.{get_token}
use pgedge_postgres_mcp.Oauth.Server.Accounts.{
  HoldsNothing, revoke_all, withdrawn_user_loses_tokens,
}
use pgedge_postgres_mcp.Oauth.Store.Clients.{touch_client}
use pgedge_postgres_mcp.Auth.Validator.Identified.{StandsFor, validate_sound}
use pgedge_postgres_mcp.Auth.Users.Withdrawal.{apply_user, disabling}
use pgedge_postgres_mcp.Oauth.Server.Issue.Minting.{NotMinted}
use pgedge_postgres_mcp.Oauth.Server.Endpoint.Revoked.{revoked_is_refused}
use pgedge_postgres_mcp.Oauth.Server.Endpoint.Refused.{refused_request-NotMinted}
use pgedge_postgres_mcp.Oauth.Server.Errors.{
  new_error, generic_auth_code_invalid_grant, Error, refused,
}

inactive_is_refused_example :
    ((validate_access_token gone lifetimes "a1" 50 signed_in).1 ≡ none)
    × ((h : String)
        → get h (validate_access_token gone lifetimes "a1" 50 signed_in).0.tokens
          ≡ keep (λ u. str_eq (Token.subject u) "alice") (get h signed_in.tokens))
unfolding get
inactive_is_refused_example =
    inactive_is_refused gone lifetimes "a1" 50 access_token signed_in signed_in-IsKeyed refl refl
      (omega arith) (ground (arith, eq_iff "alice" "")) refl

abbrev pub oauth_only : Validator
oauth_only = record {
  tokens = none;
  users = none;
  oauth_store = some signed_in;
  methods = record { api_tokens = true; password_login = true; oauth = true };
  extra_public_paths = [];
}

abbrev pub alice_by_oauth : Identity
alice_by_oauth = record { kind = identity_oauth; token_hash = "a1"; username = "alice" }

validate_sound_example : StandsFor outside lifetimes "a1" 50 oauth_only "alice" identity_oauth
unfolding validate api_identity session_identity oauth_identity validate_access_token get_token get
validate_sound_example = validate_sound outside lifetimes "a1" 50 oauth_only alice_by_oauth refl

abbrev bad_code_request : Request
bad_code_request = record {
  is_post = true;
  form_ok = true;
  ip = "10.0.0.1";
  form = record code_form { code = "k2" };
  token = "";
}

abbrev server : Server
server = record {
  store = signed_in;
  rate_limiter = some (new_rate_limiter 1 5);
  anonymous_rate_limiter = none;
}

abbrev endpoint_times : EndpointTimes
endpoint_times = record { limited = 9; touched = 9; grant = at_ten; failed = 13 }

refused_request-NotMinted_example :
    NotMinted signed_in
      (handle_token outside lifetimes bad_code_request endpoint_times fresh server).0.store
unfolding handle_token is_allowed get dispatch handle_authorization_code_grant take_code
    touch_client take_used_code
refused_request-NotMinted_example =
    refused_request-NotMinted outside lifetimes bad_code_request endpoint_times fresh server
      (new_error "invalid_grant" generic_auth_code_invalid_grant 400) signed_in-IsKeyed (inl refl)

abbrev accounts : UserStore
accounts = record {
  users = ("alice", new_user "alice" "secret" "" 1) ∷ [];
  hooked = true;
  notified = [];
}

withdrawn_user_loses_tokens_example :
    HoldsNothing "alice"
      (revoke_all (apply_user (λ p h. true) (disabling "alice") accounts).notified signed_in)
unfolding has get is_active disable_user put
withdrawn_user_loses_tokens_example =
    withdrawn_user_loses_tokens (λ p h. true) "alice" (disabling "alice") accounts signed_in
      (ground (arith, eq_iff "alice" "")) (refl, tt) refl signed_in-IsKeyed refl refl

abbrev sign_out : Request
sign_out = record { is_post = true; form_ok = true; ip = "10.0.0.1"; form = blank; token = "r1" }

revoked_is_refused_example :
    ((e : Error) × ((handle_refresh_token_grant outside lifetimes refresh_form at_ten fresh
          (handle_revoke outside lifetimes sign_out endpoint_times server).0.store).1
        ≡ refused e))
    × ((validate_access_token outside lifetimes "a1" 50
          (handle_revoke outside lifetimes sign_out endpoint_times server).0.store).1
        ≡ none)
unfolding handle_revoke get
revoked_is_refused_example =
    revoked_is_refused outside lifetimes sign_out endpoint_times server 50 refresh_token "a1"
      refresh_form at_ten fresh refl refl refl refl refl
