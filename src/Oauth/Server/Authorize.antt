-- ===== src/Oauth/Server/Authorize.antt =====
-- internal/oauth/authorize.go: the authorisation endpoint.
pub mod Checked
pub mod Issues
pub mod Redeemed
use pgedge_postgres_mcp.Prelude.{
  ℕ, ◌+◌, String, Bool, not, Option, none, some, List, ◌++◌, str_eq, if◌then◌else◌, is_empty,
}
use pgedge_postgres_mcp.Oauth.Types.{Client, Store, AuthCode, StoreError}
use pgedge_postgres_mcp.Oauth.Server.Errors.{Error, new_error, External}
use pgedge_postgres_mcp.Oauth.Server.SignIn.{
  err_rate_limited, err_invalid_credentials, Login, Authenticator, AuthResult, authenticated_as,
}
use pgedge_postgres_mcp.Oauth.Server.Redirect.{UrlLibrary, redirect_uri_allowed}
use pgedge_postgres_mcp.Oauth.Server.Csrf.{CsrfLibrary, verify, authorize_csrf_max_age}
use pgedge_postgres_mcp.Oauth.Store.Codes.{put_code}
use pgedge_postgres_mcp.Oauth.Store.Clients.{get_client, touch_client}
use pgedge_postgres_mcp.Oauth.Pkce.{valid_code_challenge}
use pgedge_postgres_mcp.Oauth.Server.Scope.{scope_permitted}

-- `AuthorizeParams`
pub record AuthorizeParams : Type 0 where
  pub response_type : String
  pub client_id : String
  pub redirect_uri : String
  pub scope : String
  pub state : String
  pub code_challenge : String
  pub code_challenge_method : String

-- The parts of the configuration that these endpoints read; the switch for registration may be
-- unset.
pub record EndpointOptions : Type 0 where
  pub issuer : String
  pub allowed_redirect_uris : List String
  pub extra_redirects : List String
  pub allow_dynamic_registration : Option Bool
  pub authorization_code_lifetime : ℕ
  pub device_code_lifetime : ℕ

-- What these endpoints call outside the package, and the key of the signer.
pub record PageLibrary : Type 0 where
  pub urls : UrlLibrary
  pub csrf : CsrfLibrary
  pub csrf_key : List ℕ
  pub external : External

pub data Method : Type 0 where
  method_get : Method
  method_post : Method
  method_other : Method

-- A request with its form. The clock is read when the client is touched, when the form's token is
-- checked, and when the code is issued; `drawn` is the result of `randomToken`.
pub record AuthorizeRequest : Type 0 where
  pub method : Method
  pub form_ok : Bool
  pub params : AuthorizeParams
  pub csrf_token : String
  pub login : Login
  pub touched_at : ℕ
  pub checked_at : ℕ
  pub issued_at : ℕ
  pub drawn : Option String

-- What is written: an error as JSON, a page with an error and no form, a redirect with an error, the
-- login page with its message, client and host, and a redirect with a code and the state.
pub data AuthorizeResponse : Type 0 where
  json_failure : Error → AuthorizeResponse
  error_page : Error → AuthorizeResponse
  redirect_error : String → String → Error → AuthorizeResponse
  login_page : ℕ → String → String → String → AuthorizeResponse
  redirect_code : String → String → String → AuthorizeResponse

-- `append(append([]string(nil), s.opts.Config.AllowedRedirectURIs...), s.opts.ExtraRedirects...)`
abbrev pub configured_redirects : EndpointOptions → List String
configured_redirects opts = opts.allowed_redirect_uris ++ opts.extra_redirects

-- `checkAuthorizeParams`
unfoldable pub check_authorize_params : AuthorizeParams → Option Error
check_authorize_params p =
    if not (str_eq p.response_type "code")
    then some (new_error "unsupported_response_type" "response_type must be \"code\"" 302)
    else if str_eq p.state ""
    then some (new_error "invalid_request" "state is required" 302)
    else if not (valid_code_challenge p.code_challenge)
    then some (
        new_error "invalid_request" "code_challenge is required and must be a valid S256 challenge"
          302)
    else if not (str_eq p.code_challenge_method "S256")
    then some (new_error "invalid_request" "code_challenge_method must be S256" 302)
    else if not (scope_permitted p.scope)
    then some (new_error "invalid_scope" "scope must be \"mcp\"" 302)
    else none

-- `clientDisplayName`
abbrev pub client_display_name : Client → String
client_display_name c = if str_eq c.name "" then c.id else c.name

module _ (lib : PageLibrary) (opts : EndpointOptions) where
  -- The list against which the target of a client is checked
  abbrev pub redirects_of : Client → List String
  redirects_of c = if is_empty c.redirect_uris then configured_redirects opts else c.redirect_uris

  -- `validateAuthorize`
  unfoldable pub validate_authorize : AuthorizeParams → Store → Option Client
  validate_authorize p s = elim (get_client p.client_id s) [
    | none ↦ none
    | some c ↦
        if redirect_uri_allowed lib.urls p.redirect_uri (redirects_of c) then some c else none
  ]

  -- `redirectURIHost`
  abbrev pub redirect_uri_host : String → String
  redirect_uri_host uri = elim (lib.urls.parse uri) [ none ↦ "" | some u ↦ u.host ]

  -- `redirectError`
  abbrev pub redirected_error : AuthorizeParams → Error → AuthorizeResponse
  redirected_error p e = elim (lib.urls.parse p.redirect_uri) [
    | none ↦ json_failure e
    | some u ↦ redirect_error p.redirect_uri p.state e
  ]

  -- The `AuthCode` of a sign-in
  abbrev pub new_auth_code : AuthorizeParams → String → String → ℕ → AuthCode
  new_auth_code p subject code now = record {
    hash = lib.external.hash_token code;
    client_id = p.client_id;
    redirect_uri = p.redirect_uri;
    subject = subject;
    scope = p.scope;
    code_challenge = p.code_challenge;
    expires_at = now + opts.authorization_code_lifetime;
  }

  -- `reRender`, and the form of a GET request
  abbrev pub render : Client → AuthorizeParams → ℕ → String → AuthorizeResponse
  render c p status message =
      login_page status message (client_display_name c) (redirect_uri_host p.redirect_uri)

  -- The last step: the code is on file, or the store is full
  abbrev pub code_stored :
      Client → AuthorizeParams → String → Store × Option StoreError → Store × AuthorizeResponse
  code_stored c p code (s, some full) = (s, render c p 503 "Service busy")
  code_stored c p code (s, none) = (
    s,
    elim (lib.urls.parse p.redirect_uri) [
      | none ↦ json_failure (new_error "server_error" "invalid redirect_uri" 500)
      | some u ↦ redirect_code p.redirect_uri code p.state
    ],
  )

  -- What follows a sign-in
  unfoldable pub issue_code : Client → AuthorizeRequest → String → Store → Store × AuthorizeResponse
  issue_code c r subject s = elim r.drawn [
    | none ↦ (s, render c r.params 500 "Something went wrong, please try again")
    | some code ↦
        code_stored c r.params code (put_code (new_auth_code r.params subject code r.issued_at) s)
  ]

  module _ {W : Type 0} (auth : Authenticator W) where
    abbrev pub store_of : W → Store
    store_of w = (auth.server w).store

    abbrev pub with_store : Store → W → W
    with_store s w = auth.with_server (record (auth.server w) { store = s }) w

    abbrev pub authenticated : Client → AuthorizeRequest → W × AuthResult → W × AuthorizeResponse
    authenticated c r (w, err_rate_limited) =
        (w, render c r.params 429 "Too many attempts, please wait and try again")
    authenticated c r (w, err_invalid_credentials) =
        (w, render c r.params 401 "Invalid username or password")
    authenticated c r (w, authenticated_as subject) =
        let (s, response) = issue_code c r subject (store_of w) in (with_store s w, response)

    -- The submission of the form
    unfoldable pub submit : Client → AuthorizeRequest → W → W × AuthorizeResponse
    submit c r w =
        if not (verify lib.csrf lib.csrf_key r.csrf_token r.checked_at authorize_csrf_max_age)
        then (w, render c r.params 400 "Your session expired, please try again")
        else authenticated c r (auth.authenticate r.login w)

    abbrev pub params_checked : Client → AuthorizeRequest → W → Option Error → W × AuthorizeResponse
    params_checked c r w (some e) = (w, redirected_error r.params e)
    params_checked c r w none = elim r.method [
      | method_get ↦ (w, render c r.params 200 "")
      | method_post ↦ submit c r w
      | method_other ↦ submit c r w
    ]

    abbrev pub client_checked : AuthorizeRequest → W → Option Client → W × AuthorizeResponse
    client_checked r w none =
        (w, error_page (new_error "invalid_request" "Invalid client or redirect URI" 400))
    client_checked r w (some c) =
        params_checked c r (with_store (touch_client c.id r.touched_at (store_of w)) w)
          (check_authorize_params r.params)

    -- `handleAuthorize`
    unfoldable pub handle_authorize : AuthorizeRequest → W → W × AuthorizeResponse
    handle_authorize r w = elim r.method [
      | method_other ↦ (w, json_failure (new_error "invalid_request" "method not allowed" 405))
      | method_get ↦
          if not r.form_ok
          then (w, json_failure (new_error "invalid_request" "malformed request" 400))
          else client_checked r w (validate_authorize r.params (store_of w))
      | method_post ↦
          if not r.form_ok
          then (w, json_failure (new_error "invalid_request" "malformed request" 400))
          else client_checked r w (validate_authorize r.params (store_of w))
    ]
