-- ===== src/Oauth/Server/Register.antt =====
-- internal/oauth/register.go: dynamic client registration.
pub mod Registered
use pgedge_postgres_mcp.Prelude.{
  ℕ, String, Bool, true, not, ◌&&◌, Option, none, some, List, [], ◌∷◌, str_eq, ltb, leb,
  if◌then◌else◌, length, is_empty, contains, str_append, first_chars, char_count,
}
use pgedge_postgres_mcp.Oauth.Types.{Client, Store, StoreError}
use pgedge_postgres_mcp.Oauth.Server.Errors.{Error, new_error}
use pgedge_postgres_mcp.Oauth.Server.Redirect.{UrlLibrary, first_forbidden}
use pgedge_postgres_mcp.Oauth.Server.Csrf.{unix}
use pgedge_postgres_mcp.Oauth.Server.Authorize.{EndpointOptions, configured_redirects}
use pgedge_postgres_mcp.Oauth.Server.Endpoint.{device_grant_type, Server, blocked, record_failure}
use pgedge_postgres_mcp.Oauth.Store.Clients.{put_client}

-- `registrationRequest`
pub record RegistrationRequest : Type 0 where
  pub redirect_uris : List String
  pub client_name : String
  pub token_endpoint_auth_method : String
  pub grant_types : List String
  pub response_types : List String

-- `registrationResponse`
pub record RegistrationResponse : Type 0 where
  pub client_id : String
  pub client_id_issued_at : ℕ
  pub client_name : String
  pub redirect_uris : List String
  pub token_endpoint_auth_method : String
  pub grant_types : List String
  pub response_types : List String

-- A request to the endpoint. `body` is the decoded body, if it could be decoded; the clock is read
-- when the limiter is asked, when the request is counted, and when the client is stored; `drawn` is
-- the result of `randomToken`.
pub record Registration : Type 0 where
  pub is_post : Bool
  pub ip : String
  pub body : Option RegistrationRequest
  pub limited_at : ℕ
  pub counted_at : ℕ
  pub stored_at : ℕ
  pub drawn : Option String

pub data RegisterResponse : Type 0 where
  not_found : RegisterResponse
  try_later : Error → RegisterResponse
  not_registered : Error → RegisterResponse
  registered : RegistrationResponse → RegisterResponse

-- `maxRedirectURIs` and `maxClientNameRunes`
abbrev pub max_redirect_uris : ℕ
max_redirect_uris = 10

abbrev pub max_client_name_runes : ℕ
max_client_name_runes = 100

-- `supportedGrantTypes`
abbrev pub supported_grant_types : List String
supported_grant_types = "authorization_code" ∷ "refresh_token" ∷ device_grant_type ∷ []

-- `truncateRunes`
unfoldable pub truncate_runes : String → ℕ → String
truncate_runes s n = if leb (char_count s) n then s else first_chars n s

-- The first text of a list that another list does not have: the loop over the grant types
unfoldable pub first_outside : List String → List String → Option String
first_outside [] allowed = none
first_outside (x ∷ xs) allowed =
    let rest = first_outside xs allowed in if contains allowed x then rest else some x

-- `grantTypes`
abbrev pub grant_types_of : RegistrationRequest → List String
grant_types_of req =
    if is_empty req.grant_types
    then "authorization_code" ∷ "refresh_token" ∷ []
    else req.grant_types

-- `responseTypes`
abbrev pub response_types_of : RegistrationRequest → List String
response_types_of req =
    if is_empty req.response_types
    then (if contains (grant_types_of req) "authorization_code" then "code" ∷ [] else [])
    else req.response_types

abbrev pub bad_request : String → String → Option Error
bad_request code desc = some (new_error code desc 400)

-- `"redirect_uri not permitted: "+uri` and its like
abbrev refusal : String → String → String → Option Error
refusal code desc value = bad_request code (str_append desc value)

module _ (urls : UrlLibrary) (opts : EndpointOptions) where
  -- The checks of the decoded body, in their order
  unfoldable pub check_registration : RegistrationRequest → Option Error
  unfolding first_outside
  check_registration req =
      if is_empty req.redirect_uris
      then bad_request "invalid_redirect_uri" "redirect_uris is required"
      else if ltb max_redirect_uris (length req.redirect_uris)
      then bad_request "invalid_redirect_uri" "too many redirect_uris"
      else elim (first_forbidden urls req.redirect_uris (configured_redirects opts)) [
        | some uri ↦ refusal "invalid_redirect_uri" "redirect_uri not permitted: " uri
        | none ↦
            if not (str_eq req.token_endpoint_auth_method "")
              && not (str_eq req.token_endpoint_auth_method "none")
            then bad_request "invalid_request" "only public clients are supported"
            else elim (first_outside req.grant_types supported_grant_types) [
              | some gt ↦ refusal "invalid_request" "unsupported grant type: " gt
              | none ↦ elim (first_outside req.response_types ("code" ∷ [])) [
                | some rt ↦ refusal "invalid_request" "unsupported response type: " rt
                | none ↦
                    if not (is_empty req.response_types)
                      && not (contains (grant_types_of req) "authorization_code")
                    then bad_request "invalid_request"
                        "response type code requires the authorization_code grant"
                    else none
              ]
            ]
      ]

  -- The client of a request that is fine
  abbrev pub new_client : RegistrationRequest → String → ℕ → Client
  new_client req id now = record {
    id = id;
    name = truncate_runes req.client_name max_client_name_runes;
    redirect_uris = req.redirect_uris;
    created_at = now;
    last_used = now;
  }

  abbrev pub registration_stored :
      RegistrationRequest
      → String
      → ℕ
      → Server
      → Store × Option StoreError
      → Server × RegisterResponse
  registration_stored req id now srv (s, some full) = (
    record srv { store = s },
    not_registered (new_error "server_error" "failed to store client" 500),
  )
  registration_stored req id now srv (s, none) = (
    record srv { store = s },
    registered (record {
      client_id = id;
      client_id_issued_at = unix now;
      client_name = truncate_runes req.client_name max_client_name_runes;
      redirect_uris = req.redirect_uris;
      token_endpoint_auth_method = "none";
      grant_types = grant_types_of req;
      response_types = response_types_of req;
    }),
  )

  -- What follows the metering
  unfoldable pub register_counted : Registration → Server → Server × RegisterResponse
  register_counted r srv =
      if not r.is_post
      then (srv, not_registered (new_error "invalid_request" "method not allowed" 405))
      else elim r.body [
        | none ↦ (srv, not_registered (new_error "invalid_request" "malformed request body" 400))
        | some req ↦ elim (check_registration req) [
          | some e ↦ (srv, not_registered e)
          | none ↦ elim r.drawn [
            | none ↦
                (srv, not_registered (new_error "server_error" "failed to generate client id" 500))
            | some id ↦
                registration_stored req id r.stored_at srv
                  (put_client (new_client req id r.stored_at) srv.store)
          ]
        ]
      ]

  -- `handleRegister`
  unfoldable pub handle_register : Registration → Server → Server × RegisterResponse
  handle_register r srv =
      if not (elim opts.allow_dynamic_registration [ none ↦ true | some b ↦ b ])
      then (srv, not_found)
      else if blocked srv.anonymous_rate_limiter r.ip r.limited_at
      then (srv, try_later (new_error "access_denied" "too many requests" 429))
      else register_counted r (record srv {
        anonymous_rate_limiter = record_failure srv.anonymous_rate_limiter r.ip r.counted_at;
      })
