-- ===== src/Auth/Validator.antt =====
-- internal/auth/validator.go: the credential behind a bearer token. The OAuth validator is the OAuth
-- server's, of internal/oauth/server.go.
pub mod Identified
use pgedge_postgres_mcp.Prelude.{
  ℕ, String, Bool, true, false, ◌&&◌, Option, none, some, List, [], ◌∷◌, ◌++◌, str_eq,
  if◌then◌else◌,
}
use pgedge_postgres_mcp.Auth.Tokens.{TokenStore, validate_token}
use pgedge_postgres_mcp.Auth.Users.{
  UserStore, SessionResult, session_of, no_session, validate_session_token,
}
use pgedge_postgres_mcp.Oauth.Server.RefreshGrant.{validate_access_token}
use pgedge_postgres_mcp.Oauth.Types.{Store}
use pgedge_postgres_mcp.Auth.Access.{Context}
use pgedge_postgres_mcp.Oauth.Server.Errors.{External, Config}

pub data IdentityKind : Type 0 where
  identity_api_token : IdentityKind
  identity_session : IdentityKind
  identity_oauth : IdentityKind

pub record Identity : Type 0 where
  pub kind : IdentityKind
  pub token_hash : String
  pub username : String

pub record Methods : Type 0 where
  pub api_tokens : Bool
  pub password_login : Bool
  pub oauth : Bool

-- Each of the three sources may be nil.
pub record Validator : Type 0 where
  pub tokens : Option TokenStore
  pub users : Option UserStore
  pub oauth_store : Option Store
  pub methods : Methods
  pub extra_public_paths : List String

-- `OAuthEnabled`
abbrev pub oauth_enabled : Validator → Bool
oauth_enabled v = elim v.oauth_store [ none ↦ false | some s ↦ v.methods.oauth ]

module _ (ext : External) (config : Config) where
  -- The first credential that `Validate` tries
  unfoldable pub api_identity : String → ℕ → Validator → Option Identity
  api_identity token now v = elim v.tokens [
    | none ↦ none
    | some s ↦
        if v.methods.api_tokens && validate_token ext.hash_token token now s
        then some
            (record { kind = identity_api_token; token_hash = ext.hash_token token; username = "" })
        else none
  ]

  abbrev session_identity_of : String → SessionResult → Option Identity
  session_identity_of token (no_session _) = none
  session_identity_of token (session_of username) =
      if str_eq username ""
      then none
      else some (record {
        kind = identity_session;
        token_hash = ext.hash_token token;
        username = username;
      })

  -- The second one
  unfoldable pub session_identity : String → ℕ → Validator → Option Identity
  session_identity token now v = elim v.users [
    | none ↦ none
    | some s ↦
        if v.methods.password_login
        then session_identity_of token (validate_session_token token now s)
        else none
  ]

  abbrev oauth_identity_of : String → Option (String × String) → Option Identity
  oauth_identity_of token none = none
  oauth_identity_of token (some (subject, client_id)) =
      some (record { kind = identity_oauth; token_hash = ext.hash_token token; username = subject })

  -- The third one, which may revoke a subject's tokens
  unfoldable pub oauth_identity : String → ℕ → Validator → Validator × Option Identity
  oauth_identity token now v = elim v.oauth_store [
    | none ↦ (v, none)
    | some s ↦
        if v.methods.oauth
        then (
          record v { oauth_store = some (validate_access_token ext config token now s).0 },
          oauth_identity_of token (validate_access_token ext config token now s).1,
        )
        else (v, none)
  ]

  -- `Validate`
  unfoldable pub validate : String → ℕ → Validator → Validator × Option Identity
  unfolding api_identity session_identity oauth_identity
  validate token now v = elim (api_identity token now v) [
    | some id ↦ (v, some id)
    | none ↦ elim (session_identity token now v) [
      | some id ↦ (v, some id)
      | none ↦ oauth_identity token now v
    ]
  ]

-- `ContextWithIdentity`; the username of the context is set only if it is not empty
abbrev pub context_with_identity : Context → Identity → Context
context_with_identity ctx id = record {
  is_api_token = elim id.kind [
    | identity_api_token ↦ true
    | identity_session ↦ false
    | identity_oauth ↦ false
  ];
  token_hash = id.token_hash;
  username = if str_eq id.username "" then ctx.username else id.username;
}

-- `PublicPaths`; the constants are those of auth/middleware.go
abbrev pub public_paths : Validator → List String
public_paths v =
    let paths =
      "/health" ∷ "/api/user/info" ∷ "/api/openapi.json" ∷ "/.well-known/oauth-authorization-server"
      ∷ "/.well-known/oauth-protected-resource" ∷ [] in
    if oauth_enabled v then paths ++ v.extra_public_paths else paths
