-- ===== src/Oauth/Server/Errors.antt =====
-- internal/oauth/errors.go and token.go: error responses, token responses, and what the grants take
-- from outside.
use pgedge_postgres_mcp.Prelude.{ℕ, String, Bool, Option}

-- `Error`
pub record Error : Type 0 where
  pub code : String
  pub description : String
  pub status : ℕ

-- `newError`
abbrev pub new_error : String → String → ℕ → Error
new_error code desc status = record { code = code; description = desc; status = status }

-- `tokenResponse`
pub record TokenResponse : Type 0 where
  pub access_token : String
  pub token_type : String
  pub expires_in : ℕ
  pub refresh_token : String
  pub scope : String

-- What a grant handler returns: it has written the response, or returns an error to be written.
pub data GrantResult : Type 0 where
  granted : TokenResponse → GrantResult
  refused : Error → GrantResult

-- `genericAuthCodeInvalidGrant`
abbrev pub generic_auth_code_invalid_grant : String
generic_auth_code_invalid_grant =
    "authorisation code is invalid, expired, already used, or does not match this request"

-- `genericRefreshInvalidGrant`
abbrev pub generic_refresh_invalid_grant : String
generic_refresh_invalid_grant =
    "refresh token is invalid, expired, or does not belong to this client"

-- The lifetimes of `config.OAuthConfig`
pub record Config : Type 0 where
  pub access_token_lifetime : ℕ
  pub refresh_token_lifetime : ℕ

-- What the server calls and does not define: SHA-256 with its hexadecimal and its base64url
-- encoding, and `Options.SubjectActive`, which is always true where no check is configured.
pub record External : Type 0 where
  pub hash_token : String → String
  pub s256 : String → String
  pub subject_active : String → Bool

-- The results of the calls of `randomToken`, in a request that makes them; `none` is a failure of
-- the entropy source.
pub record Draws : Type 0 where
  pub access : Option String
  pub refresh : Option String
  pub family : Option String

-- The readings of the clock in a request: when it checks, when it issues tokens, and when it records
-- a rotation.
pub record Times : Type 0 where
  pub checked : ℕ
  pub issued : ℕ
  pub marked : ℕ

-- The form fields of a token request; a missing field is the empty text.
pub record Form : Type 0 where
  pub grant_type : String
  pub client_id : String
  pub code : String
  pub redirect_uri : String
  pub code_verifier : String
  pub refresh_token : String
  pub device_code : String
