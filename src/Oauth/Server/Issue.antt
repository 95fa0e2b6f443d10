-- ===== src/Oauth/Server/Issue.antt =====
-- internal/oauth/token.go: `issueTokens` and `issueTokensWithHash`.
pub mod Pair
pub mod Held
pub mod Minting
pub mod Succeeds
use pgedge_postgres_mcp.Prelude.{
  ℕ, ◌+◌, String, true, false, Option, none, some, [], ◌∷◌, str_eq, if◌then◌else◌, ◌/◌,
}
use pgedge_postgres_mcp.Oauth.Types.{Token, Store, StoreError}
use pgedge_postgres_mcp.Oauth.Server.Errors.{TokenResponse, Config, External, Draws}
use pgedge_postgres_mcp.Oauth.Store.Tokens.{put_token, delete_token}

-- What `issueTokensWithHash` returns where it succeeds.
pub record Issued : Type 0 where
  pub response : TokenResponse
  pub refresh_hash : String
  pub family : String

module _ (ext : External) (config : Config) where
  -- `refresh` and `access`
  abbrev pub refresh_token_of : String → String → String → String → String → String → ℕ → Token
  refresh_token_of client_id subject scope family access_token refresh_token now = record {
    hash = ext.hash_token refresh_token;
    client_id = client_id;
    subject = subject;
    scope = scope;
    expires_at = now + config.refresh_token_lifetime;
    refresh_hash = "";
    is_refresh = true;
    issued = ext.hash_token access_token ∷ [];
    family = family;
  }

  abbrev pub access_token_of : String → String → String → String → String → String → ℕ → Token
  access_token_of client_id subject scope family access_token refresh_token now = record {
    hash = ext.hash_token access_token;
    client_id = client_id;
    subject = subject;
    scope = scope;
    expires_at = now + config.access_token_lifetime;
    refresh_hash = ext.hash_token refresh_token;
    is_refresh = false;
    issued = [];
    family = family;
  }

  abbrev response_of : String → String → String → TokenResponse
  response_of access_token refresh_token scope = record {
    access_token = access_token;
    token_type = "Bearer";
    expires_in = config.access_token_lifetime / 1_000_000_000;
    refresh_token = refresh_token;
    scope = scope;
  }

  abbrev put_access : Token → String → Issued → Store × Option StoreError → Store × Option Issued
  put_access access refresh_hash issued (s, some e) = (s, none)
  put_access access refresh_hash issued (s, none) = elim (put_token access s).1 [
    | none ↦ ((put_token access s).0, some issued)
    | some e ↦ ((delete_token refresh_hash (put_token access s).0).0, none)
  ]

  -- The part behind the draws
  unfoldable pub store_pair :
      String → String → String → String → String → String → ℕ → Store → Store × Option Issued
  store_pair client_id subject scope family access_token refresh_token now s =
      let refresh =
        refresh_token_of client_id subject scope family access_token refresh_token now in
      let access = access_token_of client_id subject scope family access_token refresh_token now in
      let issued : Issued = record {
        response = response_of access_token refresh_token scope;
        refresh_hash = refresh.hash;
        family = family;
      } in
      put_access access refresh.hash issued (put_token refresh s)

  abbrev with_family :
      String → String → String → String → String → ℕ → Store → Option String → Store × Option Issued
  with_family client_id subject scope access_token refresh_token now s none = (s, none)
  with_family client_id subject scope access_token refresh_token now s (some family) =
      store_pair client_id subject scope family access_token refresh_token now s

  abbrev drawn :
      String
      → String
      → String
      → String
      → Draws
      → ℕ
      → Store
      → Option String
      → Option String
      → Store × Option Issued
  drawn client_id subject scope family draws now s (some access_token) (some refresh_token) =
      with_family client_id subject scope access_token refresh_token now s
        (if str_eq family "" then draws.family else some family)
  drawn client_id subject scope family draws now s _ _ = (s, none)

  -- `issueTokensWithHash`
  unfoldable pub issue_tokens_with_hash :
      String → String → String → String → Draws → ℕ → Store → Store × Option Issued
  issue_tokens_with_hash client_id subject scope family draws now s =
      drawn client_id subject scope family draws now s draws.access draws.refresh

  abbrev pub response_only : Store × Option Issued → Store × Option TokenResponse
  response_only (s, none) = (s, none)
  response_only (s, some i) = (s, some (Issued.response i))

  -- `issueTokens`
  unfoldable pub issue_tokens :
      String → String → String → String → Draws → ℕ → Store → Store × Option TokenResponse
  issue_tokens client_id subject scope family draws now s =
      response_only (issue_tokens_with_hash client_id subject scope family draws now s)
