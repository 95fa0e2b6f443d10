-- ===== src/Oauth/Server/SignIn.antt =====
-- internal/oauth/authenticator.go: the interface between the login pages and whoever checks the
-- credentials, and its implementation over the user store and the rate limiter. The hook of the
-- user store, which main installs, revokes the tokens of the names that it is called with. The
-- comparison with a dummy hash, which only takes time, is left out.
pub mod Verified
use pgedge_postgres_mcp.Prelude.{
  ℕ, String, ◌≡◌, Bool, not, ◌&&◌, Option, none, some, [], ◌++◌, str_eq, if◌then◌else◌,
}
use pgedge_postgres_mcp.Oauth.Server.Endpoint.{Server, blocked, record_failure}
use pgedge_postgres_mcp.Auth.Users.{UserStore, LoginResult, login_failed, logged_in}
use pgedge_postgres_mcp.Auth.RateLimiter.{RateLimiter, reset}
use pgedge_postgres_mcp.Auth.Users.Authenticate.{Attempt, authenticate_user}
use pgedge_postgres_mcp.Oauth.Server.Accounts.{revoke_all}

-- The arguments of `Authenticate`, with the readings of the limiter's clock and what the user store
-- takes from outside.
pub record Login : Type 0 where
  pub username : String
  pub ip : String
  pub attempt : Attempt
  pub limited_at : ℕ
  pub failed_at : ℕ

pub data AuthResult : Type 0 where
  authenticated_as : String → AuthResult
  err_invalid_credentials : AuthResult
  err_rate_limited : AuthResult

-- `Authenticator`, in a world `W` that holds the state of the OAuth server. `Entitled login w` says
-- that the credentials are good. A login that succeeds names its own user, is entitled to, and
-- leaves the store of the server as it was.
pub record Authenticator (W : Type 0) : Type 1 where
  pub server : W → Server
  pub with_server : Server → W → W
  pub authenticate : Login → W → W × AuthResult
  pub Entitled : Login → W → Type 0
  pub server-with_server : (s : Server) (w : W) → server (with_server s w) ≡ s
  pub names_its_user :
      (l : Login) (w : W) (subject : String)
      → (authenticate l w).1 ≡ authenticated_as subject
      → subject ≡ l.username
  pub is_entitled :
      (l : Login) (w : W) (subject : String)
      → (authenticate l w).1 ≡ authenticated_as subject
      → Entitled l w
  pub keeps_store :
      (l : Login) (w : W) (subject : String)
      → (authenticate l w).1 ≡ authenticated_as subject
      → (server (authenticate l w).0).store ≡ (server w).store

-- The OAuth server and the user store of one process
pub record Portal : Type 0 where
  pub server : Server
  pub users : UserStore

-- `a.RateLimiter != nil && clientIP != ""`, for what is done to the limiter under it
abbrev pub limiter_unless_anonymous :
    String → Option RateLimiter → Option RateLimiter → Option RateLimiter
limiter_unless_anonymous ip before after = if str_eq ip "" then before else after

-- `a.RateLimiter.Reset(clientIP)`
abbrev pub reset_limiter : Option RateLimiter → String → Option RateLimiter
reset_limiter none ip = none
reset_limiter (some rl) ip = some (reset ip rl)

module _ (verify_password : String → String → Bool) (max_failed_attempts : ℕ) where
  -- `AuthenticateUser`, with the calls of the hook that it makes
  unfoldable pub authenticate_hooked : Login → Portal → Portal × LoginResult
  authenticate_hooked l p =
      let (u, result) =
        authenticate_user verify_password l.username max_failed_attempts l.attempt
          (record p.users { notified = [] }) in
      (
        record {
          server = record p.server { store = revoke_all u.notified p.server.store };
          users = record u { notified = p.users.notified ++ u.notified };
        },
        result,
      )

  abbrev pub after_attempt : Login → Portal × LoginResult → Portal × AuthResult
  after_attempt l (p, login_failed e) = (
    record p {
      server = record p.server {
        rate_limiter =
            limiter_unless_anonymous l.ip p.server.rate_limiter
              (record_failure p.server.rate_limiter l.ip l.failed_at);
      };
    },
    err_invalid_credentials,
  )
  after_attempt l (p, logged_in token expires) = (
    record p {
      server = record p.server {
        rate_limiter =
            limiter_unless_anonymous l.ip p.server.rate_limiter
              (reset_limiter p.server.rate_limiter l.ip);
      };
    },
    authenticated_as l.username,
  )

  -- `UserStoreAuthenticator.Authenticate`
  unfoldable pub authenticate : Login → Portal → Portal × AuthResult
  unfolding authenticate_hooked
  authenticate l p =
      if not (str_eq l.ip "") && blocked p.server.rate_limiter l.ip l.limited_at
      then (p, err_rate_limited)
      else after_attempt l (authenticate_hooked l p)
