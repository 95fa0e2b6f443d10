-- ===== src/Tests/Auth.antt =====
-- A limiter, accounts, tokens and databases at which the properties of access are applied.
use pgedge_postgres_mcp.Database.Settings.{NamedDatabaseConfig}
use pgedge_postgres_mcp.Tests.Database.{database_for}
use pgedge_postgres_mcp.Prelude.{
  ◌+◌, String, ◌≡◌, refl, Bool, true, false, none, some, [], ◌∷◌, arith, eq_iff, str_eq,
}
use pgedge_postgres_mcp.Auth.Users.{UserStore, User, new_user, validate_session_token, session_of}
use pgedge_postgres_mcp.Auth.RateLimiter.{RateLimiter, new_rate_limiter}
use pgedge_postgres_mcp.GoMap.{get, has, keys_where}
use pgedge_postgres_mcp.Auth.Tokens.{ApiToken, TokenStore, remove_token}
use pgedge_postgres_mcp.Auth.Access.{Context, DatabaseAccessChecker}
use pgedge_postgres_mcp.Auth.Tokens.Remove.{remove_token_panics}
use pgedge_postgres_mcp.Auth.Users.Sessions.{login-validate}
use pgedge_postgres_mcp.Auth.Users.Authenticate.{
  Attempt, authenticate_user, default_session_expiration,
}

abbrev limiter : RateLimiter
limiter = new_rate_limiter 1 2

abbrev busy : RateLimiter
busy = record limiter { attempts = ("10.0.0.1", 3 ∷ 4 ∷ []) ∷ [] }

abbrev alice : User
alice = record (new_user "alice" "secret" "" 1) { session_token = "s1"; session_expires = some 50 }

abbrev accounts : UserStore
accounts = record { users = ("alice", alice) ∷ []; hooked = true; notified = [] }

abbrev verify : String → String → Bool
verify password hash = str_eq password hash

abbrev wrong : Attempt
wrong = record { password = "guess"; token = some "s2"; authenticated_at = 7; logged_in_at = 8 }

abbrev right : Attempt
right = record { password = "secret"; token = some "s2"; authenticated_at = 7; logged_in_at = 8 }

login-validate_example :
    validate_session_token "s2" 9 (authenticate_user verify "alice" 3 right accounts).0
    ≡ session_of "alice"
unfolding get keys_where authenticate_user
login-validate_example =
    login-validate verify "alice" 3 right accounts "s2" (7 + default_session_expiration) 9 refl
      (ground (arith, eq_iff "s2" "")) refl (omega arith)

abbrev ci_token : ApiToken
ci_token = record {
  hash = "h1";
  expires_at = some 30;
  annotation = "ci";
  created_at = 1;
  database = "sales";
}

abbrev api_tokens : TokenStore
api_tokens = record { tokens = ("t1", ci_token) ∷ [] }

remove_token_panics_example : remove_token "123456789" api_tokens ≡ none
unfolding has
remove_token_panics_example =
    remove_token_panics "123456789" "t1" ci_token [] refl (omega arith) (omega arith)

abbrev sales : NamedDatabaseConfig
sales = database_for "sales" ("alice" ∷ [])

abbrev stock : NamedDatabaseConfig
stock = database_for "stock" ("bob" ∷ [])

abbrev checker : DatabaseAccessChecker
checker = record { token_store = some api_tokens; auth_enabled = true; is_stdio = false }

abbrev session_context : Context
session_context = record { is_api_token = false; token_hash = "x"; username = "alice" }

abbrev token_context : Context
token_context = record { is_api_token = true; token_hash = "h1"; username = "" }
