-- ===== src/Auth/Users/Authenticate.antt =====
-- internal/auth/users.go: `AuthenticateUser`.
use pgedge_postgres_mcp.Prelude.{
  ℕ, ◌+◌, String, Bool, false, not, ◌&&◌, Option, none, some, [], ◌∷◌, ltb, leb, if◌then◌else◌,
}
use pgedge_postgres_mcp.Auth.Users.{
  User, UserStore, notify_revoked, LoginResult, login_failed, invalid_credentials, account_disabled,
  no_session_token, logged_in,
}
use pgedge_postgres_mcp.GoMap.{get, put}

-- One call of `AuthenticateUser`: the password, what the random generator gives, and the readings of
-- the clock.
pub record Attempt : Type 0 where
  pub password : String
  pub token : Option String
  pub authenticated_at : ℕ
  pub logged_in_at : ℕ

-- `DefaultSessionExpiration`, in nanoseconds
abbrev pub default_session_expiration : ℕ
default_session_expiration = 86_400_000_000_000

-- `lockedOut`
abbrev pub locks_out : User → ℕ → Bool
locks_out user max_failed_attempts =
    ltb 0 max_failed_attempts && leb max_failed_attempts (user.failed_attempts + 1)

-- What a wrong password makes of the account
abbrev pub failed_once : User → ℕ → User
failed_once user max_failed_attempts = record user {
  failed_attempts = user.failed_attempts + 1;
  enabled = if locks_out user max_failed_attempts then false else user.enabled;
}

-- What a login makes of the account
abbrev pub with_session : User → String → Attempt → User
with_session user token a = record user {
  session_token = token;
  session_expires = some (a.authenticated_at + default_session_expiration);
  last_login = some a.logged_in_at;
  failed_attempts = 0;
}

module _ (verify_password : String → String → Bool) where
  -- `AuthenticateUser`
  unfoldable pub authenticate_user : String → ℕ → Attempt → UserStore → UserStore × LoginResult
  unfolding notify_revoked
  authenticate_user username max_failed_attempts a s = elim (get username s.users) [
    | none ↦ (s, login_failed invalid_credentials)
    | some user ↦
        if not user.enabled
        then (s, login_failed account_disabled)
        else if not (verify_password a.password user.password_hash)
        then (
          if locks_out user max_failed_attempts
              then notify_revoked (username ∷ [])
                  (record s { users = put username (failed_once user max_failed_attempts) s.users })
              else record s { users = put username (failed_once user max_failed_attempts) s.users },
          login_failed invalid_credentials,
        )
        else elim a.token [
          | none ↦ (s, login_failed no_session_token)
          | some token ↦ (
            record s { users = put username (with_session user token a) s.users },
            logged_in token (a.authenticated_at + default_session_expiration),
          )
        ]
  ]
