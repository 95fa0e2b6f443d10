-- ===== src/Auth/Users/Reload.antt =====
-- internal/auth/users.go: `Reload`, on what the file holds.
use pgedge_postgres_mcp.Prelude.{
  ℕ, String, Bool, not, ◌&&◌, Option, none, some, [], ◌∷◌, str_eq, if◌then◌else◌,
}
use pgedge_postgres_mcp.Auth.Users.{
  User, UserStore, notify_revoked, enabled_entry, UserError, not_reloaded,
}
use pgedge_postgres_mcp.GoMap.{GoMap, get, put, keys_where}

-- The loop of `Reload` that saves the sessions; the keys of a map are distinct
unfoldable pub session_tokens : GoMap User → GoMap (String × Option ℕ)
session_tokens [] = []
session_tokens ((username, user) ∷ m) =
    let rest = session_tokens m in
    if str_eq user.session_token ""
    then rest
    else (username, (user.session_token, user.session_expires)) ∷ rest

-- The loop of `Reload` that restores them
unfoldable pub restore_sessions : GoMap (String × Option ℕ) → GoMap User → GoMap User
restore_sessions [] users = users
restore_sessions ((username, (token, expires)) ∷ m) users = elim (get username users) [
  | none ↦ restore_sessions m users
  | some user ↦
      restore_sessions m
        (put username (record user { session_token = token; session_expires = expires }) users)
]

-- The test of the loop of `Reload` that notes whose access is withdrawn
abbrev pub withdrawn : GoMap User → String → User → Bool
withdrawn replacement username user = user.enabled && not (enabled_entry (get username replacement))

-- `Reload`, on what the file holds; `none` if there is no path, or the file cannot be read or parsed
unfoldable pub reload : Option (GoMap User) → UserStore → UserStore × Option UserError
unfolding notify_revoked session_tokens restore_sessions
reload none s = (s, some not_reloaded)
reload (some users) s = (
  notify_revoked (keys_where (withdrawn users) s.users)
      (record s { users = restore_sessions (session_tokens s.users) users }),
  none,
)
