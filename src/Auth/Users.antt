-- ===== src/Auth/Users.antt =====
-- internal/auth/users.go: the accounts, their sessions, and the report of a withdrawn access. A nil
-- map is the empty one. bcrypt's comparison is a parameter, and what bcrypt's hashing, the random
-- generator, the clock and the user file give is an argument of the call.
pub mod Authenticate
pub mod Reload
pub mod Sessions
pub mod Lockout
pub mod Withdrawal
use pgedge_postgres_mcp.Prelude.{
  ℕ, String, Bool, true, false, not, ◌&&◌, Option, none, some, List, [], ◌∷◌, ◌++◌, str_eq, ltb,
  if◌then◌else◌,
}
use pgedge_postgres_mcp.GoMap.{GoMap, get, has, put, delete}

pub record User : Type 0 where
  pub username : String
  pub password_hash : String
  pub created_at : ℕ
  pub last_login : Option ℕ
  pub enabled : Bool
  pub annotation : String
  pub failed_attempts : ℕ
  pub session_token : String
  pub session_expires : Option ℕ

-- `hooked` says whether the revocation hook is installed, and `notified` holds the names that it
-- has been called with, the oldest first.
pub record UserStore : Type 0 where
  pub users : GoMap User
  pub hooked : Bool
  pub notified : List String

pub data UserError : Type 0 where
  already_exists : UserError
  user_not_found : UserError
  hashing_failed : UserError
  invalid_credentials : UserError
  account_disabled : UserError
  no_session_token : UserError
  not_reloaded : UserError
  invalid_session : UserError
  session_expired : UserError

pub data LoginResult : Type 0 where
  logged_in : String → ℕ → LoginResult
  login_failed : UserError → LoginResult

pub data SessionResult : Type 0 where
  session_of : String → SessionResult
  no_session : UserError → SessionResult

-- `InitializeUserStore`
abbrev pub initialize_user_store : UserStore
initialize_user_store = record { users = []; hooked = false; notified = [] }

-- `SetRevocationHook`
abbrev pub set_revocation_hook : Bool → UserStore → UserStore
set_revocation_hook hook s = record s { hooked = hook }

abbrev pub named_only : List String → List String
named_only [] = []
named_only (x ∷ xs) = if str_eq x "" then named_only xs else x ∷ named_only xs

-- `notifyRevoked`
unfoldable pub notify_revoked : List String → UserStore → UserStore
notify_revoked names s =
    if s.hooked then record s { notified = s.notified ++ named_only names } else s

-- `exists && user.Enabled`
abbrev pub enabled_entry : Option User → Bool
enabled_entry none = false
enabled_entry (some u) = u.enabled

-- `IsActive`, which `CanVerifyPassword` is too
unfoldable pub is_active : String → UserStore → Bool
is_active username s = enabled_entry (get username s.users)

-- The composite literal of `AddUser`
abbrev pub new_user : String → String → String → ℕ → User
new_user username password_hash annotation now = record {
  username = username;
  password_hash = password_hash;
  created_at = now;
  last_login = none;
  enabled = true;
  annotation = annotation;
  failed_attempts = 0;
  session_token = "";
  session_expires = none;
}

-- `AddUser`
unfoldable pub add_user :
    String → Option String → String → ℕ → UserStore → UserStore × Option UserError
add_user username hashed annotation now s =
    if has username s.users then (s, some already_exists) else elim hashed [
      | none ↦ (s, some hashing_failed)
      | some password_hash ↦ (
        record s { users = put username (new_user username password_hash annotation now) s.users },
        none,
      )
    ]

abbrev pub annotated : String → User → User
annotated new_annotation user =
    if str_eq new_annotation "" then user else record user { annotation = new_annotation }

-- `UpdateUser`
unfoldable pub update_user :
    String → String → Option String → String → UserStore → UserStore × Option UserError
update_user username new_password hashed new_annotation s = elim (get username s.users) [
  | none ↦ (s, some user_not_found)
  | some user ↦
      if str_eq new_password ""
      then (record s { users = put username (annotated new_annotation user) s.users }, none)
      else elim hashed [
        | none ↦ (s, some hashing_failed)
        | some h ↦ (
          record s {
            users =
                put username (annotated new_annotation (record user { password_hash = h })) s.users;
          },
          none,
        )
      ]
]

-- `RemoveUser`
unfoldable pub remove_user : String → UserStore → UserStore × Option UserError
unfolding notify_revoked
remove_user username s =
    if has username s.users
    then (notify_revoked (username ∷ []) (record s { users = delete username s.users }), none)
    else (s, some user_not_found)

-- `ResetFailedAttempts`
unfoldable pub reset_failed_attempts : String → UserStore → UserStore × Option UserError
reset_failed_attempts username s = elim (get username s.users) [
  | none ↦ (s, some user_not_found)
  | some user ↦
      (record s { users = put username (record user { failed_attempts = 0 }) s.users }, none)
]

-- `EnableUser`
unfoldable pub enable_user : String → UserStore → UserStore × Option UserError
enable_user username s = elim (get username s.users) [
  | none ↦ (s, some user_not_found)
  | some user ↦ (record s { users = put username (record user { enabled = true }) s.users }, none)
]

-- `DisableUser`
unfoldable pub disable_user : String → UserStore → UserStore × Option UserError
unfolding notify_revoked
disable_user username s = elim (get username s.users) [
  | none ↦ (s, some user_not_found)
  | some user ↦ (
    notify_revoked (username ∷ [])
        (record s { users = put username (record user { enabled = false }) s.users }),
    none,
  )
]

-- `user.SessionExpires == nil || user.SessionExpires.Before(now)`
abbrev pub is_over : ℕ → Option ℕ → Bool
is_over now none = true
is_over now (some t) = ltb t now

-- The loop of `ValidateSessionToken`
unfoldable pub find_session : String → ℕ → GoMap User → SessionResult
find_session token now [] = no_session invalid_session
find_session token now ((username, user) ∷ m) =
    let rest = find_session token now m in
    if not (str_eq user.session_token "") && str_eq user.session_token token
    then (if is_over now user.session_expires
        then no_session session_expired
        else if not user.enabled
        then no_session account_disabled
        else session_of username)
    else rest

-- `ValidateSessionToken`
unfoldable pub validate_session_token : String → ℕ → UserStore → SessionResult
unfolding find_session
validate_session_token token now s = find_session token now s.users
