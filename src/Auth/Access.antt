-- ===== src/Auth/Access.antt =====
-- internal/auth/access.go: the databases that a caller may use. A `Context` holds what auth.go reads
-- from the request's context, and a database configuration the two fields that are read.
pub mod Listing
use pgedge_postgres_mcp.Database.Settings.{NamedDatabaseConfig}
use pgedge_postgres_mcp.Prelude.{
  String, Bool, true, false, not, ◌||◌, Option, none, some, List, [], ◌∷◌, str_eq, if◌then◌else◌,
  is_empty, contains,
}
use pgedge_postgres_mcp.Auth.Tokens.{TokenStore, get_token_by_hash, ApiToken}

pub record Context : Type 0 where
  pub is_api_token : Bool
  pub token_hash : String
  pub username : String

pub record DatabaseAccessChecker : Type 0 where
  pub token_store : Option TokenStore
  pub auth_enabled : Bool
  pub is_stdio : Bool

-- `isUserAllowed`
unfoldable pub is_user_allowed : String → List String → Bool
is_user_allowed username allowed_users =
    if is_empty allowed_users then true else contains allowed_users username

-- `CanAccessDatabase`
unfoldable pub can_access_database : DatabaseAccessChecker → Context → NamedDatabaseConfig → Bool
unfolding is_user_allowed
can_access_database dac ctx db =
    if dac.is_stdio
    then true
    else if not dac.auth_enabled
    then true
    else if ctx.is_api_token
    then true
    else if str_eq ctx.username ""
    then false
    else is_user_allowed ctx.username db.available_to_users

-- `GetBoundDatabase`
unfoldable pub get_bound_database : DatabaseAccessChecker → Context → String
get_bound_database dac ctx =
    if not ctx.is_api_token
    then ""
    else if str_eq ctx.token_hash ""
    then ""
    else elim dac.token_store [
      | none ↦ ""
      | some store ↦ elim (get_token_by_hash ctx.token_hash store) [
        | none ↦ ""
        | some t ↦ ApiToken.database t
      ]
    ]

-- The loop for a bound token
unfoldable pub bound_only : String → List NamedDatabaseConfig → List NamedDatabaseConfig
bound_only name [] = []
bound_only name (db ∷ dbs) =
    if str_eq (NamedDatabaseConfig.name db) name then db ∷ [] else bound_only name dbs

-- The loop for a session user
unfoldable pub allowed_only : String → List NamedDatabaseConfig → List NamedDatabaseConfig
unfolding is_user_allowed
allowed_only username [] = []
allowed_only username (db ∷ dbs) =
    let rest = allowed_only username dbs in
    if is_user_allowed username (NamedDatabaseConfig.available_to_users db) then db ∷ rest else rest

-- `GetAccessibleDatabases`
unfoldable pub get_accessible_databases :
    DatabaseAccessChecker → Context → List NamedDatabaseConfig → List NamedDatabaseConfig
unfolding get_bound_database bound_only allowed_only
get_accessible_databases dac ctx databases =
    if dac.is_stdio || not dac.auth_enabled
    then databases
    else if ctx.is_api_token
    then (let bound_db = get_bound_database dac ctx in
        if str_eq bound_db "" then databases else bound_only bound_db databases)
    else if str_eq ctx.username ""
    then []
    else allowed_only ctx.username databases
