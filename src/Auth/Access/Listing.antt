-- ===== src/Auth/Access/Listing.antt =====
-- The list of the accessible databases against the check of a single one.
use pgedge_postgres_mcp.Prelude.{
  ◌≤◌, String, ◌≡◌, refl, ◌≢◌, Bool, true, false, some, List, [], ◌∷◌, arith, eq_iff, str_eq,
  if◌then◌else◌, length, all,
}
use pgedge_postgres_mcp.Database.Settings.{NamedDatabaseConfig}
use pgedge_postgres_mcp.Auth.Access.{
  DatabaseAccessChecker, get_accessible_databases, bound_only, Context, can_access_database,
  get_bound_database, allowed_only,
}
use pgedge_postgres_mcp.Auth.Tokens.{ApiToken, TokenStore, get_token_by_hash}

abbrev pub accessible_by_check :
    DatabaseAccessChecker → Context → List NamedDatabaseConfig → List NamedDatabaseConfig
accessible_by_check dac ctx [] = []
accessible_by_check dac ctx (db ∷ dbs) =
    if can_access_database dac ctx db
    then db ∷ accessible_by_check dac ctx dbs
    else accessible_by_check dac ctx dbs

-- Without an API token, the databases listed are exactly those that the check of a single one
-- allows, in order.
pub get_accessible_databases_lem :
    (dac : DatabaseAccessChecker) (ctx : Context) (dbs : List NamedDatabaseConfig)
    → ctx.is_api_token ≡ false
    → get_accessible_databases dac ctx dbs ≡ accessible_by_check dac ctx dbs
unfolding get_accessible_databases can_access_database allowed_only
get_accessible_databases_lem dac ctx [] session = ground arith
get_accessible_databases_lem dac ctx (db ∷ dbs) session =
    ground (arith, get_accessible_databases_lem dac ctx dbs session)

abbrev pub all_named : String → List NamedDatabaseConfig → Bool
all_named name dbs = all (λ db. str_eq (NamedDatabaseConfig.name db) name) dbs

bound_only-named :
    (name : String) (dbs : List NamedDatabaseConfig)
    → (all_named name (bound_only name dbs) ≡ true) × (length (bound_only name dbs) ≤ 1)
unfolding bound_only
bound_only-named name [] = (refl, omega arith)
bound_only-named name (db ∷ dbs) =
    let (named, few) = bound_only-named name dbs in (ground (arith, named), ground (arith, few))

-- With an API token on file that is bound to a database, and authentication on, at most one
-- database is listed, and it has the name of that one.
pub bound_token_lists_its_database :
    (dac : DatabaseAccessChecker) (ctx : Context) (t : ApiToken) (store : TokenStore)
    (dbs : List NamedDatabaseConfig)
    → dac.is_stdio ≡ false
    → dac.auth_enabled ≡ true
    → ctx.is_api_token ≡ true
    → ctx.token_hash ≢ ""
    → dac.token_store ≡ some store
    → get_token_by_hash ctx.token_hash store ≡ some t
    → t.database ≢ ""
    → (all_named t.database (get_accessible_databases dac ctx dbs) ≡ true)
      × (length (get_accessible_databases dac ctx dbs) ≤ 1)
unfolding get_accessible_databases get_bound_database
bound_token_lists_its_database dac ctx t store dbs http on token hashed has_store found bound =
    let (named, few) = bound_only-named t.database dbs in
    (
      ground (arith, has_store, found, named, eq_iff ctx.token_hash "", eq_iff t.database ""),
      ground (arith, has_store, found, few, eq_iff ctx.token_hash "", eq_iff t.database ""),
    )
