-- ===== src/Tests/Database.antt =====
-- Connections at which the properties of the client manager are applied.
use pgedge_postgres_mcp.Prelude.{
  ℕ, String, ◌≡◌, refl, ◌⊎◌, inl, true, false, none, some, List, [], ◌∷◌,
}
use pgedge_postgres_mcp.Tests.Oauth.{signed_in, signed_in-IsKeyed, access_token}
use pgedge_postgres_mcp.Database.Settings.{NamedDatabaseConfig}
use pgedge_postgres_mcp.GoMap.{get, has, put, delete}
use pgedge_postgres_mcp.Database.ClientManager.{
  ClientManager, new_client_manager, connected, config_map, clients_of, is_closed,
}
use pgedge_postgres_mcp.Database.ClientManager.NoLeak.{KeptOrClosed}
use pgedge_postgres_mcp.Database.ClientManager.Revoked.{
  on_tokens_revoked, revoked_token_loses_clients,
}
use pgedge_postgres_mcp.Database.ClientManager.Affected.{
  IsAffected, IsUnaffected, update_database_configs_lem,
}
use pgedge_postgres_mcp.Oauth.Store.Ops.{apply, Op}
use pgedge_postgres_mcp.Database.ClientManager.Ops.{
  manager_run, configs_updated, client_of, client_removed,
}
use pgedge_postgres_mcp.Database.ClientManager.Reload.{update_database_configs}
use pgedge_postgres_mcp.Oauth.Store.Tokens.{delete_token, delete_token_locked}
use pgedge_postgres_mcp.Database.ClientManager.Kept.{manager_run-KeptOrClosed}

abbrev pub database_for : String → List String → NamedDatabaseConfig
database_for name users = record {
  name = name;
  host = "localhost";
  port = 5432;
  database = name;
  user = "mcp";
  password = "";
  ssl_mode = "prefer";
  ssl_cert = "";
  ssl_key = "";
  ssl_root_cert = "";
  hosts = none;
  target_session_attrs = "";
  available_to_users = users;
  allow_writes = false;
  allow_llm_switching = none;
  allowed_pl_languages = [];
  pool_max_conns = 4;
  pool_min_conns = 0;
  pool_max_conn_idle_time = "30m";
  pool_health_check_period = "";
  pool_max_conn_lifetime = "";
  connect_timeout = "10s";
  metadata_ttl = "5m";
}

abbrev shop : ClientManager
shop = record (new_client_manager (database_for "sales" [] ∷ database_for "stock" [] ∷ [])) {
  clients = ("a1", ("sales", 1) ∷ ("stock", 2) ∷ []) ∷ ("h2", ("sales", 3) ∷ []) ∷ [];
  current_db = ("a1", "stock") ∷ [];
}

manager_run-KeptOrClosed_example : KeptOrClosed "a1" "sales" 1 (
    manager_run
      (configs_updated (database_for "stock" [] ∷ [])
        ∷ client_of "a1" (connected 4)
        ∷ client_removed "a1"
        ∷ [])
      shop)
unfolding get
manager_run-KeptOrClosed_example =
    manager_run-KeptOrClosed "a1" "sales" 1
      (configs_updated (database_for "stock" [] ∷ [])
        ∷ client_of "a1" (connected 4)
        ∷ client_removed "a1"
        ∷ [])
      shop (inl refl)

update_database_configs_lem_example :
    let new = config_map (database_for "stock" [] ∷ []) [] in
    let before = get "sales" (clients_of "a1" shop.clients) in
    let reloaded = update_database_configs (database_for "stock" [] ∷ []) shop in
    let after = get "sales" (clients_of "a1" reloaded.clients) in
    (IsAffected "sales" shop.db_configs new
      × (after ≡ none)
      × ((c : ℕ) → before ≡ some c → is_closed c reloaded.closed ≡ true))
    ⊎ (IsUnaffected "sales" shop.db_configs new × (after ≡ before))
unfolding has put
update_database_configs_lem_example =
    update_database_configs_lem (database_for "stock" [] ∷ []) "a1" "sales" shop (refl, (refl, tt))

revoked_token_loses_clients_example :
    let after = on_tokens_revoked (apply (Op.delete_token "a1") signed_in).notified shop in
    (get "a1" after.clients ≡ none)
    × ((c : ℕ)
        → get "sales" (clients_of "a1" shop.clients) ≡ some c
        → is_closed c after.closed ≡ true)
unfolding get apply delete_token delete_token_locked delete put
revoked_token_loses_clients_example =
    revoked_token_loses_clients (Op.delete_token "a1") signed_in "a1" "sales" access_token shop
      signed_in-IsKeyed refl refl refl refl
