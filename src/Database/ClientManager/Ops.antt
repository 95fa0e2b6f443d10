-- ===== src/Database/ClientManager/Ops.antt =====
-- The operations that change the manager, as steps. A call that opens a client takes two locks;
-- `client_locked` is what it does under the second one, after other steps or none.
use pgedge_postgres_mcp.Prelude.{ℕ, String, Bool, Option, List, [], ◌∷◌}
use pgedge_postgres_mcp.Database.ClientManager.{
  ClientManager, locked_open, get_client_for_database, Connection, get_client, get_or_create_client,
}
use pgedge_postgres_mcp.Database.ClientManager.Changes.{
  set_current_database, set_current_database_and_close_others, set_client_for_database, set_client,
  remove_client, remove_clients, close_all,
}
use pgedge_postgres_mcp.Database.Settings.{NamedDatabaseConfig}
use pgedge_postgres_mcp.Database.ClientManager.Reload.{update_database_configs}

pub data ManagerOp : Type 0 where
  client_for_database : String → String → Connection → ManagerOp
  client_of : String → Connection → ManagerOp
  client_or_create : String → Bool → Connection → ManagerOp
  client_locked : String → String → Connection → ManagerOp
  current_database : String → String → ManagerOp
  current_and_close_others : String → String → ManagerOp
  client_set_for_database : String → String → Option ℕ → ManagerOp
  client_set : String → Option ℕ → ManagerOp
  client_removed : String → ManagerOp
  clients_removed : List String → ManagerOp
  configs_updated : List NamedDatabaseConfig → ManagerOp
  all_closed : ManagerOp

unfoldable pub manager_apply : ManagerOp → ClientManager → ClientManager
manager_apply (client_for_database h name attempt) cm =
    (get_client_for_database h name attempt cm).0
manager_apply (client_of h attempt) cm = (get_client h attempt cm).0
manager_apply (client_or_create h auto attempt) cm = (get_or_create_client h auto attempt cm).0
manager_apply (client_locked h name attempt) cm = (locked_open h name attempt cm).0
manager_apply (current_database h name) cm = (set_current_database h name cm).0
manager_apply (current_and_close_others h name) cm =
    (set_current_database_and_close_others h name cm).0
manager_apply (client_set_for_database h name client) cm =
    (set_client_for_database h name client cm).0
manager_apply (client_set h client) cm = (set_client h client cm).0
manager_apply (client_removed h) cm = remove_client h cm
manager_apply (clients_removed hs) cm = remove_clients hs cm
manager_apply (configs_updated dbs) cm = update_database_configs dbs cm
manager_apply all_closed cm = close_all cm

unfoldable pub manager_run : List ManagerOp → ClientManager → ClientManager
manager_run [] cm = cm
manager_run (op ∷ ops) cm = manager_run ops (manager_apply op cm)
