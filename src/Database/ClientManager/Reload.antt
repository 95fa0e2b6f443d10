-- ===== src/Database/ClientManager/Reload.antt =====
-- internal/database/client_manager.go: `UpdateDatabaseConfigs`.
use pgedge_postgres_mcp.Prelude.{
  ℕ, String, Bool, false, Option, none, some, List, [], ◌∷◌, ◌++◌, str_eq, if◌then◌else◌,
}
use pgedge_postgres_mcp.GoMap.{GoMap, has, get, put, delete}
use pgedge_postgres_mcp.Database.ClientManager.{ClientManager, config_map, first_name}
use pgedge_postgres_mcp.Database.Settings.{NamedDatabaseConfig, database_config_changed}

-- The clients to one database, taken from every token
unfoldable pub drop_database : String → GoMap (GoMap ℕ) → GoMap (GoMap ℕ)
drop_database name [] = []
drop_database name ((h, inner) ∷ m) = (h, delete name inner) ∷ drop_database name m

unfoldable pub dropped_clients : String → GoMap (GoMap ℕ) → List ℕ
dropped_clients name [] = []
dropped_clients name ((h, inner) ∷ m) =
    let rest = dropped_clients name m in elim (get name inner) [ none ↦ rest | some c ↦ c ∷ rest ]

-- Both, in the manager
unfoldable pub close_database : String → ClientManager → ClientManager
unfolding drop_database dropped_clients
close_database name cm = record cm {
  clients = drop_database name cm.clients;
  closed = cm.closed ++ dropped_clients name cm.clients;
}

-- `cm.currentDB[tokenHash]`, the empty text on a missing key
abbrev pub current_of : String → GoMap String → String
current_of h m = elim (get h m) [ none ↦ "" | some name ↦ name ]

-- The tokens of the client map whose current database was removed
unfoldable pub redirect_current : String → String → GoMap (GoMap ℕ) → GoMap String → GoMap String
redirect_current name new_default [] current = current
redirect_current name new_default ((h, inner) ∷ m) current =
    redirect_current name new_default m
      (if str_eq (current_of h current) name then put h new_default current else current)

-- A database that was removed
abbrev pub database_removed : String → String → ClientManager → ClientManager
database_removed name new_default cm = record (close_database name cm) {
  current_db = redirect_current name new_default cm.clients cm.current_db;
}

-- The first loop over the old configurations
unfoldable pub close_removed :
    GoMap NamedDatabaseConfig → GoMap NamedDatabaseConfig → String → ClientManager → ClientManager
close_removed [] new_configs new_default cm = cm
close_removed ((name, old) ∷ m) new_configs new_default cm =
    close_removed m new_configs new_default
      (if has name new_configs then cm else database_removed name new_default cm)

-- Whether a database was removed, or its settings have changed
unfoldable pub is_changed : NamedDatabaseConfig → Option NamedDatabaseConfig → Bool
is_changed old none = false
is_changed old (some new) = database_config_changed old new

-- The second loop
unfoldable pub close_changed :
    GoMap NamedDatabaseConfig → GoMap NamedDatabaseConfig → ClientManager → ClientManager
unfolding is_changed
close_changed [] new_configs cm = cm
close_changed ((name, old) ∷ m) new_configs cm =
    close_changed m new_configs
      (if is_changed old (get name new_configs) then close_database name cm else cm)

-- `UpdateDatabaseConfigs`
unfoldable pub update_database_configs : List NamedDatabaseConfig → ClientManager → ClientManager
unfolding close_removed close_changed
update_database_configs databases cm =
    let new_configs = config_map databases [] in
    let swept =
      close_changed cm.db_configs new_configs
        (close_removed cm.db_configs new_configs (first_name databases) cm) in
    record swept { db_configs = new_configs; default_db_name = first_name databases }
