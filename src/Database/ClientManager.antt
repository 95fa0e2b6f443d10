-- ===== src/Database/ClientManager.antt =====
-- internal/database/client_manager.go: the clients of each token, by database. A client is a number,
-- its identity; the manager's state carries the list of those that have been closed, the oldest
-- first, since closing one is seen through every reference to it. The attempt to connect is an
-- argument of the call.
pub mod Reload
pub mod Changes
pub mod Ops
pub mod NoLeak
pub mod Kept
pub mod Isolated
pub mod Affected
pub mod Revoked
use pgedge_postgres_mcp.Prelude.{
  ℕ, String, Bool, true, false, not, ◌||◌, Option, none, some, List, [], ◌∷◌, ◌++◌, str_eq, ◌==◌,
  if◌then◌else◌,
}
use pgedge_postgres_mcp.GoMap.{GoMap, get, put}
use pgedge_postgres_mcp.Database.Settings.{NamedDatabaseConfig}

pub record ClientManager : Type 0 where
  pub clients : GoMap (GoMap ℕ)
  pub db_configs : GoMap NamedDatabaseConfig
  pub current_db : GoMap String
  pub default_db_name : String
  pub closed : List ℕ

pub data ManagerError : Type 0 where
  key_required : ManagerError
  name_required : ManagerError
  client_required : ManagerError
  not_configured : String → ManagerError
  no_connection : ManagerError
  connect_failed : String → ManagerError
  metadata_failed : String → ManagerError

pub data ClientResult : Type 0 where
  client_is : ℕ → ClientResult
  no_client : ManagerError → ClientResult

-- `NewClient`, `Connect` and `LoadMetadata`: the new client and how far it came
pub data Connection : Type 0 where
  unconnected : ℕ → Connection
  without_metadata : ℕ → Connection
  connected : ℕ → Connection

-- The names and settings of the list, the last one of a name, and the first name that is not empty
abbrev pub config_map :
    List NamedDatabaseConfig → GoMap NamedDatabaseConfig → GoMap NamedDatabaseConfig
config_map [] m = m
config_map (db ∷ dbs) m = config_map dbs (put db.name db m)

abbrev pub first_name : List NamedDatabaseConfig → String
first_name [] = ""
first_name (db ∷ dbs) = if str_eq db.name "" then first_name dbs else db.name

-- `NewClientManager`
abbrev pub new_client_manager : List NamedDatabaseConfig → ClientManager
new_client_manager databases = record {
  clients = [];
  db_configs = config_map databases [];
  current_db = [];
  default_db_name = first_name databases;
  closed = [];
}

-- `NewClientManagerWithConfig`
abbrev pub new_client_manager_with_config : Option NamedDatabaseConfig → ClientManager
new_client_manager_with_config none = record {
  clients = [];
  db_configs = [];
  current_db = [];
  default_db_name = "";
  closed = [];
}
new_client_manager_with_config (some db) =
    let name = if str_eq db.name "" then "default" else db.name in
    record {
      clients = [];
      db_configs = (name, db) ∷ [];
      current_db = [];
      default_db_name = name;
      closed = [];
    }

-- `IsClosed`
abbrev pub is_closed : ℕ → List ℕ → Bool
is_closed c [] = false
is_closed c (d ∷ ds) = (d == c) || is_closed c ds

-- The clients of a token, none where it has no entry
abbrev pub clients_of : String → GoMap (GoMap ℕ) → GoMap ℕ
clients_of token_hash m = elim (get token_hash m) [ none ↦ [] | some inner ↦ inner ]

-- `client, exists := tokenClients[dbName]; exists && !client.IsClosed()`
unfoldable pub open_client : String → String → ClientManager → Option ℕ
open_client token_hash db_name cm = elim (get db_name (clients_of token_hash cm.clients)) [
  | none ↦ none
  | some c ↦ if is_closed c cm.closed then none else some c
]

-- `cm.clients[tokenHash][dbName] = client`
abbrev pub install : String → String → ℕ → GoMap (GoMap ℕ) → GoMap (GoMap ℕ)
install token_hash db_name c m = put token_hash (put db_name c (clients_of token_hash m)) m

-- What follows `NewClient`
abbrev pub connect : String → String → Connection → ClientManager → ClientManager × ClientResult
connect token_hash db_name (unconnected c) cm = (cm, no_client (connect_failed db_name))
connect token_hash db_name (without_metadata c) cm =
    (record cm { closed = cm.closed ++ c ∷ [] }, no_client (metadata_failed db_name))
connect token_hash db_name (connected c) cm =
    (record cm { clients = install token_hash db_name c cm.clients }, client_is c)

-- What follows the first look, under the write lock: the second look, and the connection
unfoldable pub locked_open :
    String → String → Connection → ClientManager → ClientManager × ClientResult
unfolding open_client
locked_open token_hash db_name attempt cm = elim (open_client token_hash db_name cm) [
  | some c ↦ (cm, client_is c)
  | none ↦ connect token_hash db_name attempt cm
]

-- `GetClientForDatabase`, where no other call comes between the two locks; one that comes between
-- them is followed by `locked_open` alone
unfoldable pub get_client_for_database :
    String → String → Connection → ClientManager → ClientManager × ClientResult
unfolding open_client locked_open
get_client_for_database token_hash name attempt cm =
    if str_eq token_hash ""
    then (cm, no_client key_required)
    else let db_name = if str_eq name "" then cm.default_db_name else name in
      elim (open_client token_hash db_name cm) [
        | some c ↦ (cm, client_is c)
        | none ↦ elim (get db_name cm.db_configs) [
          | none ↦ (cm, no_client (not_configured db_name))
          | some db ↦ locked_open token_hash db_name attempt cm
        ]
      ]

-- `GetCurrentDatabase`
unfoldable pub get_current_database : String → ClientManager → String
get_current_database token_hash cm = elim (get token_hash cm.current_db) [
  | none ↦ cm.default_db_name
  | some name ↦ name
]

-- `GetClient`
unfoldable pub get_client : String → Connection → ClientManager → ClientManager × ClientResult
unfolding get_client_for_database get_current_database
get_client token_hash attempt cm =
    if str_eq token_hash ""
    then (cm, no_client key_required)
    else get_client_for_database token_hash (get_current_database token_hash cm) attempt cm

-- `GetOrCreateClient`
unfoldable pub get_or_create_client :
    String → Bool → Connection → ClientManager → ClientManager × ClientResult
unfolding open_client get_current_database locked_open
get_or_create_client key auto_connect attempt cm =
    if str_eq key ""
    then (cm, no_client key_required)
    else let db_name = get_current_database key cm in
      elim (open_client key db_name cm) [
        | some c ↦ (cm, client_is c)
        | none ↦
            if not auto_connect
            then (cm, no_client no_connection)
            else elim (get db_name cm.db_configs) [
              | none ↦ (cm, no_client (not_configured db_name))
              | some db ↦ locked_open key db_name attempt cm
            ]
      ]

-- `IsConnected`
unfoldable pub is_connected : String → String → ClientManager → Bool
unfolding open_client
is_connected token_hash db_name cm = elim (open_client token_hash db_name cm) [
  | none ↦ false
  | some c ↦ true
]
