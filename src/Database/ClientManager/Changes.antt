-- ===== src/Database/ClientManager/Changes.antt =====
-- internal/database/client_manager.go: the methods that choose, install and release clients.
use pgedge_postgres_mcp.Prelude.{
  ℕ, ◌+◌, String, Bool, not, Option, none, some, List, [], ◌∷◌, ◌++◌, str_eq, if◌then◌else◌,
}
use pgedge_postgres_mcp.GoMap.{GoMap, get, size, delete, has, put, delete_where}
use pgedge_postgres_mcp.Database.ClientManager.{
  ClientManager, ManagerError, key_required, name_required, client_required, not_configured,
  install, clients_of,
}

-- `SetCurrentDatabase`
unfoldable pub set_current_database :
    String → String → ClientManager → ClientManager × Option ManagerError
set_current_database token_hash db_name cm =
    if str_eq token_hash ""
    then (cm, some key_required)
    else if not (has db_name cm.db_configs)
    then (cm, some (not_configured db_name))
    else (record cm { current_db = put token_hash db_name cm.current_db }, none)

-- The clients of a token's map that a test selects
unfoldable pub clients_where : (String → Bool) → GoMap ℕ → List ℕ
clients_where p [] = []
clients_where p ((db_name, c) ∷ m) =
    let rest = clients_where p m in if p db_name then c ∷ rest else rest

-- `SetCurrentDatabaseAndCloseOthers`
unfoldable pub set_current_database_and_close_others :
    String → String → ClientManager → ClientManager × Option ManagerError
unfolding clients_where
set_current_database_and_close_others token_hash db_name cm =
    if str_eq token_hash ""
    then (cm, some key_required)
    else if not (has db_name cm.db_configs)
    then (cm, some (not_configured db_name))
    else elim (get token_hash cm.clients) [
      | none ↦ (record cm { current_db = put token_hash db_name cm.current_db }, none)
      | some inner ↦ (
        record cm {
          clients =
              put token_hash (delete_where (λ other c. not (str_eq other db_name)) inner)
                cm.clients;
          current_db = put token_hash db_name cm.current_db;
          closed = cm.closed ++ clients_where (λ other. not (str_eq other db_name)) inner;
        },
        none,
      )
    ]

-- The existing client of a pair, which a new one replaces
abbrev pub closed_with : Option ℕ → List ℕ → List ℕ
closed_with none closed = closed
closed_with (some c) closed = closed ++ c ∷ []

-- `SetClientForDatabase`; a nil client is `none`
unfoldable pub set_client_for_database :
    String → String → Option ℕ → ClientManager → ClientManager × Option ManagerError
set_client_for_database key db_name client cm =
    if str_eq key ""
    then (cm, some key_required)
    else if str_eq db_name ""
    then (cm, some name_required)
    else elim client [
      | none ↦ (cm, some client_required)
      | some c ↦ (
        record cm {
          clients = install key db_name c cm.clients;
          closed = closed_with (get db_name (clients_of key cm.clients)) cm.closed;
        },
        none,
      )
    ]

-- `SetClient`
unfoldable pub set_client : String → Option ℕ → ClientManager → ClientManager × Option ManagerError
unfolding set_client_for_database
set_client key client cm =
    if str_eq key ""
    then (cm, some key_required)
    else set_client_for_database key
        (if str_eq cm.default_db_name "" then "default" else cm.default_db_name) client cm

-- Every client of a token's map
abbrev pub all_clients : GoMap ℕ → List ℕ
all_clients [] = []
all_clients ((db_name, c) ∷ m) = c ∷ all_clients m

-- `RemoveClient`
unfoldable pub remove_client : String → ClientManager → ClientManager
remove_client token_hash cm = elim (get token_hash cm.clients) [
  | none ↦ cm
  | some inner ↦ record cm {
    clients = delete token_hash cm.clients;
    current_db = delete token_hash cm.current_db;
    closed = cm.closed ++ all_clients inner;
  }
]

-- `RemoveClients`; the clients are closed in the order in which they were detached
unfoldable pub remove_clients : List String → ClientManager → ClientManager
unfolding remove_client
remove_clients [] cm = cm
remove_clients (h ∷ hs) cm = remove_clients hs (remove_client h cm)

abbrev pub every_client : GoMap (GoMap ℕ) → List ℕ
every_client [] = []
every_client ((h, inner) ∷ m) = all_clients inner ++ every_client m

-- `CloseAll`
unfoldable pub close_all : ClientManager → ClientManager
close_all cm = record cm {
  clients = [];
  current_db = [];
  closed = cm.closed ++ every_client cm.clients;
}

-- `GetClientCount`
abbrev pub count_clients : GoMap (GoMap ℕ) → ℕ
count_clients [] = 0
count_clients ((h, inner) ∷ m) = size inner + count_clients m
