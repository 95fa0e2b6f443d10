-- ===== src/Database/ClientManager/Isolated.antt =====
-- What a token gets from the manager, and what it leaves to the others.
use pgedge_postgres_mcp.Prelude.{ℕ, String, ◌≡◌, ◌≢◌, some}
use pgedge_postgres_mcp.GoMap.{get}
use pgedge_postgres_mcp.Database.ClientManager.{
  ClientManager, Connection, unconnected, without_metadata, client_is, open_client, connected,
  ClientResult,
}

abbrev new_client : Connection → ℕ
new_client (unconnected c) = c
new_client (without_metadata c) = c
new_client (connected c) = c

-- The answer `r` to token `h`: a client is the open one on file for the database, and the clients of
-- the other tokens are as in `cm`.
pub record Serves (h db : String) (cm : ClientManager) (r : ClientManager × ClientResult)
    : Type 0 where
  pub opened : (c : ℕ) → r.1 ≡ client_is c → open_client h db r.0 ≡ some c
  pub isolated : (other : String) → other ≢ h → get other r.0.clients ≡ get other cm.clients
