-- ===== src/Database.antt =====
-- internal/database: the connections of each token to each database.
pub mod Settings
pub mod ClientManager
