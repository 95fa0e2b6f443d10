-- ===== src/Database/Settings.antt =====
-- internal/config/config.go: the settings of a database, and internal/database/client_manager.go: the
-- comparison of two of them. A nil slice of hosts is `none`, since the comparison tells it from an
-- empty one; numbers are not negative.
pub mod Same
use pgedge_postgres_mcp.Prelude.{
  ℕ, String, Bool, true, false, not, ◌&&◌, ◌||◌, Option, none, some, List, [], ◌∷◌, str_eq, ◌==◌,
}

pub record HostEntry : Type 0 where
  pub host : String
  pub port : ℕ

pub record NamedDatabaseConfig : Type 0 where
  pub name : String
  pub host : String
  pub port : ℕ
  pub database : String
  pub user : String
  pub password : String
  pub ssl_mode : String
  pub ssl_cert : String
  pub ssl_key : String
  pub ssl_root_cert : String
  pub hosts : Option (List HostEntry)
  pub target_session_attrs : String
  pub available_to_users : List String
  pub allow_writes : Bool
  pub allow_llm_switching : Option Bool
  pub allowed_pl_languages : List String
  pub pool_max_conns : ℕ
  pub pool_min_conns : ℕ
  pub pool_max_conn_idle_time : String
  pub pool_health_check_period : String
  pub pool_max_conn_lifetime : String
  pub connect_timeout : String
  pub metadata_ttl : String

pub same_bool : Bool → Bool → Bool
same_bool true b = b
same_bool false b = not b

-- `reflect.DeepEqual` on the hosts
pub same_entries : List HostEntry → List HostEntry → Bool
same_entries [] [] = true
same_entries [] (b ∷ bs) = false
same_entries (a ∷ es) [] = false
same_entries (a ∷ es) (b ∷ bs) =
    str_eq (HostEntry.host a) (HostEntry.host b)
    && (HostEntry.port a == HostEntry.port b)
    && same_entries es bs

unfoldable pub same_hosts : Option (List HostEntry) → Option (List HostEntry) → Bool
unfolding same_entries
same_hosts none none = true
same_hosts none (some bs) = false
same_hosts (some es) none = false
same_hosts (some es) (some bs) = same_entries es bs

-- `databaseConfigChanged`
unfoldable pub database_config_changed : NamedDatabaseConfig → NamedDatabaseConfig → Bool
unfolding same_bool same_hosts
database_config_changed old new =
    not (str_eq old.host new.host)
    || not (old.port == new.port)
    || not (str_eq old.database new.database)
    || not (str_eq old.user new.user)
    || not (str_eq old.password new.password)
    || not (str_eq old.ssl_mode new.ssl_mode)
    || not (str_eq old.ssl_cert new.ssl_cert)
    || not (str_eq old.ssl_key new.ssl_key)
    || not (str_eq old.ssl_root_cert new.ssl_root_cert)
    || not (str_eq old.target_session_attrs new.target_session_attrs)
    || not (same_bool old.allow_writes new.allow_writes)
    || not (old.pool_max_conns == new.pool_max_conns)
    || not (old.pool_min_conns == new.pool_min_conns)
    || not (str_eq old.pool_max_conn_idle_time new.pool_max_conn_idle_time)
    || not (str_eq old.pool_health_check_period new.pool_health_check_period)
    || not (str_eq old.pool_max_conn_lifetime new.pool_max_conn_lifetime)
    || not (str_eq old.connect_timeout new.connect_timeout)
    || not (str_eq old.metadata_ttl new.metadata_ttl)
    || not (same_hosts old.hosts new.hosts)
