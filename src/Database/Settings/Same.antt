-- ===== src/Database/Settings/Same.antt =====
-- Which settings of a database its connections depend on.
use pgedge_postgres_mcp.Prelude.{
  ◌≡◌, refl, sym, ap, Bool, true, false, false≢true, Option, none, some, List, [], ◌∷◌, arith,
  eq_iff, eq_refl,
}
use pgedge_postgres_mcp.Database.Settings.{
  NamedDatabaseConfig, HostEntry, database_config_changed, same_hosts, same_entries, same_bool,
}

-- Two settings of a database that give the same connections: they agree on all but its name and on
-- who and what may use it.
pub record SameConnection (a b : NamedDatabaseConfig) : Type 0 where
  pub same_host : a.host ≡ b.host
  pub same_port : a.port ≡ b.port
  pub same_database : a.database ≡ b.database
  pub same_user : a.user ≡ b.user
  pub same_password : a.password ≡ b.password
  pub same_ssl_mode : a.ssl_mode ≡ b.ssl_mode
  pub same_ssl_cert : a.ssl_cert ≡ b.ssl_cert
  pub same_ssl_key : a.ssl_key ≡ b.ssl_key
  pub same_ssl_root_cert : a.ssl_root_cert ≡ b.ssl_root_cert
  pub same_target_session_attrs : a.target_session_attrs ≡ b.target_session_attrs
  pub same_allow_writes : a.allow_writes ≡ b.allow_writes
  pub same_pool_max_conns : a.pool_max_conns ≡ b.pool_max_conns
  pub same_pool_min_conns : a.pool_min_conns ≡ b.pool_min_conns
  pub same_pool_max_conn_idle_time : a.pool_max_conn_idle_time ≡ b.pool_max_conn_idle_time
  pub same_pool_health_check_period : a.pool_health_check_period ≡ b.pool_health_check_period
  pub same_pool_max_conn_lifetime : a.pool_max_conn_lifetime ≡ b.pool_max_conn_lifetime
  pub same_connect_timeout : a.connect_timeout ≡ b.connect_timeout
  pub same_metadata_ttl : a.metadata_ttl ≡ b.metadata_ttl
  pub same_hosts : a.hosts ≡ b.hosts

same_entries_eq : (es bs : List HostEntry) → same_entries es bs ≡ true → es ≡ bs
unfolding same_entries
same_entries_eq [] [] e = refl
same_entries_eq [] (b ∷ bs) e = absurd (false≢true e)
same_entries_eq (a ∷ es) [] e = absurd (false≢true e)
same_entries_eq (a ∷ es) (b ∷ bs) e = ground (arith, eq_iff a.host b.host, same_entries_eq es bs)

same_entries_refl : (es : List HostEntry) → same_entries es es ≡ true
unfolding same_entries
same_entries_refl [] = refl
same_entries_refl (a ∷ es) = ground (arith, eq_refl a.host, same_entries_refl es)

same_hosts_eq : (x y : Option (List HostEntry)) → same_hosts x y ≡ true → x ≡ y
unfolding same_hosts
same_hosts_eq none none e = refl
same_hosts_eq none (some bs) e = absurd (false≢true e)
same_hosts_eq (some es) none e = absurd (false≢true e)
same_hosts_eq (some es) (some bs) e = ap some (same_entries_eq es bs e)

same_hosts_refl : (x : Option (List HostEntry)) → same_hosts x x ≡ true
unfolding same_hosts
same_hosts_refl none = refl
same_hosts_refl (some es) = same_entries_refl es

same_bool_eq : (a b : Bool) → same_bool a b ≡ true → a ≡ b
unfolding same_bool
same_bool_eq true b e = sym e
same_bool_eq false b e = ground arith

same_bool_refl : (a : Bool) → same_bool a a ≡ true
unfolding same_bool
same_bool_refl true = refl
same_bool_refl false = refl

-- Settings that are not reported as changed give the same connections.
pub unchanged_is_same :
    (a b : NamedDatabaseConfig) → database_config_changed a b ≡ false → SameConnection a b
unfolding database_config_changed
unchanged_is_same a b e = record {
  same_host = (eq_iff a.host b.host).0 (ground (arith, e));
  same_port = ground (arith, e);
  same_database = (eq_iff a.database b.database).0 (ground (arith, e));
  same_user = (eq_iff a.user b.user).0 (ground (arith, e));
  same_password = (eq_iff a.password b.password).0 (ground (arith, e));
  same_ssl_mode = (eq_iff a.ssl_mode b.ssl_mode).0 (ground (arith, e));
  same_ssl_cert = (eq_iff a.ssl_cert b.ssl_cert).0 (ground (arith, e));
  same_ssl_key = (eq_iff a.ssl_key b.ssl_key).0 (ground (arith, e));
  same_ssl_root_cert = (eq_iff a.ssl_root_cert b.ssl_root_cert).0 (ground (arith, e));
  same_target_session_attrs =
      (eq_iff a.target_session_attrs b.target_session_attrs).0 (ground (arith, e));
  same_allow_writes = same_bool_eq a.allow_writes b.allow_writes (ground (arith, e));
  same_pool_max_conns = ground (arith, e);
  same_pool_min_conns = ground (arith, e);
  same_pool_max_conn_idle_time =
      (eq_iff a.pool_max_conn_idle_time b.pool_max_conn_idle_time).0 (ground (arith, e));
  same_pool_health_check_period =
      (eq_iff a.pool_health_check_period b.pool_health_check_period).0 (ground (arith, e));
  same_pool_max_conn_lifetime =
      (eq_iff a.pool_max_conn_lifetime b.pool_max_conn_lifetime).0 (ground (arith, e));
  same_connect_timeout = (eq_iff a.connect_timeout b.connect_timeout).0 (ground (arith, e));
  same_metadata_ttl = (eq_iff a.metadata_ttl b.metadata_ttl).0 (ground (arith, e));
  same_hosts = same_hosts_eq a.hosts b.hosts (ground (arith, e));
}

-- Settings that give the same connections are not reported as changed.
pub same_is_unchanged :
    (a b : NamedDatabaseConfig) → SameConnection a b → database_config_changed a b ≡ false
unfolding database_config_changed
same_is_unchanged a b s =
    rw
      (
        ← s.same_host,
        ← s.same_port,
        ← s.same_database,
        ← s.same_user,
        ← s.same_password,
        ← s.same_ssl_mode,
        ← s.same_ssl_cert,
        ← s.same_ssl_key,
        ← s.same_ssl_root_cert,
        ← s.same_target_session_attrs,
        ← s.same_allow_writes,
        ← s.same_pool_max_conns,
        ← s.same_pool_min_conns,
        ← s.same_pool_max_conn_idle_time,
        ← s.same_pool_health_check_period,
        ← s.same_pool_max_conn_lifetime,
        ← s.same_connect_timeout,
        ← s.same_metadata_ttl,
        ← s.same_hosts,
      )
      (ground (
        arith,
        eq_refl a.host,
        eq_refl a.database,
        eq_refl a.user,
        eq_refl a.password,
        eq_refl a.ssl_mode,
        eq_refl a.ssl_cert,
        eq_refl a.ssl_key,
        eq_refl a.ssl_root_cert,
        eq_refl a.target_session_attrs,
        eq_refl a.pool_max_conn_idle_time,
        eq_refl a.pool_health_check_period,
        eq_refl a.pool_max_conn_lifetime,
        eq_refl a.connect_timeout,
        eq_refl a.metadata_ttl,
        same_bool_refl a.allow_writes,
        same_hosts_refl a.hosts,
      ))
