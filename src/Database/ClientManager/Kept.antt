-- ===== src/Database/ClientManager/Kept.antt =====
-- Every operation of the manager keeps or closes the clients that it finds.
pub mod Changes
use pgedge_postgres_mcp.Database.ClientManager.Kept.Changes.{
  current-KeptOrClosed, others-KeptOrClosed, set-KeptOrClosed, remove-KeptOrClosed,
  removes-KeptOrClosed, close_all-KeptOrClosed,
}
use pgedge_postgres_mcp.Prelude.{
  ℕ, String, ◌≡◌, sym, inl, inr, true, Option, some, List, [], ◌∷◌, arith, eq_iff, str_eq,
  if◌then◌else◌, Bool-cases, subst,
}
use pgedge_postgres_mcp.GoMap.{GoMap, get, has}
use pgedge_postgres_mcp.Database.ClientManager.{
  ClientManager, is_closed, config_map, first_name, get_client, get_current_database, Connection,
  key_required, no_client, get_client_for_database,
}
use pgedge_postgres_mcp.Database.ClientManager.Changes.{set_client_for_database, set_client}
use pgedge_postgres_mcp.Database.ClientManager.NoLeak.{
  KeptOrClosed, still_closed, newly_closed, dropped_clients-get, clients_of-drop_database,
  get-KeptOrClosed, get_or_create-KeptOrClosed, locked_open-KeptOrClosed,
}
use pgedge_postgres_mcp.Database.ClientManager.Reload.{
  close_database, close_changed, close_removed, dropped_clients, is_changed,
  update_database_configs,
}
use pgedge_postgres_mcp.Database.Settings.{NamedDatabaseConfig}
use pgedge_postgres_mcp.Database.ClientManager.Ops.{
  ManagerOp, manager_apply, manager_run, client_for_database, client_of, client_or_create,
  current_database, current_and_close_others, client_set_for_database, client_set, client_removed,
  clients_removed, configs_updated, all_closed, client_locked,
}

module _ (h name : String) (c : ℕ) where
  close_database-KeptOrClosed :
      (db : String) (cm : ClientManager)
      → KeptOrClosed h name c cm
      → KeptOrClosed h name c (close_database db cm)
  unfolding close_database
  close_database-KeptOrClosed db cm (inr over) =
      inr (still_closed h name c cm (dropped_clients db cm.clients) over)
  close_database-KeptOrClosed db cm (inl kept) = elim (Bool-cases (str_eq db name)) [
    | inl same ↦ inr (
        newly_closed c cm.closed (dropped_clients db cm.clients) (
          subst (λ x. is_closed c (dropped_clients x cm.clients) ≡ true)
            (sym ((eq_iff db name).0 same)) (dropped_clients-get h name c cm.clients kept)))
    | inr other ↦ inl (ground (arith, clients_of-drop_database h db name cm.clients, other, kept))
  ]

  close_removed-KeptOrClosed :
      (old new : GoMap NamedDatabaseConfig) (d : String) (cm : ClientManager)
      → KeptOrClosed h name c cm
      → KeptOrClosed h name c (close_removed old new d cm)
  unfolding close_removed
  close_removed-KeptOrClosed [] new d cm p = p
  close_removed-KeptOrClosed ((db, s) ∷ old) new d cm p =
      close_removed-KeptOrClosed old new d _ (elim (Bool-cases (has db new)) [
        | inl stays ↦ rw stays p
        | inr goes ↦ rw goes (close_database-KeptOrClosed db cm p)
      ])

  close_changed-KeptOrClosed :
      (old new : GoMap NamedDatabaseConfig) (cm : ClientManager)
      → KeptOrClosed h name c cm
      → KeptOrClosed h name c (close_changed old new cm)
  unfolding close_changed
  close_changed-KeptOrClosed [] new cm p = p
  close_changed-KeptOrClosed ((db, s) ∷ old) new cm p =
      close_changed-KeptOrClosed old new _ (elim (Bool-cases (is_changed s (get db new))) [
        | inl other ↦ rw other (close_database-KeptOrClosed db cm p)
        | inr same ↦ rw same p
      ])

  pub update-KeptOrClosed :
      (dbs : List NamedDatabaseConfig) (cm : ClientManager)
      → KeptOrClosed h name c cm
      → KeptOrClosed h name c (update_database_configs dbs cm)
  unfolding update_database_configs
  update-KeptOrClosed dbs cm p =
      close_changed-KeptOrClosed cm.db_configs (config_map dbs []) _
        (close_removed-KeptOrClosed cm.db_configs (config_map dbs []) (first_name dbs) cm p)

  get_client-KeptOrClosed :
      (k : String) (attempt : Connection) (cm : ClientManager)
      → KeptOrClosed h name c cm
      → KeptOrClosed h name c (get_client k attempt cm).0
  get_client-KeptOrClosed k attempt cm p = elim (Bool-cases (str_eq k "")) [
    | inl anonymous ↦
        let is : get_client k attempt cm ≡ (cm, no_client key_required) =
          unfold get_client in ground (arith, anonymous) in
        subst (λ x. KeptOrClosed h name c x.0) (sym is) p
    | inr named ↦
        let db = get_current_database k cm in
        let is : get_client k attempt cm ≡ get_client_for_database k db attempt cm =
          unfold get_client in ground (arith, named) in
        subst (λ x. KeptOrClosed h name c x.0) (sym is)
          (get-KeptOrClosed h name c k db attempt cm p)
  ]

  set_client-KeptOrClosed :
      (k : String) (client : Option ℕ) (cm : ClientManager)
      → KeptOrClosed h name c cm
      → KeptOrClosed h name c (set_client k client cm).0
  set_client-KeptOrClosed k client cm p = elim (Bool-cases (str_eq k "")) [
    | inl anonymous ↦
        let is : set_client k client cm ≡ (cm, some key_required) =
          unfold set_client in ground (arith, anonymous) in
        subst (λ x. KeptOrClosed h name c x.0) (sym is) p
    | inr named ↦
        let db = if str_eq cm.default_db_name "" then "default" else cm.default_db_name in
        let is : set_client k client cm ≡ set_client_for_database k db client cm =
          unfold set_client in ground (arith, named) in
        subst (λ x. KeptOrClosed h name c x.0) (sym is) (set-KeptOrClosed h name c k db client cm p)
  ]

  manager_apply-KeptOrClosed :
      (op : ManagerOp) (cm : ClientManager)
      → KeptOrClosed h name c cm
      → KeptOrClosed h name c (manager_apply op cm)
  unfolding manager_apply
  manager_apply-KeptOrClosed (client_for_database k db attempt) cm p =
      get-KeptOrClosed h name c k db attempt cm p
  manager_apply-KeptOrClosed (client_of k attempt) cm p = get_client-KeptOrClosed k attempt cm p
  manager_apply-KeptOrClosed (client_or_create k auto attempt) cm p =
      get_or_create-KeptOrClosed h name c k auto attempt cm p
  manager_apply-KeptOrClosed (client_locked k db attempt) cm p =
      locked_open-KeptOrClosed h name c k db attempt cm p
  manager_apply-KeptOrClosed (current_database k db) cm p = current-KeptOrClosed h name c k db cm p
  manager_apply-KeptOrClosed (current_and_close_others k db) cm p =
      others-KeptOrClosed h name c k db cm p
  manager_apply-KeptOrClosed (client_set_for_database k db client) cm p =
      set-KeptOrClosed h name c k db client cm p
  manager_apply-KeptOrClosed (client_set k client) cm p = set_client-KeptOrClosed k client cm p
  manager_apply-KeptOrClosed (client_removed k) cm p = remove-KeptOrClosed h name c k cm p
  manager_apply-KeptOrClosed (clients_removed ks) cm p = removes-KeptOrClosed h name c ks cm p
  manager_apply-KeptOrClosed (configs_updated dbs) cm p = update-KeptOrClosed dbs cm p
  manager_apply-KeptOrClosed all_closed cm p = close_all-KeptOrClosed h name c cm p

  -- A client that the manager holds for a token and a database is, after any sequence of
  -- operations, still held for them or closed: none is lost while it is open.
  pub manager_run-KeptOrClosed :
      (ops : List ManagerOp) (cm : ClientManager)
      → KeptOrClosed h name c cm
      → KeptOrClosed h name c (manager_run ops cm)
  unfolding manager_run
  manager_run-KeptOrClosed [] cm p = p
  manager_run-KeptOrClosed (op ∷ ops) cm p =
      manager_run-KeptOrClosed ops (manager_apply op cm) (manager_apply-KeptOrClosed op cm p)
