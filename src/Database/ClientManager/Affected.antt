-- ===== src/Database/ClientManager/Affected.antt =====
-- Which connections a reload of the configuration closes.
use pgedge_postgres_mcp.Prelude.{
  ℕ, String, ◌≡◌, refl, sym, ◌∙◌, ◌⊎◌, inl, inr, Bool, true, false, not, ◌&&◌, ◌||◌, false≢true,
  none, some, List, [], ◌∷◌, arith, eq_iff, str_eq, if◌then◌else◌, Bool-cases, Option-cases,
  some_not_none,
}
use pgedge_postgres_mcp.GoMap.{GoMap, get, Distinct, has}
use pgedge_postgres_mcp.Database.ClientManager.{
  ClientManager, clients_of, config_map, is_closed, first_name,
}
use pgedge_postgres_mcp.Database.Settings.{NamedDatabaseConfig, database_config_changed}
use pgedge_postgres_mcp.Database.Settings.Same.{
  SameConnection, unchanged_is_same, same_is_unchanged,
}
use pgedge_postgres_mcp.Database.ClientManager.Reload.{
  close_database, close_changed, close_removed, is_changed, database_removed,
  update_database_configs,
}
use pgedge_postgres_mcp.GoMap.Distinct.{holds}
use pgedge_postgres_mcp.Database.ClientManager.NoLeak.{clients_of-drop_database}
use pgedge_postgres_mcp.GoMap.Laws.{get-none-has, has-none, has-get}
use pgedge_postgres_mcp.Database.ClientManager.Kept.{update-KeptOrClosed}

-- The database was configured, and is so no more or with other settings.
abbrev pub is_affected : String → GoMap NamedDatabaseConfig → GoMap NamedDatabaseConfig → Bool
is_affected name old new = elim (get name old) [
  | none ↦ false
  | some s ↦ not (has name new) || is_changed s (get name new)
]

-- The client to a database, as it is after a step that may close the database.
after_step :
    (h name k : String) (b : Bool) (cm : ClientManager)
    → get k (clients_of h (if b then close_database name cm else cm).clients)
      ≡ (if b && str_eq name k then none else get k (clients_of h cm.clients))
unfolding close_database
after_step h name k true cm = clients_of-drop_database h name k cm.clients
after_step h name k false cm = refl

close_removed-get :
    (h k : String) (old new : GoMap NamedDatabaseConfig) (d : String) (cm : ClientManager)
    → get k (clients_of h (close_removed old new d cm).clients)
      ≡ (if has k old && not (has k new) then none else get k (clients_of h cm.clients))
unfolding close_removed has
close_removed-get h k [] new d cm = refl
close_removed-get h k ((name, s) ∷ old) new d cm = elim (Bool-cases (has name new)) [
  | inl stays ↦ ground (arith, stays, close_removed-get h k old new d cm, eq_iff name k)
  | inr goes ↦ ground (
    arith,
    goes,
    close_removed-get h k old new d (database_removed name d cm),
    after_step h name k true cm,
    eq_iff name k,
  )
]

close_changed-get :
    (h k : String) (old new : GoMap NamedDatabaseConfig) (cm : ClientManager)
    → Distinct old
    → get k (clients_of h (close_changed old new cm).clients) ≡ (
        if holds (λ s. is_changed s (get k new)) (get k old)
        then none
        else get k (clients_of h cm.clients))
unfolding close_changed get
close_changed-get h k [] new cm u = refl
close_changed-get h k ((name, s) ∷ old) new cm u =
    let b = is_changed s (get name new) in
    ground (
      arith,
      close_changed-get h k old new (if b then close_database name cm else cm) u.1,
      after_step h name k b cm,
      eq_iff name k,
      get-none-has k old,
    )

affected_are_dropped :
    (dbs : List NamedDatabaseConfig) (h name : String) (cm : ClientManager)
    → Distinct cm.db_configs
    → let affected = is_affected name cm.db_configs (config_map dbs []) in
      let before = get name (clients_of h cm.clients) in
      (get name (clients_of h (update_database_configs dbs cm).clients)
        ≡ (if affected then none else before))
      × ((c : ℕ)
          → affected ≡ true
          → before ≡ some c
          → is_closed c (update_database_configs dbs cm).closed ≡ true)
affected_are_dropped dbs h name cm u =
    let new = config_map dbs [] in
    let swept = close_removed cm.db_configs new (first_name dbs) cm in
    let first = close_removed-get h name cm.db_configs new (first_name dbs) cm in
    let second = close_changed-get h name cm.db_configs new swept u in
    let clients_are : get name (clients_of h (update_database_configs dbs cm).clients)
        ≡ get name (clients_of h (close_changed cm.db_configs new swept).clients) =
      unfold update_database_configs in refl in
    let left : get name (clients_of h (update_database_configs dbs cm).clients) ≡ (
        if is_affected name cm.db_configs new then none else get name (clients_of h cm.clients)) =
      elim (Option-cases (get name cm.db_configs)) [
        | inl unknown ↦
            ground (arith, clients_are, first, second, unknown, has-none name cm.db_configs unknown)
        | inr (s, known) ↦
            ground (arith, clients_are, first, second, known, has-get name cm.db_configs s known)
      ] in
    (
      left,
      λ c affected before. elim (update-KeptOrClosed h name c dbs cm (inl before)) [
        | inr over ↦ over
        | inl kept ↦ some_not_none _ c kept (left ∙ rw affected)
      ],
    )

-- The database is configured no more, or with settings that give other connections.
abbrev pub IsAffected : String → GoMap NamedDatabaseConfig → GoMap NamedDatabaseConfig → Type 0
IsAffected name old new =
    (s : NamedDatabaseConfig) × (get name old ≡ some s)
    × ((get name new ≡ none)
        ⊎ ((s' : NamedDatabaseConfig) × (get name new ≡ some s') × ¬ SameConnection s s'))

-- It was not configured, or still is, with settings that give the same connections.
abbrev pub IsUnaffected : String → GoMap NamedDatabaseConfig → GoMap NamedDatabaseConfig → Type 0
IsUnaffected name old new =
    (get name old ≡ none)
    ⊎ ((s : NamedDatabaseConfig) × (s' : NamedDatabaseConfig) × (get name old ≡ some s)
        × (get name new ≡ some s')
        × SameConnection s s')

reload-cases :
    (name : String) (old new : GoMap NamedDatabaseConfig)
    → (IsAffected name old new × (is_affected name old new ≡ true))
      ⊎ (IsUnaffected name old new × (is_affected name old new ≡ false))
unfolding is_changed
reload-cases name old new = elim (Option-cases (get name old)) [
  | inl unknown ↦ inr (inl unknown, rw (unknown, is_affected) refl)
  | inr (s, known) ↦ elim (Option-cases (get name new)) [
    | inl gone ↦ inl ((s, known, inl gone), ground (arith, known, has-none name new gone))
    | inr (s', stays) ↦ elim (Bool-cases (database_config_changed s s')) [
      | inl changed ↦ inl (
        (
          s,
          known,
          inr (s', stays, λ same. false≢true (sym (same_is_unchanged s s' same) ∙ changed)),
        ),
        ground (arith, known, stays, changed),
      )
      | inr unchanged ↦ inr (
        inr (s, s', known, stays, unchanged_is_same s s' unchanged),
        ground (arith, known, stays, unchanged, has-get name new s' stays),
      )
    ]
  ]
]

-- A reload either affects a database, which is then configured no more or with another value of a
-- setting that its connections depend on, and no token holds a client to it any more and every
-- such client is closed; or it does not, and every token holds the client to it that it held
-- before; if the names of the old configuration are distinct.
pub update_database_configs_lem :
    (dbs : List NamedDatabaseConfig) (h name : String) (cm : ClientManager)
    → Distinct cm.db_configs
    → let before = get name (clients_of h cm.clients) in
      let after = get name (clients_of h (update_database_configs dbs cm).clients) in
      (IsAffected name cm.db_configs (config_map dbs [])
        × (after ≡ none)
        × ((c : ℕ) → before ≡ some c → is_closed c (update_database_configs dbs cm).closed ≡ true))
      ⊎ (IsUnaffected name cm.db_configs (config_map dbs []) × (after ≡ before))
update_database_configs_lem dbs h name cm u =
    let (left, closes) = affected_are_dropped dbs h name cm u in
    elim (reload-cases name cm.db_configs (config_map dbs [])) [
      | inl (affected, yes_) ↦ inl (affected, left ∙ rw yes_ refl, λ c held. closes c yes_ held)
      | inr (spared, no_) ↦ inr (spared, left ∙ rw no_ refl)
    ]
