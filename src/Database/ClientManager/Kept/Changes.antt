-- ===== src/Database/ClientManager/Kept/Changes.antt =====
-- The methods that choose, install and release clients keep or close those that they find.
use pgedge_postgres_mcp.Prelude.{
  ℕ, String, ◌≡◌, sym, ap, ◌∙◌, ◌⊎◌, inl, inr, false, not, Option, some, List, [], ◌∷◌, ◌++◌, arith,
  eq_iff, str_eq, Bool-cases, Option-cases, some_not_none,
}
use pgedge_postgres_mcp.GoMap.{GoMap, get, delete_where, has, put}
use pgedge_postgres_mcp.Database.ClientManager.{ClientManager, install, clients_of}
use pgedge_postgres_mcp.Database.ClientManager.Changes.{
  remove_client, remove_clients, set_client_for_database, set_current_database_and_close_others,
  close_all, set_current_database, closed_with, every_client, all_clients, clients_where,
}
use pgedge_postgres_mcp.Database.ClientManager.NoLeak.{
  KeptOrClosed, still_closed, install-keeps, newly_closed, all_clients-get, every_client-get,
  clients_where-get,
}
use pgedge_postgres_mcp.GoMap.Laws.{get-delete, get-put}

module _ (h name : String) (c : ℕ) where
  pub current-KeptOrClosed :
      (k db : String) (cm : ClientManager)
      → KeptOrClosed h name c cm
      → KeptOrClosed h name c (set_current_database k db cm).0
  unfolding set_current_database
  current-KeptOrClosed k db cm p = elim (Bool-cases (str_eq k "")) [
    | inl anonymous ↦ rw anonymous p
    | inr named ↦ elim (Bool-cases (has db cm.db_configs)) [
      | inl known ↦ rw (named, known) p
      | inr unknown ↦ rw (named, unknown) p
    ]
  ]

  -- What stays of a token's clients where those of other databases are deleted.
  get-others :
      (db : String) (m : GoMap ℕ)
      → get name m ≡ some c
      → (str_eq name db ≡ false)
        ⊎ (get name (delete_where (λ other d. not (str_eq other db)) m) ≡ some c)
  unfolding get delete_where
  get-others db [] e = cc
  get-others db ((k, d) ∷ m) e = elim (Bool-cases (str_eq k name)) [
    | inl here ↦ elim (Bool-cases (str_eq name db)) [
      | inr other ↦ inl other
      | inl same ↦ inr (ground (arith, here, same, eq_iff k name, eq_iff name db))
    ]
    | inr there ↦ elim (get-others db m (ground arith)) [
      | inl other ↦ inl other
      | inr stays ↦ inr (ground (arith, there, stays))
    ]
  ]

  narrowed-KeptOrClosed :
      (k db : String) (inner : GoMap ℕ) (current : GoMap String) (cm : ClientManager)
      → get k cm.clients ≡ some inner
      → KeptOrClosed h name c cm
      → KeptOrClosed h name c (record cm {
        clients = put k (delete_where (λ other d. not (str_eq other db)) inner) cm.clients;
        current_db = current;
        closed = cm.closed ++ clients_where (λ other. not (str_eq other db)) inner;
      })
  narrowed-KeptOrClosed k db inner current cm found (inr over) =
      inr (still_closed h name c cm (clients_where (λ other. not (str_eq other db)) inner) over)
  narrowed-KeptOrClosed k db inner current cm found (inl kept) =
      let left = delete_where (λ other d. not (str_eq other db)) inner in
      elim (Bool-cases (str_eq k h)) [
        | inr other ↦ inl (ground (arith, get-put k h left cm.clients, other, kept))
        | inl same ↦
            let here : get name inner ≡ some c = ground (arith, found, kept, same, eq_iff k h) in
            elim (get-others db inner here) [
              | inl goes ↦ inr (
                  newly_closed c cm.closed (clients_where (λ other. not (str_eq other db)) inner) (
                    clients_where-get (λ other. not (str_eq other db)) name c inner (rw goes) here))
              | inr stays ↦ inl (ground (arith, get-put k h left cm.clients, same, stays))
            ]
      ]

  pub others-KeptOrClosed :
      (k db : String) (cm : ClientManager)
      → KeptOrClosed h name c cm
      → KeptOrClosed h name c (set_current_database_and_close_others k db cm).0
  unfolding set_current_database_and_close_others
  others-KeptOrClosed k db cm p = elim (Bool-cases (str_eq k "")) [
    | inl anonymous ↦ rw anonymous p
    | inr named ↦ elim (Bool-cases (has db cm.db_configs)) [
      | inr unknown ↦ rw (named, unknown) p
      | inl known ↦ elim (Option-cases (get k cm.clients)) [
        | inl nothing ↦ rw (named, known, nothing, set_current_database_and_close_others) p
        | inr (inner, found) ↦
            rw (named, known, found, set_current_database_and_close_others)
              (narrowed-KeptOrClosed k db inner (put k db cm.current_db) cm found p)
      ]
    ]
  ]

  -- A client that takes the place of another, which is closed.
  replaced-KeptOrClosed :
      (k db : String) (d : ℕ) (cm : ClientManager)
      → KeptOrClosed h name c cm
      → KeptOrClosed h name c (record cm {
        clients = install k db d cm.clients;
        closed = closed_with (get db (clients_of k cm.clients)) cm.closed;
      })
  replaced-KeptOrClosed k db d cm p = elim (Option-cases (get db (clients_of k cm.clients))) [
    | inl free ↦ rw free (elim p [
      | inr over ↦ inr over
      | inl kept ↦ elim (install-keeps h name c k db d cm.clients kept) [
        | inr stays ↦ inl stays
        | inl (same, also) ↦ some_not_none _ c kept (
            ap (λ x. get name (clients_of x cm.clients)) (sym same)
            ∙ ap (λ x. get x (clients_of k cm.clients)) (sym also)
            ∙ free)
      ]
    ])
    | inr (e, found) ↦ rw found (elim p [
      | inr over ↦ inr (still_closed h name c cm (e ∷ []) over)
      | inl kept ↦ elim (install-keeps h name c k db d cm.clients kept) [
        | inr stays ↦ inl stays
        | inl (same, also) ↦
            inr (newly_closed c cm.closed (e ∷ []) (ground (arith, same, also, found, kept)))
      ]
    ])
  ]

  pub set-KeptOrClosed :
      (k db : String) (client : Option ℕ) (cm : ClientManager)
      → KeptOrClosed h name c cm
      → KeptOrClosed h name c (set_client_for_database k db client cm).0
  unfolding set_client_for_database
  set-KeptOrClosed k db client cm p = elim (Bool-cases (str_eq k "")) [
    | inl anonymous ↦ rw anonymous p
    | inr named ↦ elim (Bool-cases (str_eq db "")) [
      | inl unnamed ↦ rw (named, unnamed) p
      | inr fine ↦ elim (Option-cases client) [
        | inl nil ↦ rw (named, fine, nil) p
        | inr (d, given) ↦ rw (named, fine, given) (replaced-KeptOrClosed k db d cm p)
      ]
    ]
  ]

  pub remove-KeptOrClosed :
      (k : String) (cm : ClientManager)
      → KeptOrClosed h name c cm
      → KeptOrClosed h name c (remove_client k cm)
  unfolding remove_client
  remove-KeptOrClosed k cm p = elim (Option-cases (get k cm.clients)) [
    | inl nothing ↦ rw (nothing, remove_client) p
    | inr (inner, found) ↦
        rw (found, remove_client)
          (elim p [
            | inr over ↦ inr (still_closed h name c cm (all_clients inner) over)
            | inl kept ↦ elim (Bool-cases (str_eq k h)) [
              | inl same ↦ inr (
                  newly_closed c cm.closed (all_clients inner)
                    (all_clients-get name c inner (ground (arith, kept, found, eq_iff k h, same))))
              | inr other ↦ inl (ground (arith, get-delete k h cm.clients, other, kept))
            ]
          ])
  ]

  pub removes-KeptOrClosed :
      (ks : List String) (cm : ClientManager)
      → KeptOrClosed h name c cm
      → KeptOrClosed h name c (remove_clients ks cm)
  unfolding remove_clients
  removes-KeptOrClosed [] cm p = p
  removes-KeptOrClosed (k ∷ ks) cm p =
      removes-KeptOrClosed ks (remove_client k cm) (remove-KeptOrClosed k cm p)

  pub close_all-KeptOrClosed :
      (cm : ClientManager) → KeptOrClosed h name c cm → KeptOrClosed h name c (close_all cm)
  unfolding close_all
  close_all-KeptOrClosed cm (inr over) =
      inr (still_closed h name c cm (every_client cm.clients) over)
  close_all-KeptOrClosed cm (inl kept) = inr (
      newly_closed c cm.closed (every_client cm.clients)
        (every_client-get h name c cm.clients kept))
