-- ===== src/Database/ClientManager/NoLeak.antt =====
-- No client is lost while it is open.
use pgedge_postgres_mcp.Prelude.{
  ℕ, String, ◌≡◌, refl, sym, ap, ◌∙◌, ◌⊎◌, inl, inr, Bool, true, ◌&&◌, ◌||◌, none, some, List, [],
  ◌∷◌, ◌++◌, arith, eq_iff, eq_refl, str_eq, if◌then◌else◌, Bool-cases, Option-cases, subst,
}
use pgedge_postgres_mcp.Database.ClientManager.{
  ClientManager, is_closed, clients_of, install, Connection, open_client, connect, unconnected,
  without_metadata, connected, get_or_create_client, get_client_for_database, get_current_database,
  locked_open,
}
use pgedge_postgres_mcp.Database.ClientManager.Changes.{clients_where, all_clients, every_client}
use pgedge_postgres_mcp.GoMap.{GoMap, get, put}
use pgedge_postgres_mcp.Database.ClientManager.Reload.{drop_database, dropped_clients}
use pgedge_postgres_mcp.GoMap.Laws.{get-delete, get-put}

-- The client is on file for the token and the database, or it has been closed.
abbrev pub KeptOrClosed : String → String → ℕ → ClientManager → Type 0
KeptOrClosed h name c cm =
    (get name (clients_of h cm.clients) ≡ some c) ⊎ (is_closed c cm.closed ≡ true)

pub is_closed-append :
    (c : ℕ) (a b : List ℕ) → is_closed c (a ++ b) ≡ (is_closed c a || is_closed c b)
is_closed-append c [] b = refl
is_closed-append c (d ∷ a) b = ground (arith, is_closed-append c a b)

-- An operation that only adds to the clients that are closed keeps those closed.
pub still_closed :
    (h name : String) (c : ℕ) (cm : ClientManager) (more : List ℕ)
    → is_closed c cm.closed ≡ true
    → is_closed c (cm.closed ++ more) ≡ true
still_closed h name c cm more e = ground (arith, is_closed-append c cm.closed more)

pub newly_closed :
    (c : ℕ) (before more : List ℕ) → is_closed c more ≡ true → is_closed c (before ++ more) ≡ true
newly_closed c before more e = ground (arith, is_closed-append c before more)

pub all_clients-get :
    (name : String) (c : ℕ) (m : GoMap ℕ) → get name m ≡ some c → is_closed c (all_clients m) ≡ true
unfolding get
all_clients-get name c [] e = cc
all_clients-get name c ((k, d) ∷ m) e = ground (arith, all_clients-get name c m)

pub every_client-get :
    (h name : String) (c : ℕ) (m : GoMap (GoMap ℕ))
    → get name (clients_of h m) ≡ some c
    → is_closed c (every_client m) ≡ true
unfolding get
every_client-get h name c [] e = cc
every_client-get h name c ((k, inner) ∷ m) e = ground (
  arith,
  every_client-get h name c m,
  all_clients-get name c inner,
  is_closed-append c (all_clients inner) (every_client m),
)

pub clients_where-get :
    (p : String → Bool) (name : String) (c : ℕ) (m : GoMap ℕ)
    → p name ≡ true
    → get name m ≡ some c
    → is_closed c (clients_where p m) ≡ true
unfolding clients_where get
clients_where-get p name c [] selected e = cc
clients_where-get p name c ((k, d) ∷ m) selected e =
    ground (arith, eq_iff k name, clients_where-get p name c m selected)

pub dropped_clients-get :
    (h name : String) (c : ℕ) (m : GoMap (GoMap ℕ))
    → get name (clients_of h m) ≡ some c
    → is_closed c (dropped_clients name m) ≡ true
unfolding dropped_clients get
dropped_clients-get h name c [] e = cc
dropped_clients-get h name c ((k, inner) ∷ m) e = elim (Option-cases (get name inner)) [
  | inl gone ↦ ground (arith, gone, dropped_clients-get h name c m)
  | inr (d, found) ↦ ground (arith, found, dropped_clients-get h name c m)
]

pub clients_of-drop_database :
    (h name k : String) (m : GoMap (GoMap ℕ))
    → get k (clients_of h (drop_database name m))
      ≡ (if str_eq name k then none else get k (clients_of h m))
unfolding drop_database get
clients_of-drop_database h name k [] = ground arith
clients_of-drop_database h name k ((j, inner) ∷ m) = elim (Bool-cases (str_eq j h)) [
  | inl here ↦ ground (arith, here, get-delete name k inner)
  | inr there ↦ ground (arith, there, clients_of-drop_database h name k m)
]

pub clients_of-install :
    (h name : String) (c : ℕ) (k j : String) (m : GoMap (GoMap ℕ))
    → get j (clients_of k (install h name c m))
      ≡ (if str_eq h k && str_eq name j then some c else get j (clients_of k m))
clients_of-install h name c k j m =
    let inner = clients_of h m in
    elim (Bool-cases (str_eq h k)) [
      | inl same ↦
          subst
            (λ x.
              get j (clients_of x (install h name c m))
              ≡ (if str_eq h x && str_eq name j then some c else get j (clients_of x m)))
            ((eq_iff h k).0 same)
            (ground (arith, get-put h h (put name c inner) m, eq_refl h, get-put name j c inner))
      | inr other ↦ ground (arith, get-put h k (put name c inner) m, other)
    ]

-- What an installed client does to another entry: it is the same one, or stays.
pub install-keeps :
    (h name : String) (c : ℕ) (k db : String) (d : ℕ) (m : GoMap (GoMap ℕ))
    → get name (clients_of h m) ≡ some c
    → ((k ≡ h) × (db ≡ name)) ⊎ (get name (clients_of h (install k db d m)) ≡ some c)
install-keeps h name c k db d m kept = elim (Bool-cases (str_eq k h && str_eq db name)) [
  | inl same ↦ inl ((eq_iff k h).0 (ground arith), (eq_iff db name).0 (ground arith))
  | inr other ↦ inr (ground (arith, clients_of-install k db d h name m, other, kept))
]

not_open_is_closed :
    (h name : String) (c : ℕ) (cm : ClientManager)
    → open_client h name cm ≡ none
    → get name (clients_of h cm.clients) ≡ some c
    → is_closed c cm.closed ≡ true
unfolding open_client
not_open_is_closed h name c cm free kept = ground (arith, kept)

-- The steps
connect-KeptOrClosed :
    (h name : String) (c : ℕ) (k db : String) (attempt : Connection) (cm : ClientManager)
    → open_client k db cm ≡ none
    → KeptOrClosed h name c cm
    → KeptOrClosed h name c (connect k db attempt cm).0
connect-KeptOrClosed h name c k db (unconnected d) cm free p = p
connect-KeptOrClosed h name c k db (without_metadata d) cm free (inl kept) = inl kept
connect-KeptOrClosed h name c k db (without_metadata d) cm free (inr over) =
    inr (still_closed h name c cm (d ∷ []) over)
connect-KeptOrClosed h name c k db (connected d) cm free (inr over) = inr over
connect-KeptOrClosed h name c k db (connected d) cm free (inl kept) =
    elim (install-keeps h name c k db d cm.clients kept) [
      | inl (same, also) ↦ inr (
          not_open_is_closed h name c cm
            (ap (λ x. open_client x name cm) (sym same)
              ∙ ap (λ x. open_client k x cm) (sym also)
              ∙ free)
            kept)
      | inr stays ↦ inl stays
    ]

pub locked_open-KeptOrClosed :
    (h name : String) (c : ℕ) (k db : String) (attempt : Connection) (cm : ClientManager)
    → KeptOrClosed h name c cm
    → KeptOrClosed h name c (locked_open k db attempt cm).0
unfolding locked_open
locked_open-KeptOrClosed h name c k db attempt cm p = elim (Option-cases (open_client k db cm)) [
  | inr (d, found) ↦ rw (found, locked_open) p
  | inl free ↦ rw (free, locked_open) (connect-KeptOrClosed h name c k db attempt cm free p)
]

pub get-KeptOrClosed :
    (h name : String) (c : ℕ) (k db : String) (attempt : Connection) (cm : ClientManager)
    → KeptOrClosed h name c cm
    → KeptOrClosed h name c (get_client_for_database k db attempt cm).0
unfolding get_client_for_database
get-KeptOrClosed h name c k db attempt cm p =
    let db' = if str_eq db "" then cm.default_db_name else db in
    elim (Bool-cases (str_eq k "")) [
      | inl anonymous ↦ rw anonymous p
      | inr named ↦ elim (Option-cases (open_client k db' cm)) [
        | inr (d, found) ↦ rw (named, found) p
        | inl free ↦ elim (Option-cases (get db' cm.db_configs)) [
          | inl unknown ↦ rw (named, free, unknown) p
          | inr (settings, known) ↦
              rw (named, free, known) (locked_open-KeptOrClosed h name c k db' attempt cm p)
        ]
      ]
    ]

pub get_or_create-KeptOrClosed :
    (h name : String) (c : ℕ) (k : String) (auto : Bool) (attempt : Connection) (cm : ClientManager)
    → KeptOrClosed h name c cm
    → KeptOrClosed h name c (get_or_create_client k auto attempt cm).0
unfolding get_or_create_client
get_or_create-KeptOrClosed h name c k auto attempt cm p =
    let db' = get_current_database k cm in
    elim (Bool-cases (str_eq k "")) [
      | inl anonymous ↦ rw anonymous p
      | inr named ↦ elim (Option-cases (open_client k db' cm)) [
        | inr (d, found) ↦ rw (named, found) p
        | inl free ↦ elim (Bool-cases auto) [
          | inr manual ↦ rw (named, free, manual) p
          | inl automatic ↦ elim (Option-cases (get db' cm.db_configs)) [
            | inl unknown ↦ rw (named, free, automatic, unknown) p
            | inr (settings, known) ↦
                rw (named, free, automatic, known)
                  (locked_open-KeptOrClosed h name c k db' attempt cm p)
          ]
        ]
      ]
    ]
