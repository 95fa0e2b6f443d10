-- ===== src/Oauth/Store/Bounds/Clients.antt =====
-- Storing a client, touching one and recording a rotation keep the limits.
use pgedge_postgres_mcp.Oauth.Store.Bounds.{IsBounded}
use pgedge_postgres_mcp.Prelude.{ℕ, ◌≤◌, ◌<◌, String, ◌≡◌, ap, inl, inr, none, arith, Option-cases}
use pgedge_postgres_mcp.GoMap.Laws.{size-put, size-delete-lt, has-get}
use pgedge_postgres_mcp.Oauth.Types.{Client, Limits, Store, RotatedRefresh}
use pgedge_postgres_mcp.GoMap.{size, delete, get}
use pgedge_postgres_mcp.Oauth.Store.Clients.{
  mark_refresh_rotated, put_client, lru_evictable_client_locked, evict_oldest_rotated_locked,
  touch_client,
}
use pgedge_postgres_mcp.Oauth.Store.Clients.Eviction.{size-evict, lru_loop_sound}

-- Storing a client evicts one where there is no room.
size-put_client :
    (c : Client) (s : Store) (n : ℕ)
    → size s.clients ≤ n
    → s.limits.clients ≡ n
    → size (put_client c s).0.clients ≤ n
unfolding put_client lru_evictable_client_locked
size-put_client c s n fits same = elim (Option-cases (lru_evictable_client_locked c.last_used s)) [
  | inl nobody ↦ ground (arith, size-put c.id c s.clients)
  | inr ((id, used), found) ↦ elim (lru_loop_sound _ s.clients none id used found) [
    | inl no_best ↦ cc
    | inr known ↦ ground (
      arith,
      size-put c.id c s.clients,
      size-put c.id c (delete id s.clients),
      size-delete-lt id s.clients known.0,
    )
  ]
]

pub size-mark_refresh_rotated :
    (hash family : String) (until : ℕ) (s : Store) (n : ℕ)
    → size s.rotated ≤ n
    → s.limits.tokens ≡ n
    → 0 < n
    → size (mark_refresh_rotated hash family until s).rotated ≤ n
unfolding mark_refresh_rotated
size-mark_refresh_rotated hash family until s n fits same pos =
    let r : RotatedRefresh = record { family = family; until = until } in
    let left = evict_oldest_rotated_locked s.rotated in
    ground (arith, size-put hash r s.rotated, size-put hash r left, size-evict s.rotated)

pub put_client-IsBounded :
    (limits : Limits) (c : Client) (s : Store)
    → IsBounded limits s
    → IsBounded limits (put_client c s).0
unfolding put_client
put_client-IsBounded limits c s v = ground (arith, size-put_client c s limits.clients v.clients)

pub touch_client-IsBounded :
    (limits : Limits) (id : String) (now : ℕ) (s : Store)
    → IsBounded limits s
    → IsBounded limits (touch_client id now s)
unfolding touch_client
touch_client-IsBounded limits id now s v = elim (Option-cases (get id s.clients)) [
  | inl gone ↦ rw gone v
  | inr (c, found) ↦ rw found (
      ground
        (arith, has-get id s.clients c found, size-put id (record c { last_used = now }) s.clients))
]

pub mark_refresh_rotated-IsBounded :
    (limits : Limits) (h f : String) (u : ℕ) (s : Store)
    → IsBounded limits s
    → IsBounded limits (mark_refresh_rotated h f u s)
unfolding mark_refresh_rotated
mark_refresh_rotated-IsBounded limits h f u s v =
    let fits =
      size-mark_refresh_rotated h f u s limits.tokens v.rotated
        (ap (λ l. Limits.tokens l) v.limits_same) v.some_tokens in
    ground arith
