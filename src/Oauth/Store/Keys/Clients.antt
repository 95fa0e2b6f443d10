-- ===== src/Oauth/Store/Keys/Clients.antt =====
-- The keys after an operation on a client or on a rotation.
use pgedge_postgres_mcp.Prelude.{ℕ, String, refl, inl, inr, arith, Option-cases}
use pgedge_postgres_mcp.Oauth.Types.{Store, RotatedRefresh, Client}
use pgedge_postgres_mcp.GoMap.Keyed.{delete-Keyed, put-Keyed, Keyed-get}
use pgedge_postgres_mcp.GoMap.{get, delete}
use pgedge_postgres_mcp.GoMap.Distinct.{put-Distinct}
use pgedge_postgres_mcp.Oauth.Store.Clients.{
  lru_evictable_client_locked, put_client, touch_client, evict_oldest_rotated_locked,
  mark_refresh_rotated,
}
use pgedge_postgres_mcp.Oauth.Store.Clients.Eviction.{evict-Distinct}
use pgedge_postgres_mcp.Oauth.Store.Keys.{IsKeyed, client_key}

pub put_client-IsKeyed : (c : Client) (s : Store) → IsKeyed s → IsKeyed (put_client c s).0
unfolding put_client
put_client-IsKeyed c s v = elim (Option-cases (lru_evictable_client_locked c.last_used s)) [
  | inl nobody ↦ ground (arith, put-Keyed client_key c.id c s.clients refl v.clients)
  | inr ((id, used), found) ↦ ground (
    arith,
    put-Keyed client_key c.id c s.clients refl v.clients,
    put-Keyed client_key c.id c (delete id s.clients) refl
        (delete-Keyed client_key id s.clients v.clients),
  )
]

pub touch_client-IsKeyed :
    (id : String) (now : ℕ) (s : Store) → IsKeyed s → IsKeyed (touch_client id now s)
unfolding touch_client
touch_client-IsKeyed id now s v = elim (Option-cases (get id s.clients)) [
  | inl gone ↦ rw gone v
  | inr (c, found) ↦
      let own = Keyed-get client_key id s.clients c v.clients found in
      rw found (
        ground
          (arith, put-Keyed client_key id (record c { last_used = now }) s.clients own v.clients))
]

pub mark_refresh_rotated-IsKeyed :
    (h f : String) (u : ℕ) (s : Store) → IsKeyed s → IsKeyed (mark_refresh_rotated h f u s)
unfolding mark_refresh_rotated
mark_refresh_rotated-IsKeyed h f u s v =
    let r : RotatedRefresh = record { family = f; until = u } in
    let left = evict_oldest_rotated_locked s.rotated in
    ground (
      arith,
      put-Distinct h r s.rotated v.rotated,
      put-Distinct h r left (evict-Distinct s.rotated v.rotated),
    )
