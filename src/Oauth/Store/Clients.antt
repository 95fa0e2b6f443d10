-- ===== src/Oauth/Store/Clients.antt =====
-- internal/oauth/store.go: registered clients, their eviction, and the records of rotated refresh
-- tokens.
pub mod Eviction
pub mod Victim
use pgedge_postgres_mcp.Prelude.{
  ℕ, String, Bool, true, false, not, ◌&&◌, Option, none, some, [], ◌∷◌, ltb, leb, if◌then◌else◌,
}
use pgedge_postgres_mcp.GoMap.{GoMap, get, has, put, delete, size}
use pgedge_postgres_mcp.Oauth.Types.{Client, Token, RotatedRefresh, Store, StoreError, store_full}

-- `clientsWithLiveTokensLocked`: the loop over the tokens, from the set built so far
live_loop : ℕ → GoMap Bool → GoMap Token → GoMap Bool
live_loop now live [] = live
live_loop now live ((h, t) ∷ m) =
    live_loop now (if ltb now t.expires_at then put t.client_id true live else live) m

unfoldable pub clients_with_live_tokens_locked : ℕ → Store → GoMap Bool
unfolding live_loop
clients_with_live_tokens_locked now s = live_loop now [] s.tokens

-- `live[cid]`, false on a missing key
unfoldable pub is_live : GoMap Bool → String → Bool
is_live live id = elim (get id live) [ none ↦ false | some b ↦ b ]

-- `!found || c.LastUsed.Before(oldest)`, for the best candidate so far
pub older : Option (String × ℕ) → ℕ → Bool
older none used = true
older (some (id, oldest)) used = ltb used oldest

-- The loop of `lruEvictableClientLocked`
pub lru_loop : GoMap Bool → Option (String × ℕ) → GoMap Client → Option (String × ℕ)
lru_loop live best [] = best
lru_loop live best ((cid, c) ∷ m) =
    lru_loop live
      (if is_live live cid
        then best
        else if older best c.last_used
        then some (cid, c.last_used)
        else best)
      m

unfoldable pub lru_evictable_client_locked : ℕ → Store → Option (String × ℕ)
unfolding lru_loop older is_live
lru_evictable_client_locked now s = lru_loop (clients_with_live_tokens_locked now s) none s.clients

abbrev put_evicting : Client → Store → Option (String × ℕ) → Store × Option StoreError
put_evicting c s none = (s, some store_full)
put_evicting c s (some (victim, used)) =
    (record s { clients = put c.id c (delete victim s.clients) }, none)

-- `PutClient`
unfoldable pub put_client : Client → Store → Store × Option StoreError
unfolding lru_evictable_client_locked clients_with_live_tokens_locked
put_client c s =
    if not (has c.id s.clients) && leb s.limits.clients (size s.clients)
    then put_evicting c s (lru_evictable_client_locked c.last_used s)
    else (record s { clients = put c.id c s.clients }, none)

abbrev touched : String → ℕ → Store → Option Client → Store
touched id now s none = s
touched id now s (some c) = record s { clients = put id (record c { last_used = now }) s.clients }

-- `TouchClient`
unfoldable pub touch_client : String → ℕ → Store → Store
touch_client id now s = touched id now s (get id s.clients)

-- `GetClient`
unfoldable pub get_client : String → Store → Option Client
get_client id s = get id s.clients

-- The loop of `evictOldestRotatedLocked`
oldest_loop : Option (String × ℕ) → GoMap RotatedRefresh → Option (String × ℕ)
unfolding older
oldest_loop best [] = best
oldest_loop best ((h, r) ∷ m) =
    oldest_loop (if older best r.until then some (h, r.until) else best) m

abbrev without_oldest : GoMap RotatedRefresh → Option (String × ℕ) → GoMap RotatedRefresh
without_oldest m none = m
without_oldest m (some (h, until)) = delete h m

-- `evictOldestRotatedLocked`
unfoldable pub evict_oldest_rotated_locked : GoMap RotatedRefresh → GoMap RotatedRefresh
unfolding oldest_loop older
evict_oldest_rotated_locked m = without_oldest m (oldest_loop none m)

-- `MarkRefreshRotated`
unfoldable pub mark_refresh_rotated : String → String → ℕ → Store → Store
unfolding evict_oldest_rotated_locked
mark_refresh_rotated hash family until s =
    let full = not (has hash s.rotated) && leb s.limits.tokens (size s.rotated) in
    let room = if full then evict_oldest_rotated_locked s.rotated else s.rotated in
    record s { rotated = put hash (record { family = family; until = until }) room }

-- `RotatedRefreshFamily`
unfoldable pub rotated_refresh_family : String → Store → Option String
rotated_refresh_family hash s = elim (get hash s.rotated) [
  | none ↦ none
  | some r ↦ some (RotatedRefresh.family r)
]
