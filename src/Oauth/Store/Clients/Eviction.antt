-- ===== src/Oauth/Store/Clients/Eviction.antt =====
-- Which client, and which rotation record, an eviction removes.
use pgedge_postgres_mcp.Prelude.{
  ℕ, ◌+◌, ◌≤◌, ◌<◌, String, ◌≡◌, ◌⊎◌, inl, inr, Bool, true, false, Option, none, some, [], ◌∷◌,
  arith, eq_iff, eq_refl, str_eq, Bool-cases, Option-cases,
}
use pgedge_postgres_mcp.GoMap.{GoMap, get, has, size, Distinct}
use pgedge_postgres_mcp.GoMap.Laws.{get-put, size-delete-lt}
use pgedge_postgres_mcp.Oauth.Types.{Client, Token, Store, RotatedRefresh}
use pgedge_postgres_mcp.Oauth.Store.Clients.{
  live_loop, clients_with_live_tokens_locked, is_live, lru_loop, evict_oldest_rotated_locked,
  oldest_loop, older,
}
use pgedge_postgres_mcp.GoMap.Distinct.{delete-Distinct}

-- The set of live clients holds what it held, and the owner of every token that has not expired.
live_loop-keeps :
    (now : ℕ) (id : String) (m : GoMap Token) (live : GoMap Bool)
    → is_live live id ≡ true
    → is_live (live_loop now live m) id ≡ true
unfolding live_loop is_live
live_loop-keeps now id [] live h = h
live_loop-keeps now id ((k, t) ∷ m) live h =
    live_loop-keeps now id m _ (ground (arith, get-put t.client_id id true live))

live_loop-owner :
    (now : ℕ) (h : String) (t : Token) (m : GoMap Token) (live : GoMap Bool)
    → get h m ≡ some t
    → now < t.expires_at
    → is_live (live_loop now live m) t.client_id ≡ true
unfolding live_loop get
live_loop-owner now h t [] live e p = cc
live_loop-owner now h t ((k, u) ∷ m) live e p = elim (Bool-cases (str_eq k h)) [
  | inl same ↦ live_loop-keeps now t.client_id m _ (
      unfold is_live in
      ground (arith, get-put u.client_id t.client_id true live, eq_refl t.client_id))
  | inr other ↦ live_loop-owner now h t m _ (ground arith) p
]

-- A client that is not live owns no token that is valid after `now`.
pub not_live :
    (now : ℕ) (s : Store) (id h : String) (t : Token)
    → is_live (clients_with_live_tokens_locked now s) id ≡ false
    → get h s.tokens ≡ some t
    → t.client_id ≡ id
    → t.expires_at ≤ now
unfolding clients_with_live_tokens_locked
not_live now s id h t dead e own = ground (arith, live_loop-owner now h t s.tokens [] e)

-- What the scan of the clients has found: the best candidate is one of those seen, and no other
-- candidate was used before it.
pub lru_loop_sound :
    (live : GoMap Bool) (m : GoMap Client) (best : Option (String × ℕ)) (id : String) (used : ℕ)
    → lru_loop live best m ≡ some (id, used)
    → (best ≡ some (id, used)) ⊎ ((has id m ≡ true) × (is_live live id ≡ false))
unfolding lru_loop has
lru_loop_sound live [] best id used e = inl e
lru_loop_sound live ((k, c) ∷ m) best id used e =
    ground (arith, lru_loop_sound live m _ id used e, eq_iff k id, eq_refl k)

abbrev LeBest : ℕ → Option (String × ℕ) → Type 0
LeBest used none = Unit {0}
LeBest used (some (b, oldest)) = used ≤ oldest

lru_loop-LeBest :
    (live : GoMap Bool) (m : GoMap Client) (best : Option (String × ℕ)) (id : String) (used : ℕ)
    → lru_loop live best m ≡ some (id, used)
    → LeBest used best
unfolding lru_loop older
lru_loop-LeBest live [] none id used e = tt
lru_loop-LeBest live [] (some (b, o)) id used e = ground arith
lru_loop-LeBest live ((k, c) ∷ m) none id used e = tt
lru_loop-LeBest live ((k, c) ∷ m) (some (b, o)) id used e =
    ground (arith, lru_loop-LeBest live m _ id used e)

pub lru_loop-least :
    (live : GoMap Bool) (m : GoMap Client) (best : Option (String × ℕ)) (id : String) (used : ℕ)
    (cid : String) (c : Client)
    → lru_loop live best m ≡ some (id, used)
    → get cid m ≡ some c
    → is_live live cid ≡ false
    → used ≤ c.last_used
unfolding lru_loop get older
lru_loop-least live [] best id used cid c e g d = cc
lru_loop-least live ((k, x) ∷ m) best id used cid c e g d = ground (
  arith,
  lru_loop-LeBest live m _ id used e,
  lru_loop-least live m _ id used cid c e,
  eq_iff k cid,
)

-- With no candidate, every client is live.
pub lru_loop-none :
    (live : GoMap Bool) (m : GoMap Client) (best : Option (String × ℕ)) (cid : String)
    → lru_loop live best m ≡ none
    → (best ≡ none) × (has cid m ≡ true → is_live live cid ≡ true)
unfolding lru_loop has older
lru_loop-none live [] best cid e = ground arith
lru_loop-none live ((k, x) ∷ m) best cid e =
    ground (arith, lru_loop-none live m _ cid e, eq_iff k cid)

-- The rotation record that is evicted is on record, and none ends sooner.
oldest_loop-LeBest :
    (m : GoMap RotatedRefresh) (best : Option (String × ℕ)) (h : String) (until : ℕ)
    → oldest_loop best m ≡ some (h, until)
    → LeBest until best
unfolding oldest_loop older
oldest_loop-LeBest [] none h until e = tt
oldest_loop-LeBest [] (some (b, o)) h until e = ground arith
oldest_loop-LeBest ((k, c) ∷ m) none h until e = tt
oldest_loop-LeBest ((k, c) ∷ m) (some (b, o)) h until e =
    ground (arith, oldest_loop-LeBest m _ h until e)

oldest_loop_sound :
    (m : GoMap RotatedRefresh) (best : Option (String × ℕ)) (h : String) (until : ℕ)
    → oldest_loop best m ≡ some (h, until)
    → (best ≡ some (h, until)) ⊎ (has h m ≡ true)
unfolding oldest_loop has
oldest_loop_sound [] best h until e = inl e
oldest_loop_sound ((k, r) ∷ m) best h until e =
    ground (arith, oldest_loop_sound m _ h until e, eq_iff k h, eq_refl k)

oldest_loop-least :
    (m : GoMap RotatedRefresh) (best : Option (String × ℕ)) (h : String) (until : ℕ) (k : String)
    (r : RotatedRefresh)
    → oldest_loop best m ≡ some (h, until)
    → get k m ≡ some r
    → until ≤ r.until
unfolding oldest_loop get older
oldest_loop-least [] best h until k r e g = cc
oldest_loop-least ((j, x) ∷ m) best h until k r e g =
    ground
      (arith, oldest_loop-LeBest m _ h until e, oldest_loop-least m _ h until k r e, eq_iff j k)

oldest_loop-none :
    (m : GoMap RotatedRefresh) (best : Option (String × ℕ))
    → oldest_loop best m ≡ none
    → (best ≡ none) × (m ≡ [])
unfolding oldest_loop older
oldest_loop-none [] best e = ground arith
oldest_loop-none ((j, x) ∷ m) best e = ground (arith, oldest_loop-none m _ e)

-- An eviction makes room unless there is nothing to evict.
pub size-evict :
    (m : GoMap RotatedRefresh) → (size (evict_oldest_rotated_locked m) + 1 ≤ size m) ⊎ (m ≡ [])
unfolding evict_oldest_rotated_locked
size-evict m = elim (Option-cases (oldest_loop none m)) [
  | inl empty ↦ inr (oldest_loop-none m none empty).1
  | inr ((h, until), found) ↦ inl (
      rw found (elim (oldest_loop_sound m none h until found) [
        | inl no_best ↦ cc
        | inr old ↦ size-delete-lt h m old
      ]))
]

pub evict-Distinct :
    (m : GoMap RotatedRefresh) → Distinct m → Distinct (evict_oldest_rotated_locked m)
unfolding evict_oldest_rotated_locked
evict-Distinct m d = elim (Option-cases (oldest_loop none m)) [
  | inl empty ↦ rw empty d
  | inr ((h, until), found) ↦ rw found (delete-Distinct h m d)
]
