-- ===== src/Oauth/Store/Clients/Victim.antt =====
-- `PutClient` on a full table: whom it evicts, and when it gives up.
use pgedge_postgres_mcp.Prelude.{
  ◌≤◌, ◌<◌, ◌≡◌, ◌⊎◌, inl, inr, true, false, false≢true, none, some, [], ◌∷◌, arith, eq_iff,
  eq_refl, str_eq, ltb, if◌then◌else◌, Bool-cases, Option-cases,
}
use pgedge_postgres_mcp.GoMap.{Distinct, get, GoMap, has, size, delete}
use pgedge_postgres_mcp.GoMap.Laws.{get-put, get-delete, has-get}
use pgedge_postgres_mcp.Oauth.Types.{Client, Token, Store, store_full}
use pgedge_postgres_mcp.Oauth.Store.Clients.{
  clients_with_live_tokens_locked, put_client, lru_loop, ℕ, String, live_loop,
  lru_evictable_client_locked, is_live, Bool, Option, older,
}
use pgedge_postgres_mcp.Oauth.Store.Clients.Eviction.{lru_loop-none, not_live, lru_loop-least}

-- Client `id` holds no token that is valid after `now`.
abbrev pub HasNoLiveToken : Store → ℕ → String → Type 0
HasNoLiveToken s now id =
    (h : String) (t : Token) → get h s.tokens ≡ some t → t.client_id ≡ id → t.expires_at ≤ now

-- Client `id` holds one.
abbrev pub HasLiveToken : Store → ℕ → String → Type 0
HasLiveToken s now id =
    (h : String) × (t : Token) × (get h s.tokens ≡ some t)
    × (t.client_id ≡ id)
    × (now < t.expires_at)

live_loop-from :
    (now : ℕ) (id : String) (m : GoMap Token) (live : GoMap Bool)
    → Distinct m
    → is_live (live_loop now live m) id ≡ true
    → (is_live live id ≡ true)
      ⊎ ((h : String) × (t : Token) × (get h m ≡ some t)
          × (t.client_id ≡ id)
          × (now < t.expires_at))
unfolding live_loop get
live_loop-from now id [] live d e = inl e
live_loop-from now id ((k, t) ∷ m) live d e = elim (live_loop-from now id m _ d.1 e) [
  | inr (h, u, g, own, p) ↦ inr (h, u, ground (arith, eq_iff k h, has-get h m u g), own, p)
  | inl seen ↦ elim (Bool-cases (ltb now t.expires_at)) [
    | inl fresh ↦ elim (Bool-cases (str_eq t.client_id id)) [
      | inl same ↦
          inr (k, t, ground (arith, eq_refl k), (eq_iff t.client_id id).0 same, ground arith)
      | inr other ↦ inl (unfold is_live in ground (arith, get-put t.client_id id true live))
    ]
    | inr stale ↦ inl (rw stale at seen)
  ]
]

pub is_live-HasLiveToken :
    (now : ℕ) (s : Store) (id : String)
    → Distinct s.tokens
    → is_live (clients_with_live_tokens_locked now s) id ≡ true
    → HasLiveToken s now id
unfolding clients_with_live_tokens_locked
is_live-HasLiveToken now s id d e = elim (live_loop-from now id s.tokens [] d e) [
  | inl seen ↦ absurd (unfold is_live get in false≢true seen)
  | inr found ↦ found
]

HasNoLiveToken-is_live :
    (now : ℕ) (s : Store) (id : String)
    → Distinct s.tokens
    → HasNoLiveToken s now id
    → is_live (clients_with_live_tokens_locked now s) id ≡ false
HasNoLiveToken-is_live now s id d idle =
    elim (Bool-cases (is_live (clients_with_live_tokens_locked now s) id)) [
      | inr dead ↦ dead
      | inl live ↦
          let (h, t, g, own, p) = is_live-HasLiveToken now s id d live in
          absurd (omega (arith, idle h t g own))
    ]

-- The candidate's time is that of its entry.
lru_loop-entry :
    (live : GoMap Bool) (m : GoMap Client) (best : Option (String × ℕ)) (id : String) (used : ℕ)
    → Distinct m
    → lru_loop live best m ≡ some (id, used)
    → (best ≡ some (id, used))
      ⊎ ((c : Client) × (get id m ≡ some c) × (c.last_used ≡ used) × (is_live live id ≡ false))
unfolding lru_loop get
lru_loop-entry live [] best id used d e = inl e
lru_loop-entry live ((k, x) ∷ m) best id used d e = elim (lru_loop-entry live m _ id used d.1 e) [
  | inr (c, g, u, dead) ↦ inr (c, ground (arith, eq_iff k id, has-get id m c g), u, dead)
  | inl here ↦ elim (Bool-cases (is_live live k)) [
    | inl alive ↦ inl (rw alive at here)
    | inr dead ↦ elim (Bool-cases (older best x.last_used)) [
      | inr younger ↦ inl (ground arith)
      | inl is_older ↦ inr (x, ground (arith, eq_refl k), ground arith, ground arith)
    ]
  ]
]

-- What an eviction by a client that registers did: the victim held no valid token, no other client
-- without one was used earlier, and nothing else changed.
pub record Evicts (c : Client) (s s' : Store) : Type 0 where
  pub victim : String
  pub entry : Client
  pub registered : get victim s.clients ≡ some entry
  pub idle : HasNoLiveToken s c.last_used victim
  pub least :
      (id : String) (x : Client)
      → get id s.clients ≡ some x
      → HasNoLiveToken s c.last_used id
      → entry.last_used ≤ x.last_used
  pub after :
      (k : String)
      → get k s'.clients
        ≡ (if str_eq c.id k then some c else if str_eq victim k then none else get k s.clients)

-- On a full table of distinct clients, with distinct tokens, a new client that is accepted takes
-- the place of the least recently used client without a valid token, and no other entry changes.
pub put_client-Evicts :
    (c : Client) (s : Store)
    → Distinct s.clients
    → Distinct s.tokens
    → has c.id s.clients ≡ false
    → s.limits.clients ≤ size s.clients
    → (put_client c s).1 ≡ none
    → Evicts c s (put_client c s).0
unfolding put_client lru_evictable_client_locked
put_client-Evicts c s dc dt new full accepted =
    elim (Option-cases (lru_evictable_client_locked c.last_used s)) [
      | inl nobody ↦ absurd (ground arith)
      | inr ((id, used), found) ↦
          elim (lru_loop-entry (clients_with_live_tokens_locked c.last_used s) s.clients none id
            used dc found) [
              | inl no_best ↦ absurd (cc)
              | inr (x, g, u, dead) ↦ record {
                victim = id;
                entry = x;
                registered = g;
                idle = λ h t e own. not_live c.last_used s id h t dead e own;
                least = λ k y e idle. omega (
                  arith,
                  u,
                  lru_loop-least (clients_with_live_tokens_locked c.last_used s) s.clients none id
                      used k y found e (HasNoLiveToken-is_live c.last_used s k dt idle),
                );
                after = λ k.
                    ground
                      (arith, get-put c.id k c (delete id s.clients), get-delete id k s.clients);
              }
            ]
    ]

-- A client is refused only if the table is full and every registered client holds a token that is
-- valid after the time at which the new one was last used, and then nothing changes; the tokens
-- must be distinct.
pub put_client-full :
    (c : Client) (s : Store)
    → Distinct s.tokens
    → (put_client c s).1 ≡ some store_full
    → ((put_client c s).0 ≡ s)
      × (s.limits.clients ≤ size s.clients)
      × ((id : String) → has id s.clients ≡ true → HasLiveToken s c.last_used id)
unfolding put_client lru_evictable_client_locked
put_client-full c s d refused = (
  ground arith,
  ground arith,
  λ id known. elim (Option-cases (lru_evictable_client_locked c.last_used s)) [
    | inl nobody ↦ is_live-HasLiveToken c.last_used s id d (
        (lru_loop-none (clients_with_live_tokens_locked c.last_used s) s.clients none id nobody).1
          known)
    | inr (v, found) ↦ absurd (ground arith)
  ],
)
