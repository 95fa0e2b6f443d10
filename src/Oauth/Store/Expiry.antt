-- ===== src/Oauth/Store/Expiry.antt =====
-- What `Sweep` leaves.
use pgedge_postgres_mcp.Prelude.{
  ℕ, ◌+◌, ◌≤◌, ◌<◌, String, ◌≡◌, ap, ◌∙◌, ◌↔◌, inl, inr, true, false, false≢true, none, some, [],
  ◌∷◌, arith, eq_iff, str_eq, Bool-cases, Option-cases, subst, some_not_none,
}
use pgedge_postgres_mcp.Oauth.Types.{
  Token, Store, AuthCode, DeviceCode, UsedCode, RotatedRefresh, Client, client_idle_grace,
}
use pgedge_postgres_mcp.GoMap.{get, has, GoMap}
use pgedge_postgres_mcp.Oauth.Store.Sweep.{
  expired_token, sweep_tokens, sweep, code_expired, device_expired, used_expired, rotated_expired,
  client_idle,
}
use pgedge_postgres_mcp.Oauth.Store.Tokens.After.{
  swept_codes, tokens-sweep, codes-sweep, devices-sweep, used_codes-sweep, rotated-sweep,
  clients-sweep,
}
use pgedge_postgres_mcp.Oauth.Store.Tokens.{delete_token_locked}
use pgedge_postgres_mcp.Oauth.Store.Tokens.Cascade.{
  deletion_adds_none, get-delete_token_locked_self, survivor,
}
use pgedge_postgres_mcp.GoMap.Laws.{get-delete_where-fails, get-none-has}
use pgedge_postgres_mcp.Oauth.Store.Keys.{IsKeyed, token_key, client_key}
use pgedge_postgres_mcp.Oauth.Store.Clients.Victim.{HasNoLiveToken, is_live-HasLiveToken}
use pgedge_postgres_mcp.Oauth.Store.Ops.{apply, Op}
use pgedge_postgres_mcp.GoMap.Keyed.{Keyed-Distinct}
use pgedge_postgres_mcp.Oauth.Store.Keys.Steps.{apply-IsKeyed}
use pgedge_postgres_mcp.Oauth.Store.Clients.{clients_with_live_tokens_locked, is_live}
use pgedge_postgres_mcp.GoMap.Distinct.{get-delete_where, keep}
use pgedge_postgres_mcp.Oauth.Store.Clients.Eviction.{not_live}

-- Deleting any token keeps the others' expiry.
deletion_keeps_fresh :
    (now : ℕ) (k h : String) (s : Store)
    → expired_token now (get h s.tokens) ≡ false
    → expired_token now (get h (delete_token_locked k s).0.tokens) ≡ false
deletion_keeps_fresh now k h s fresh =
    elim (Option-cases (get h (delete_token_locked k s).0.tokens)) [
      | inl gone ↦ rw gone
      | inr (t', left) ↦ elim (Option-cases (get h s.tokens)) [
        | inl absent ↦ some_not_none _ t' left (deletion_adds_none k h s absent)
        | inr (t, found) ↦
            let same = survivor k h s t t' found left in
            let was : expired_token now (some t) ≡ false = rw found at fresh in
            rw left (ground (arith, same, was))
      ]
    ]

sweep_keeps_fresh :
    (now : ℕ) (m : GoMap Token) (h : String) (s : Store)
    → expired_token now (get h s.tokens) ≡ false
    → expired_token now (get h (sweep_tokens now m s).0.tokens) ≡ false
unfolding sweep_tokens
sweep_keeps_fresh now [] h s fresh = fresh
sweep_keeps_fresh now ((k, x) ∷ m) h s fresh =
    elim (Bool-cases (expired_token now (get k s.tokens))) [
      | inl old ↦ rw old (sweep_keeps_fresh now m h _ (deletion_keeps_fresh now k h s fresh))
      | inr kept ↦ rw kept (sweep_keeps_fresh now m h s fresh)
    ]

-- The loop leaves no token of those that it visits expired.
sweep_clears :
    (now : ℕ) (m : GoMap Token) (h : String) (s : Store)
    → has h m ≡ true
    → expired_token now (get h (sweep_tokens now m s).0.tokens) ≡ false
unfolding sweep_tokens has
sweep_clears now [] h s on = absurd (false≢true on)
sweep_clears now ((k, x) ∷ m) h s on = elim (Bool-cases (str_eq k h)) [
  | inr other ↦ elim (Bool-cases (expired_token now (get k s.tokens))) [
    | inl old ↦ rw old (sweep_clears now m h _ (rw other at on))
    | inr kept ↦ rw kept (sweep_clears now m h s (rw other at on))
  ]
  | inl same ↦ elim (Bool-cases (expired_token now (get k s.tokens))) [
    | inl old ↦ rw old (
        sweep_keeps_fresh now m h _ (
          subst (λ j. expired_token now (get j (delete_token_locked k s).0.tokens) ≡ false)
            ((eq_iff k h).0 same) (rw (get-delete_token_locked_self k s))))
    | inr kept ↦ rw kept (
        sweep_keeps_fresh now m h s
          (subst (λ j. expired_token now (get j s.tokens) ≡ false) ((eq_iff k h).0 same) kept))
  ]
]

swept_is_fresh :
    (now : ℕ) (h : String) (s : Store)
    → expired_token now (get h (sweep_tokens now s.tokens (swept_codes now s)).0.tokens) ≡ false
swept_is_fresh now h s = elim (Bool-cases (has h s.tokens)) [
  | inl on ↦ sweep_clears now s.tokens h (swept_codes now s) on
  | inr off ↦
      sweep_keeps_fresh now s.tokens h (swept_codes now s) (rw (get-none-has h s.tokens off))
]

-- What is left after a sweep has not expired.
pub record IsFresh (now : ℕ) (s : Store) : Type 0 where
  pub tokens : (h : String) (t : Token) → get h s.tokens ≡ some t → now ≤ t.expires_at
  pub codes : (h : String) (c : AuthCode) → get h s.codes ≡ some c → now ≤ c.expires_at
  pub devices : (h : String) (d : DeviceCode) → get h s.devices ≡ some d → now ≤ d.expires_at
  pub used_codes : (h : String) (u : UsedCode) → get h s.used_codes ≡ some u → now ≤ u.until
  pub rotated : (h : String) (r : RotatedRefresh) → get h s.rotated ≡ some r → now ≤ r.until

-- After a sweep no token, authorisation code, device code or replay record is left whose time is
-- before that of the sweep.
pub sweep-IsFresh : (now : ℕ) (s : Store) → IsFresh now (sweep now s).0
sweep-IsFresh now s = record {
  tokens = λ h t e.
      let fresh : expired_token now (some t) ≡ false =
        rw e at (rw (← tokens-sweep now s) at (swept_is_fresh now h s)) in
      ground (arith, fresh);
  codes = λ h c e.
      ground (arith, get-delete_where-fails (code_expired now) h s.codes c (rw codes-sweep at e));
  devices = λ h d e.
      ground
        (arith, get-delete_where-fails (device_expired now) h s.devices d (rw devices-sweep at e));
  used_codes = λ h u e. ground (
    arith,
    get-delete_where-fails (used_expired now) h s.used_codes u (rw (used_codes-sweep now s) at e),
  );
  rotated = λ h r e. ground (
    arith,
    get-delete_where-fails (rotated_expired now) h s.rotated r (rw (rotated-sweep now s) at e),
  );
}

swept-IsKeyed : (now : ℕ) (s : Store) → IsKeyed s → IsKeyed (sweep now s).0
swept-IsKeyed now s v = unfold apply in apply-IsKeyed (Op.sweep now) s v

-- On a well-formed store a sweep retires a registered client exactly if it has been unused for
-- longer than the retention and an hour, and holds no valid token once the sweep is done.
pub sweep_clients :
    (now : ℕ) (s : Store) (id : String) (c : Client)
    → IsKeyed s
    → get id s.clients ≡ some c
    → (get id (sweep now s).0.clients ≡ none) ↔ (
        (c.last_used + (s.client_retention + client_idle_grace) < now)
        × HasNoLiveToken (sweep now s).0 now id)
sweep_clients now s id c v known =
    let s' = (sweep now s).0 in
    let dt = Keyed-Distinct token_key s'.tokens (IsKeyed.tokens (swept-IsKeyed now s v)) in
    let live = clients_with_live_tokens_locked now s' in
    let left =
      get-delete_where (client_idle now s.client_retention live) id s.clients
        (Keyed-Distinct client_key s.clients v.clients) in
    let after : get id s'.clients ≡ keep (client_idle now s.client_retention live id) (some c) =
      ap (get id) (clients-sweep now s)
      ∙ left
      ∙ ap (keep (client_idle now s.client_retention live id)) known in
    elim (Bool-cases (is_live live id)) [
      | inl alive ↦
          let (h, t, found, own, p) = is_live-HasLiveToken now s' id dt alive in
          (
            λ gone. absurd (ground (arith, after, gone, alive)),
            λ idle. absurd (omega (arith, idle.1 h t found own)),
          )
      | inr dead ↦ (
        λ gone. (
          ground (arith, after, gone, dead),
          λ h t found own. not_live now s' id h t dead found own,
        ),
        λ idle. ground (arith, after, dead, idle.0),
      )
    ]
