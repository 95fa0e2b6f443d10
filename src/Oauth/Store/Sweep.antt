-- ===== src/Oauth/Store/Sweep.antt =====
-- internal/oauth/store.go: `Sweep`, which removes what has expired.
use pgedge_postgres_mcp.Prelude.{
  ℕ, ◌+◌, String, Bool, false, not, ◌&&◌, Option, none, some, List, [], ◌∷◌, ◌++◌, ltb,
  if◌then◌else◌,
}
use pgedge_postgres_mcp.GoMap.{GoMap, get, delete, delete_where}
use pgedge_postgres_mcp.Oauth.Types.{
  Client, AuthCode, DeviceCode, Token, UsedCode, RotatedRefresh, Store, client_idle_grace,
  notify_revoked,
}
use pgedge_postgres_mcp.Oauth.Store.Clients.{clients_with_live_tokens_locked, is_live}
use pgedge_postgres_mcp.Oauth.Store.Tokens.{delete_token_locked}

abbrev pub code_expired : ℕ → String → AuthCode → Bool
code_expired now h c = ltb c.expires_at now

-- The loop over the devices, which also deletes each expired device's user code
unfoldable pub sweep_user_codes : ℕ → GoMap DeviceCode → GoMap String → GoMap String
sweep_user_codes now [] index = index
sweep_user_codes now ((h, d) ∷ m) index =
    sweep_user_codes now m (if ltb d.expires_at now then delete d.user_code index else index)

abbrev pub device_expired : ℕ → String → DeviceCode → Bool
device_expired now h d = ltb d.expires_at now

abbrev pub expired_token : ℕ → Option Token → Bool
expired_token now none = false
expired_token now (some t) = ltb t.expires_at now

-- The loop over the tokens. It visits the entries of the map at its start; an entry that a cascade
-- has removed in the meantime is no longer produced.
unfoldable pub sweep_tokens : ℕ → GoMap Token → Store → Store × List String
sweep_tokens now [] s = (s, [])
sweep_tokens now ((h, t) ∷ m) s =
    let (s', revoked) =
      if expired_token now (get h s.tokens) then delete_token_locked h s else (s, []) in
    let (s'', more) = sweep_tokens now m s' in (s'', revoked ++ more)

abbrev pub used_expired : ℕ → String → UsedCode → Bool
used_expired now h u = ltb u.until now

abbrev pub rotated_expired : ℕ → String → RotatedRefresh → Bool
rotated_expired now h r = ltb r.until now

-- `c.LastUsed.Before(cutoff) && !live[id]`
abbrev pub client_idle : ℕ → ℕ → GoMap Bool → String → Client → Bool
client_idle now retention live id c =
    ltb (c.last_used + (retention + client_idle_grace)) now && not (is_live live id)

-- `Sweep`
unfoldable pub sweep : ℕ → Store → Store × List String
unfolding sweep_tokens sweep_user_codes
sweep now s =
    let s₁ = record s {
      codes = delete_where (code_expired now) s.codes;
      user_codes = sweep_user_codes now s.devices s.user_codes;
      devices = delete_where (device_expired now) s.devices;
    } in
    let (s₂, revoked) = sweep_tokens now s.tokens s₁ in
    let live = clients_with_live_tokens_locked now s₂ in
    let s₃ = record s₂ {
      used_codes = delete_where (used_expired now) s₂.used_codes;
      rotated = delete_where (rotated_expired now) s₂.rotated;
      clients = delete_where (client_idle now s₂.client_retention live) s₂.clients;
    } in
    (notify_revoked revoked s₃, revoked)
