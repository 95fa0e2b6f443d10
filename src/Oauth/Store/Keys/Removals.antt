-- ===== src/Oauth/Store/Keys/Removals.antt =====
-- The keys after tokens are removed, and after the sweep.
use pgedge_postgres_mcp.Prelude.{ℕ, String, inl, inr, arith, str_eq, Bool-cases, Option-cases}
use pgedge_postgres_mcp.Oauth.Types.{Store}
use pgedge_postgres_mcp.GoMap.Keyed.{delete_where-Keyed}
use pgedge_postgres_mcp.GoMap.{get, delete_where, keys_where}
use pgedge_postgres_mcp.Oauth.Store.Sweep.{
  sweep_tokens, sweep_user_codes, code_expired, device_expired, used_expired, rotated_expired,
  client_idle, sweep,
}
use pgedge_postgres_mcp.Oauth.Store.Tokens.{
  take_token, of_subject, code_of_subject, delete_by_subject, device_of_subject,
}
use pgedge_postgres_mcp.GoMap.Distinct.{delete_where-Distinct}
use pgedge_postgres_mcp.Oauth.Store.Clients.{clients_with_live_tokens_locked}
use pgedge_postgres_mcp.Oauth.Store.Keys.{
  IsKeyed, client_key, code_key, device_key, token_key, notify-IsKeyed, delete_token_locked-IsKeyed,
  delete_devices-IsKeyed, sweep_user_codes-Distinct, sweep_tokens-IsKeyed,
}

pub take_token-IsKeyed : (h : String) (s : Store) → IsKeyed s → IsKeyed (take_token h s).0
unfolding take_token
take_token-IsKeyed h s v = elim (Option-cases (get h s.tokens)) [
  | inl gone ↦ rw gone v
  | inr (t, found) ↦ rw found (notify-IsKeyed _ _ (delete_token_locked-IsKeyed h s v))
]

pub delete_by_subject-IsKeyed :
    (u : String) (s : Store) → IsKeyed s → IsKeyed (delete_by_subject u s).0
unfolding delete_by_subject
delete_by_subject-IsKeyed u s v =
    let s₁ = record s {
      tokens = delete_where (of_subject u) s.tokens;
      codes = delete_where (code_of_subject u) s.codes;
    } in
    let v₁ : IsKeyed s₁ = ground (
      arith,
      delete_where-Keyed token_key (of_subject u) s.tokens v.tokens,
      delete_where-Keyed code_key (code_of_subject u) s.codes v.codes,
    ) in
    elim (Bool-cases (str_eq u "")) [
      | inl nobody ↦ rw nobody v
      | inr named ↦ rw named (
          notify-IsKeyed _ _
            (delete_devices-IsKeyed (keys_where (device_of_subject u) s.devices) s₁ v₁))
    ]

pub sweep-IsKeyed : (now : ℕ) (s : Store) → IsKeyed s → IsKeyed (sweep now s).0
unfolding sweep
sweep-IsKeyed now s v =
    let s₁ = record s {
      codes = delete_where (code_expired now) s.codes;
      user_codes = sweep_user_codes now s.devices s.user_codes;
      devices = delete_where (device_expired now) s.devices;
    } in
    let v₁ : IsKeyed s₁ = ground (
      arith,
      delete_where-Keyed code_key (code_expired now) s.codes v.codes,
      delete_where-Keyed device_key (device_expired now) s.devices v.devices,
      sweep_user_codes-Distinct now s.devices s.user_codes v.user_codes,
    ) in
    let s₂ = (sweep_tokens now s.tokens s₁).0 in
    let v₂ = sweep_tokens-IsKeyed now s.tokens s₁ v₁ in
    let live = clients_with_live_tokens_locked now s₂ in
    let s₃ = record s₂ {
      used_codes = delete_where (used_expired now) s₂.used_codes;
      rotated = delete_where (rotated_expired now) s₂.rotated;
      clients = delete_where (client_idle now s₂.client_retention live) s₂.clients;
    } in
    notify-IsKeyed (sweep_tokens now s.tokens s₁).1 s₃ (record {
      clients =
          delete_where-Keyed client_key (client_idle now s₂.client_retention live) s₂.clients
            v₂.clients;
      codes = v₂.codes;
      devices = v₂.devices;
      tokens = v₂.tokens;
      user_codes = v₂.user_codes;
      used_codes = delete_where-Distinct (used_expired now) s₂.used_codes v₂.used_codes;
      rotated = delete_where-Distinct (rotated_expired now) s₂.rotated v₂.rotated;
    })
