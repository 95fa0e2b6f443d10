-- ===== src/Oauth/Store/Bounds/Tokens.antt =====
-- The operations that remove tokens, and the sweep, keep the limits.
use pgedge_postgres_mcp.Oauth.Store.Bounds.{IsBounded, notify-IsBounded}
use pgedge_postgres_mcp.Prelude.{
  ℕ, ◌≤◌, String, sym, inl, inr, not, ◌&&◌, List, arith, str_eq, Bool-cases, Option-cases, subst,
}
use pgedge_postgres_mcp.GoMap.Laws.{size-delete_where-le}
use pgedge_postgres_mcp.Oauth.Types.{Limits, Store, Token}
use pgedge_postgres_mcp.GoMap.{size, get, GoMap, delete_where, keys_where}
use pgedge_postgres_mcp.Oauth.Store.Clients.{clients_with_live_tokens_locked}
use pgedge_postgres_mcp.Oauth.Store.Tokens.{
  delete_token_locked, delete_devices, take_token, delete_by_subject, of_subject, code_of_subject,
  device_of_subject,
}
use pgedge_postgres_mcp.Oauth.Store.Tokens.Frame.{
  delete_token_locked-frame, delete_devices-frame, sweep_tokens-frame,
}
use pgedge_postgres_mcp.Oauth.Store.Tokens.Sizes.{
  size-delete_devices, size-delete_token_locked, size-sweep_tokens,
}
use pgedge_postgres_mcp.Oauth.Store.Sweep.{
  sweep_tokens, code_expired, sweep_user_codes, device_expired, sweep, used_expired,
  rotated_expired, client_idle,
}

fewer_tokens :
    (limits : Limits) (m : GoMap Token) (s : Store)
    → IsBounded limits s
    → size m ≤ size s.tokens
    → IsBounded limits (record s { tokens = m })
fewer_tokens limits m s v le = ground arith

pub delete_token_locked-IsBounded :
    (limits : Limits) (h : String) (s : Store)
    → IsBounded limits s
    → IsBounded limits (delete_token_locked h s).0
delete_token_locked-IsBounded limits h s v =
    subst (IsBounded limits) (sym (delete_token_locked-frame h s))
      (fewer_tokens limits _ s v (size-delete_token_locked h s))

sweep_tokens-IsBounded :
    (limits : Limits) (now : ℕ) (m : GoMap Token) (s : Store)
    → IsBounded limits s
    → IsBounded limits (sweep_tokens now m s).0
sweep_tokens-IsBounded limits now m s v =
    subst (IsBounded limits) (sym (sweep_tokens-frame now m s))
      (fewer_tokens limits _ s v (size-sweep_tokens now m s))

delete_devices-IsBounded :
    (limits : Limits) (hs : List String) (s : Store)
    → IsBounded limits s
    → IsBounded limits (delete_devices hs s)
delete_devices-IsBounded limits hs s v =
    let fits = size-delete_devices hs s in
    subst (IsBounded limits) (sym (delete_devices-frame hs s)) (ground arith)

pub take_token-IsBounded :
    (limits : Limits) (h : String) (s : Store)
    → IsBounded limits s
    → IsBounded limits (take_token h s).0
unfolding take_token
take_token-IsBounded limits h s v = elim (Option-cases (get h s.tokens)) [
  | inl gone ↦ rw gone v
  | inr (t, found) ↦
      rw found (notify-IsBounded limits _ _ (delete_token_locked-IsBounded limits h s v))
]

pub delete_by_subject-IsBounded :
    (limits : Limits) (u : String) (s : Store)
    → IsBounded limits s
    → IsBounded limits (delete_by_subject u s).0
unfolding delete_by_subject
delete_by_subject-IsBounded limits u s v = elim (Bool-cases (str_eq u "")) [
  | inl nobody ↦ rw nobody v
  | inr named ↦ rw named (
      notify-IsBounded limits (keys_where (λ h t. of_subject u h t && not t.is_refresh) s.tokens) _
        (delete_devices-IsBounded limits (keys_where (device_of_subject u) s.devices)
          (record s {
            tokens = delete_where (of_subject u) s.tokens;
            codes = delete_where (code_of_subject u) s.codes;
          })
          (ground (
            arith,
            size-delete_where-le (of_subject u) s.tokens,
            size-delete_where-le (code_of_subject u) s.codes,
          ))))
]

pub sweep-IsBounded :
    (limits : Limits) (now : ℕ) (s : Store) → IsBounded limits s → IsBounded limits (sweep now s).0
unfolding sweep
sweep-IsBounded limits now s v =
    let s₁ = record s {
      codes = delete_where (code_expired now) s.codes;
      user_codes = sweep_user_codes now s.devices s.user_codes;
      devices = delete_where (device_expired now) s.devices;
    } in
    let s₂ = (sweep_tokens now s.tokens s₁).0 in
    let live = clients_with_live_tokens_locked now s₂ in
    let kept = sweep_tokens-IsBounded limits now s.tokens s₁ (
      ground (
        arith,
        size-delete_where-le (code_expired now) s.codes,
        size-delete_where-le (device_expired now) s.devices,
      )) in
    let s₃ = record s₂ {
      used_codes = delete_where (used_expired now) s₂.used_codes;
      rotated = delete_where (rotated_expired now) s₂.rotated;
      clients = delete_where (client_idle now s₂.client_retention live) s₂.clients;
    } in
    notify-IsBounded limits (sweep_tokens now s.tokens s₁).1 s₃ (
      ground (
        arith,
        kept,
        size-delete_where-le (used_expired now) s₂.used_codes,
        size-delete_where-le (rotated_expired now) s₂.rotated,
        size-delete_where-le (client_idle now s₂.client_retention live) s₂.clients,
      ))
