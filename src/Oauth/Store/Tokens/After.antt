-- ===== src/Oauth/Store/Tokens/After.antt =====
-- The tokens that each public operation leaves.
use pgedge_postgres_mcp.Prelude.{
  ℕ, String, ◌≡◌, sym, ap, inl, inr, List, arith, str_eq, if◌then◌else◌, Option-cases,
}
use pgedge_postgres_mcp.Oauth.Types.{Store, notify_revoked}
use pgedge_postgres_mcp.Oauth.Store.Tokens.{
  delete_token, delete_family, take_token, delete_by_subject, of_subject, in_family,
  delete_token_locked, device_of_subject, code_of_subject,
}
use pgedge_postgres_mcp.GoMap.{delete_where, get, keys_where}
use pgedge_postgres_mcp.Oauth.Store.Sweep.{
  sweep, code_expired, sweep_tokens, sweep_user_codes, device_expired, rotated_expired,
  used_expired, client_idle,
}
use pgedge_postgres_mcp.Oauth.Store.Tokens.Frame.{
  delete_devices-frame, delete_token_locked-frame, sweep_tokens-frame,
}
use pgedge_postgres_mcp.Oauth.Store.Clients.{clients_with_live_tokens_locked}

pub tokens-notify : (hs : List String) (s : Store) → (notify_revoked hs s).tokens ≡ s.tokens
tokens-notify hs s = ground arith

pub tokens-delete_token :
    (k : String) (s : Store) → (delete_token k s).0.tokens ≡ (delete_token_locked k s).0.tokens
unfolding delete_token
tokens-delete_token k s = tokens-notify (delete_token_locked k s).1 (delete_token_locked k s).0

pub tokens-take_token :
    (k : String) (s : Store) → (take_token k s).0.tokens ≡ (delete_token_locked k s).0.tokens
unfolding take_token
tokens-take_token k s = elim (Option-cases (get k s.tokens)) [
  | inl gone ↦ rw gone (sym (unfold delete_token_locked in rw gone))
  | inr (t, found) ↦
      rw found (tokens-notify (delete_token_locked k s).1 (delete_token_locked k s).0)
]

pub tokens-delete_family :
    (f : String) (s : Store)
    → (delete_family f s).0.tokens
      ≡ (if str_eq f "" then s.tokens else delete_where (in_family f) s.tokens)
unfolding delete_family
tokens-delete_family f s = ground arith

pub tokens-delete_by_subject :
    (u : String) (s : Store)
    → (delete_by_subject u s).0.tokens
      ≡ (if str_eq u "" then s.tokens else delete_where (of_subject u) s.tokens)
unfolding delete_by_subject
tokens-delete_by_subject u s = ground (
  arith,
  delete_devices-frame (keys_where (device_of_subject u) s.devices) (record s {
    tokens = delete_where (of_subject u) s.tokens;
    codes = delete_where (code_of_subject u) s.codes;
  }),
)

-- The store in which `Sweep` starts on the tokens: expired codes and devices are gone.
abbrev pub swept_codes : ℕ → Store → Store
swept_codes now s = record s {
  codes = delete_where (code_expired now) s.codes;
  user_codes = sweep_user_codes now s.devices s.user_codes;
  devices = delete_where (device_expired now) s.devices;
}

pub tokens-sweep :
    (now : ℕ) (s : Store)
    → (sweep now s).0.tokens ≡ (sweep_tokens now s.tokens (swept_codes now s)).0.tokens
unfolding sweep
tokens-sweep now s = ground arith

-- Deletions of tokens leave all else alone but what the hook has heard.
pub codes-delete_token_locked :
    (k : String) (s : Store) → (delete_token_locked k s).0.codes ≡ s.codes
codes-delete_token_locked k s = ap (λ r. Store.codes r) (delete_token_locked-frame k s)

pub codes-delete_token : (k : String) (s : Store) → (delete_token k s).0.codes ≡ s.codes
unfolding delete_token
codes-delete_token k s = ground (arith, codes-delete_token_locked k s)

pub codes-take_token : (k : String) (s : Store) → (take_token k s).0.codes ≡ s.codes
unfolding take_token
codes-take_token k s = ground (arith, codes-delete_token_locked k s)

pub codes-delete_by_subject :
    (u : String) (s : Store)
    → (delete_by_subject u s).0.codes
      ≡ (if str_eq u "" then s.codes else delete_where (code_of_subject u) s.codes)
unfolding delete_by_subject
codes-delete_by_subject u s = ground (
  arith,
  delete_devices-frame (keys_where (device_of_subject u) s.devices) (record s {
    tokens = delete_where (of_subject u) s.tokens;
    codes = delete_where (code_of_subject u) s.codes;
  }),
)

pub codes-sweep :
    (now : ℕ) (s : Store) → (sweep now s).0.codes ≡ delete_where (code_expired now) s.codes
unfolding sweep
codes-sweep now s = ground (arith, sweep_tokens-frame now s.tokens (swept_codes now s))

pub devices-sweep :
    (now : ℕ) (s : Store) → (sweep now s).0.devices ≡ delete_where (device_expired now) s.devices
unfolding sweep
devices-sweep now s = ground (arith, sweep_tokens-frame now s.tokens (swept_codes now s))

pub devices-delete_token : (k : String) (s : Store) → (delete_token k s).0.devices ≡ s.devices
unfolding delete_token
devices-delete_token k s = ground (arith, delete_token_locked-frame k s)

pub devices-take_token : (k : String) (s : Store) → (take_token k s).0.devices ≡ s.devices
unfolding take_token
devices-take_token k s = ground (arith, delete_token_locked-frame k s)

pub used_codes-sweep :
    (now : ℕ) (s : Store)
    → (sweep now s).0.used_codes ≡ delete_where (used_expired now) s.used_codes
unfolding sweep
used_codes-sweep now s = ground (arith, sweep_tokens-frame now s.tokens (swept_codes now s))

pub rotated-sweep :
    (now : ℕ) (s : Store) → (sweep now s).0.rotated ≡ delete_where (rotated_expired now) s.rotated
unfolding sweep
rotated-sweep now s = ground (arith, sweep_tokens-frame now s.tokens (swept_codes now s))

-- The live clients depend on the tokens alone, which the sweep of the clients does not change.
pub clients-sweep :
    (now : ℕ) (s : Store)
    → (sweep now s).0.clients
      ≡ delete_where
          (client_idle now s.client_retention (clients_with_live_tokens_locked now (sweep now s).0))
          s.clients
unfolding sweep clients_with_live_tokens_locked
clients-sweep now s = ground (arith, sweep_tokens-frame now s.tokens (swept_codes now s))

pub devices-notify : (hs : List String) (s : Store) → (notify_revoked hs s).devices ≡ s.devices
devices-notify hs s = ground arith
