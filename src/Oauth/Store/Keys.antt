-- ===== src/Oauth/Store/Keys.antt =====
-- The keys under which the maps of the store hold their entries.
pub mod Clients
pub mod Devices
pub mod Removals
pub mod Steps
use pgedge_postgres_mcp.Prelude.{
  ℕ, String, sym, inl, inr, List, [], ◌∷◌, arith, str_eq, ltb, Bool-cases, Option-cases, subst,
  codes,
}
use pgedge_postgres_mcp.Oauth.Types.{Client, AuthCode, DeviceCode, Token, Store, notify_revoked}
use pgedge_postgres_mcp.GoMap.Keyed.{Keyed, delete-Keyed, put-Keyed, Keyed-get}
use pgedge_postgres_mcp.GoMap.{GoMap, Distinct, get, delete}
use pgedge_postgres_mcp.Oauth.Store.Sweep.{sweep_tokens, sweep_user_codes, expired_token}
use pgedge_postgres_mcp.Oauth.Store.Tokens.{
  delete_token_locked, cascade, delete_devices, unlinked, remove_first,
}
use pgedge_postgres_mcp.Oauth.Store.Devices.{delete_device_locked}
use pgedge_postgres_mcp.Oauth.Store.Tokens.Frame.{delete_token_locked-frame}
use pgedge_postgres_mcp.GoMap.Distinct.{delete-Distinct}

abbrev pub token_key : Token → String
token_key t = t.hash

abbrev pub client_key : Client → String
client_key c = c.id

abbrev pub code_key : AuthCode → String
code_key c = c.hash

abbrev pub device_key : DeviceCode → String
device_key d = d.device_hash

pub record IsKeyed (s : Store) : Type 0 where
  pub clients : Keyed client_key s.clients
  pub codes : Keyed code_key s.codes
  pub devices : Keyed device_key s.devices
  pub tokens : Keyed token_key s.tokens
  pub user_codes : Distinct s.user_codes
  pub used_codes : Distinct s.used_codes
  pub rotated : Distinct s.rotated

pub notify-IsKeyed : (hs : List String) (s : Store) → IsKeyed s → IsKeyed (notify_revoked hs s)
notify-IsKeyed hs s v = ground arith

with_tokens :
    (m : GoMap Token) (s : Store)
    → IsKeyed s
    → Keyed token_key m
    → IsKeyed (record s { tokens = m })
with_tokens m s v k = record {
  clients = v.clients;
  codes = v.codes;
  devices = v.devices;
  tokens = k;
  user_codes = v.user_codes;
  used_codes = v.used_codes;
  rotated = v.rotated;
}

pub cascade-Keyed :
    (hs : List String) (m : GoMap Token) → Keyed token_key m → Keyed token_key (cascade hs m).0
unfolding cascade
cascade-Keyed [] m k = k
cascade-Keyed (h ∷ hs) m k = cascade-Keyed hs (delete h m) (delete-Keyed token_key h m k)

unlinked-Keyed :
    (h p : String) (m : GoMap Token)
    → Keyed token_key m
    → Keyed token_key (unlinked h p m (get p m))
unlinked-Keyed h p m k = elim (Option-cases (get p m)) [
  | inl gone ↦ rw gone k
  | inr (t, found) ↦ rw found (
      put-Keyed token_key p (record t { issued = remove_first h t.issued }) m
        (Keyed-get token_key p m t k found) k)
]

pub delete_token_locked-Keyed :
    (h : String) (s : Store)
    → Keyed token_key s.tokens
    → Keyed token_key (delete_token_locked h s).0.tokens
unfolding delete_token_locked
delete_token_locked-Keyed h s k =
    let k' = delete-Keyed token_key h s.tokens k in
    elim (Option-cases (get h s.tokens)) [
      | inl gone ↦ rw gone k
      | inr (t, found) ↦ rw found (elim (Bool-cases t.is_refresh) [
        | inl refresh ↦ rw refresh (cascade-Keyed t.issued (delete h s.tokens) k')
        | inr access ↦ rw access (elim (Bool-cases (str_eq t.refresh_hash "")) [
          | inl alone ↦ rw alone k'
          | inr child ↦ rw child (unlinked-Keyed h t.refresh_hash (delete h s.tokens) k')
        ])
      ])
    ]

pub delete_token_locked-IsKeyed :
    (h : String) (s : Store) → IsKeyed s → IsKeyed (delete_token_locked h s).0
delete_token_locked-IsKeyed h s v =
    subst IsKeyed (sym (delete_token_locked-frame h s))
      (with_tokens _ s v (delete_token_locked-Keyed h s v.tokens))

pub sweep_tokens-IsKeyed :
    (now : ℕ) (m : GoMap Token) (s : Store) → IsKeyed s → IsKeyed (sweep_tokens now m s).0
unfolding sweep_tokens
sweep_tokens-IsKeyed now [] s v = v
sweep_tokens-IsKeyed now ((h, t) ∷ m) s v = elim (Bool-cases (expired_token now (get h s.tokens))) [
  | inl old ↦ rw old (sweep_tokens-IsKeyed now m _ (delete_token_locked-IsKeyed h s v))
  | inr kept ↦ rw kept (sweep_tokens-IsKeyed now m s v)
]

pub delete_device_locked-IsKeyed :
    (h : String) (s : Store) → IsKeyed s → IsKeyed (delete_device_locked h s)
unfolding delete_device_locked
delete_device_locked-IsKeyed h s v = elim (Option-cases (get h s.devices)) [
  | inl gone ↦ rw gone (record {
    clients = v.clients;
    codes = v.codes;
    devices = delete-Keyed device_key h s.devices v.devices;
    tokens = v.tokens;
    user_codes = v.user_codes;
    used_codes = v.used_codes;
    rotated = v.rotated;
  })
  | inr (d, found) ↦ rw found (record {
    clients = v.clients;
    codes = v.codes;
    devices = delete-Keyed device_key h s.devices v.devices;
    tokens = v.tokens;
    user_codes = delete-Distinct d.user_code s.user_codes v.user_codes;
    used_codes = v.used_codes;
    rotated = v.rotated;
  })
]

pub delete_devices-IsKeyed :
    (hs : List String) (s : Store) → IsKeyed s → IsKeyed (delete_devices hs s)
unfolding delete_devices
delete_devices-IsKeyed [] s v = v
delete_devices-IsKeyed (h ∷ hs) s v =
    delete_devices-IsKeyed hs (delete_device_locked h s) (delete_device_locked-IsKeyed h s v)

pub sweep_user_codes-Distinct :
    (now : ℕ) (m : GoMap DeviceCode) (index : GoMap String)
    → Distinct index
    → Distinct (sweep_user_codes now m index)
unfolding sweep_user_codes
sweep_user_codes-Distinct now [] index d = d
sweep_user_codes-Distinct now ((h, x) ∷ m) index d = elim (Bool-cases (ltb x.expires_at now)) [
  | inl old ↦ rw old (sweep_user_codes-Distinct now m _ (delete-Distinct x.user_code index d))
  | inr kept ↦ rw kept (sweep_user_codes-Distinct now m index d)
]
