-- ===== src/Oauth/Store/Bounds.antt =====
-- The sizes of the store's collections against its limits.
pub mod Clients
pub mod Devices
pub mod Tokens
pub mod Run
use pgedge_postgres_mcp.Prelude.{◌≤◌, ◌<◌, String, ◌≡◌, List, arith, codes}
use pgedge_postgres_mcp.Oauth.Types.{Limits, Store, notify_revoked}
use pgedge_postgres_mcp.GoMap.{size}

-- A store that may hold no token at all would still record one rotation.
pub record IsBounded (limits : Limits) (s : Store) : Type 0 where
  pub limits_same : s.limits ≡ limits
  pub some_tokens : 0 < limits.tokens
  pub clients : size s.clients ≤ limits.clients
  pub codes : size s.codes ≤ limits.codes
  pub devices : size s.devices ≤ limits.device_codes
  pub tokens : size s.tokens ≤ limits.tokens
  pub used_codes : size s.used_codes ≤ limits.codes
  pub rotated : size s.rotated ≤ limits.tokens

pub notify-IsBounded :
    (limits : Limits) (hs : List String) (s : Store)
    → IsBounded limits s
    → IsBounded limits (notify_revoked hs s)
notify-IsBounded limits hs s v = ground arith
