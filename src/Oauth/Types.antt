-- ===== src/Oauth/Types.antt =====
-- internal/oauth/store.go: the records that the store holds, and the store. A time is the number
-- of nanoseconds since Go's zero time, so that an unset time is 0; a duration is a number too.
use pgedge_postgres_mcp.Prelude.{
  ℕ, String, Bool, true, false, not, ◌||◌, List, [], ◌++◌, if◌then◌else◌, is_empty,
}
use pgedge_postgres_mcp.GoMap.{GoMap}

pub record Client : Type 0 where
  pub id : String
  pub name : String
  pub redirect_uris : List String
  pub created_at : ℕ
  pub last_used : ℕ

pub record AuthCode : Type 0 where
  pub hash : String
  pub client_id : String
  pub redirect_uri : String
  pub subject : String
  pub scope : String
  pub code_challenge : String
  pub expires_at : ℕ

pub record DeviceCode : Type 0 where
  pub device_hash : String
  pub user_code : String
  pub client_id : String
  pub scope : String
  pub subject : String
  pub approved : Bool
  pub denied : Bool
  pub expires_at : ℕ
  pub last_polled : ℕ
  pub interval : ℕ

pub record Token : Type 0 where
  pub hash : String
  pub client_id : String
  pub subject : String
  pub scope : String
  pub expires_at : ℕ
  pub refresh_hash : String
  pub is_refresh : Bool
  pub issued : List String
  pub family : String

-- `rotatedRefresh`
pub record RotatedRefresh : Type 0 where
  pub family : String
  pub until : ℕ

-- `usedCode`
pub record UsedCode : Type 0 where
  pub refresh_hash : String
  pub family : String
  pub until : ℕ

pub record Limits : Type 0 where
  pub clients : ℕ
  pub codes : ℕ
  pub device_codes : ℕ
  pub tokens : ℕ

-- `DefaultLimits`
abbrev pub default_limits : Limits
default_limits = record { clients = 1000; codes = 1000; device_codes = 1000; tokens = 10000 }

-- `hooked` says whether a revocation hook is installed, and `notified` holds the hashes that it has
-- been called with, the oldest first.
pub record Store : Type 0 where
  pub limits : Limits
  pub client_retention : ℕ
  pub clients : GoMap Client
  pub codes : GoMap AuthCode
  pub devices : GoMap DeviceCode
  pub user_codes : GoMap String
  pub tokens : GoMap Token
  pub used_codes : GoMap UsedCode
  pub rotated : GoMap RotatedRefresh
  pub hooked : Bool
  pub notified : List String

-- `clientIdleGrace`: an hour
abbrev pub client_idle_grace : ℕ
client_idle_grace = 3_600_000_000_000

abbrev pub new_store : Limits → ℕ → Store
new_store limits client_retention = record {
  limits = limits;
  client_retention = client_retention;
  clients = [];
  codes = [];
  devices = [];
  user_codes = [];
  tokens = [];
  used_codes = [];
  rotated = [];
  hooked = false;
  notified = [];
}

-- `SetRevocationHook`; main installs it once, before the store is shared.
abbrev pub set_revocation_hook : Store → Store
set_revocation_hook s = record s { hooked = true }

-- `notifyRevoked`
abbrev pub notify_revoked : List String → Store → Store
notify_revoked hashes s =
    if not s.hooked || is_empty hashes then s else record s { notified = s.notified ++ hashes }

-- The `error` of a `Put*` method.
pub data StoreError : Type 0 where
  store_full : StoreError
