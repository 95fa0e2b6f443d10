-- ===== src/Oauth/Store/Devices.antt =====
-- internal/oauth/store.go: device codes and the index of their user codes.
use pgedge_postgres_mcp.Prelude.{
  ℕ, ◌+◌, String, Bool, true, false, not, ◌&&◌, ◌||◌, Option, none, some, str_eq, ltb, leb,
  if◌then◌else◌,
}
use pgedge_postgres_mcp.GoMap.{GoMap, get, has, put, delete, size}
use pgedge_postgres_mcp.Oauth.Types.{DeviceCode, Store, StoreError, store_full}

-- `PutDeviceCode`
unfoldable pub put_device_code : DeviceCode → Store → Store × Option StoreError
put_device_code d s =
    if not (has d.device_hash s.devices) && leb s.limits.device_codes (size s.devices)
    then (s, some store_full)
    else (
      record s {
        devices = put d.device_hash d s.devices;
        user_codes = put d.user_code d.device_hash s.user_codes;
      },
      none,
    )

-- `GetDeviceByHash`
unfoldable pub get_device_by_hash : String → Store → Option DeviceCode
get_device_by_hash hash s = get hash s.devices

-- `GetDeviceByUserCode`
unfoldable pub get_device_by_user_code : String → Store → Option DeviceCode
get_device_by_user_code code s = elim (get code s.user_codes) [
  | none ↦ none
  | some hash ↦ get hash s.devices
]

abbrev updated : DeviceCode → Store → Option DeviceCode → Store
updated d s none = s
updated d s (some old) = record s {
  user_codes =
      if str_eq old.user_code d.user_code
      then s.user_codes
      else put d.user_code d.device_hash (delete old.user_code s.user_codes);
  devices = put d.device_hash d s.devices;
}

-- `UpdateDevice`
unfoldable pub update_device : DeviceCode → Store → Store
update_device d s = updated d s (get d.device_hash s.devices)

abbrev approved_by : String → String → Store → Option DeviceCode → Store × Bool
approved_by hash subject s none = (s, false)
approved_by hash subject s (some dev) = if dev.approved || dev.denied then (s, false) else (
  record s { devices = put hash (record dev { subject = subject; approved = true }) s.devices },
  true,
)

-- `ApproveDevice`
unfoldable pub approve_device : String → String → Store → Store × Bool
approve_device hash subject s = approved_by hash subject s (get hash s.devices)

abbrev denied_now : String → Store → Option DeviceCode → Store × Bool
denied_now hash s none = (s, false)
denied_now hash s (some dev) =
    if dev.approved || dev.denied
    then (s, false)
    else (record s { devices = put hash (record dev { denied = true }) s.devices }, true)

-- `DenyDevice`
unfoldable pub deny_device : String → Store → Store × Bool
deny_device hash s = denied_now hash s (get hash s.devices)

abbrev without_user_code : GoMap String → Option DeviceCode → GoMap String
without_user_code m none = m
without_user_code m (some d) = delete d.user_code m

-- `deleteDeviceLocked`
unfoldable pub delete_device_locked : String → Store → Store
delete_device_locked hash s = record s {
  user_codes = without_user_code s.user_codes (get hash s.devices);
  devices = delete hash s.devices;
}

-- `DeleteDevice`
unfoldable pub delete_device : String → Store → Store
unfolding delete_device_locked
delete_device hash s = delete_device_locked hash s

-- What `TouchDevicePoll` returns besides the new state.
pub record Poll : Type 0 where
  pub device : DeviceCode
  pub too_soon : Bool

-- `now.Sub(dev.LastPolled) < dev.Interval`
abbrev pub polled_too_soon : DeviceCode → ℕ → Bool
polled_too_soon dev now = ltb now (dev.last_polled + dev.interval)

abbrev polled : String → ℕ → Store → Option DeviceCode → Store × Option Poll
polled hash now s none = (s, none)
polled hash now s (some dev) =
    if polled_too_soon dev now
    then (s, some (record { device = dev; too_soon = true }))
    else let dev' = record dev { last_polled = now } in
      (
        record s { devices = put hash dev' s.devices },
        some (record { device = dev'; too_soon = false }),
      )

-- `TouchDevicePoll`
unfoldable pub touch_device_poll : String → ℕ → Store → Store × Option Poll
touch_device_poll hash now s = polled hash now s (get hash s.devices)

abbrev taken_if_approved : String → Store → Option DeviceCode → Store × Option DeviceCode
taken_if_approved hash s none = (s, none)
taken_if_approved hash s (some dev) =
    if not dev.approved || dev.denied then (s, none) else (delete_device_locked hash s, some dev)

-- `TakeDeviceIfApproved`
unfoldable pub take_device_if_approved : String → Store → Store × Option DeviceCode
unfolding delete_device_locked
take_device_if_approved hash s = taken_if_approved hash s (get hash s.devices)
