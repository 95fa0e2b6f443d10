-- ===== src/Oauth/Store/Bounds/Devices.antt =====
-- The operations on device codes keep the limits.
use pgedge_postgres_mcp.Oauth.Store.Bounds.{IsBounded}
use pgedge_postgres_mcp.Prelude.{ℕ, String, ◌≡◌, inl, inr, true, some, arith, Option-cases}
use pgedge_postgres_mcp.GoMap.Laws.{size-put, has-get}
use pgedge_postgres_mcp.Oauth.Types.{Limits, Store, DeviceCode}
use pgedge_postgres_mcp.GoMap.{get, put}
use pgedge_postgres_mcp.Oauth.Store.Devices.{
  update_device, approve_device, deny_device, touch_device_poll,
}

-- A device on file is put back.
put_back-IsBounded :
    (limits : Limits) (h : String) (old d : DeviceCode) (s : Store)
    → get h s.devices ≡ some old
    → IsBounded limits s
    → IsBounded limits (record s { devices = put h d s.devices })
put_back-IsBounded limits h old d s found v =
    ground (arith, has-get h s.devices old found, size-put h d s.devices)

pub update_device-IsBounded :
    (limits : Limits) (d : DeviceCode) (s : Store)
    → IsBounded limits s
    → IsBounded limits (update_device d s)
unfolding update_device
update_device-IsBounded limits d s v = elim (Option-cases (get d.device_hash s.devices)) [
  | inl gone ↦ rw gone v
  | inr (old, found) ↦
      rw found (ground (arith, put_back-IsBounded limits d.device_hash old d s found v))
]

pub approve_device-IsBounded :
    (limits : Limits) (h u : String) (s : Store)
    → IsBounded limits s
    → IsBounded limits (approve_device h u s).0
unfolding approve_device
approve_device-IsBounded limits h u s v = elim (Option-cases (get h s.devices)) [
  | inl gone ↦ rw gone v
  | inr (d, found) ↦ rw found (
      ground (
        arith,
        put_back-IsBounded limits h d (record d { subject = u; approved = true }) s found v,
      ))
]

pub deny_device-IsBounded :
    (limits : Limits) (h : String) (s : Store)
    → IsBounded limits s
    → IsBounded limits (deny_device h s).0
unfolding deny_device
deny_device-IsBounded limits h s v = elim (Option-cases (get h s.devices)) [
  | inl gone ↦ rw gone v
  | inr (d, found) ↦
      rw found
        (ground (arith, put_back-IsBounded limits h d (record d { denied = true }) s found v))
]

pub touch_device_poll-IsBounded :
    (limits : Limits) (h : String) (now : ℕ) (s : Store)
    → IsBounded limits s
    → IsBounded limits (touch_device_poll h now s).0
unfolding touch_device_poll
touch_device_poll-IsBounded limits h now s v = elim (Option-cases (get h s.devices)) [
  | inl gone ↦ rw gone v
  | inr (d, found) ↦
      rw found
        (ground (arith, put_back-IsBounded limits h d (record d { last_polled = now }) s found v))
]
