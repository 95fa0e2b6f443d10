-- ===== src/Oauth/Store/Keys/Devices.antt =====
-- The keys after an operation on a device code.
use pgedge_postgres_mcp.Prelude.{
  ℕ, String, ◌≡◌, refl, ◌∙◌, inl, inr, true, some, arith, Option-cases,
}
use pgedge_postgres_mcp.Oauth.Types.{Store, DeviceCode}
use pgedge_postgres_mcp.GoMap.Keyed.{put-Keyed, Keyed-get}
use pgedge_postgres_mcp.GoMap.{get, delete, put}
use pgedge_postgres_mcp.Oauth.Store.Devices.{
  update_device, approve_device, deny_device, touch_device_poll, take_device_if_approved,
}
use pgedge_postgres_mcp.GoMap.Distinct.{delete-Distinct, put-Distinct}
use pgedge_postgres_mcp.Oauth.Store.Keys.{IsKeyed, device_key, delete_device_locked-IsKeyed}

-- A device on file is put back under its own hash.
put_back-IsKeyed :
    (h : String) (old d : DeviceCode) (s : Store)
    → get h s.devices ≡ some old
    → d.device_hash ≡ old.device_hash
    → IsKeyed s
    → IsKeyed (record s { devices = put h d s.devices })
put_back-IsKeyed h old d s found same v =
    let own = Keyed-get device_key h s.devices old v.devices found in
    ground (arith, put-Keyed device_key h d s.devices (same ∙ own) v.devices)

pub update_device-IsKeyed : (d : DeviceCode) (s : Store) → IsKeyed s → IsKeyed (update_device d s)
unfolding update_device
update_device-IsKeyed d s v = elim (Option-cases (get d.device_hash s.devices)) [
  | inl gone ↦ rw gone v
  | inr (old, found) ↦ rw found (
      ground (
        arith,
        put-Keyed device_key d.device_hash d s.devices refl v.devices,
        put-Distinct d.user_code d.device_hash (delete old.user_code s.user_codes)
            (delete-Distinct old.user_code s.user_codes v.user_codes),
      ))
]

pub approve_device-IsKeyed :
    (h u : String) (s : Store) → IsKeyed s → IsKeyed (approve_device h u s).0
unfolding approve_device
approve_device-IsKeyed h u s v = elim (Option-cases (get h s.devices)) [
  | inl gone ↦ rw gone v
  | inr (d, found) ↦ rw found (
      ground
        (arith, put_back-IsKeyed h d (record d { subject = u; approved = true }) s found refl v))
]

pub deny_device-IsKeyed : (h : String) (s : Store) → IsKeyed s → IsKeyed (deny_device h s).0
unfolding deny_device
deny_device-IsKeyed h s v = elim (Option-cases (get h s.devices)) [
  | inl gone ↦ rw gone v
  | inr (d, found) ↦
      rw found (ground (arith, put_back-IsKeyed h d (record d { denied = true }) s found refl v))
]

pub touch_device_poll-IsKeyed :
    (h : String) (now : ℕ) (s : Store) → IsKeyed s → IsKeyed (touch_device_poll h now s).0
unfolding touch_device_poll
touch_device_poll-IsKeyed h now s v = elim (Option-cases (get h s.devices)) [
  | inl gone ↦ rw gone v
  | inr (d, found) ↦
      rw found
        (ground (arith, put_back-IsKeyed h d (record d { last_polled = now }) s found refl v))
]

pub take_device_if_approved-IsKeyed :
    (h : String) (s : Store) → IsKeyed s → IsKeyed (take_device_if_approved h s).0
unfolding take_device_if_approved
take_device_if_approved-IsKeyed h s v = elim (Option-cases (get h s.devices)) [
  | inl gone ↦ rw gone v
  | inr (d, found) ↦ rw found (ground (arith, delete_device_locked-IsKeyed h s v))
]
