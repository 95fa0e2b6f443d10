-- ===== src/Oauth/Store/Approval.antt =====
-- The answer to a device authorisation request.
use pgedge_postgres_mcp.Prelude.{
  ℕ, String, ◌≡◌, refl, inl, inr, Bool, true, false, not, ◌||◌, Option, none, some, List, [], ◌∷◌,
  arith, eq_iff, str_eq, Bool-cases, Option-cases,
}
use pgedge_postgres_mcp.Oauth.Types.{DeviceCode, Store}
use pgedge_postgres_mcp.Oauth.Store.Ops.{Op, apply, run}
use pgedge_postgres_mcp.GoMap.{GoMap, get, delete, put, keys_where, delete_where}
use pgedge_postgres_mcp.Oauth.Store.Tokens.{
  delete_devices, put_token, delete_family, delete_by_subject, device_of_subject, of_subject,
  code_of_subject,
}
use pgedge_postgres_mcp.Oauth.Store.Devices.{
  delete_device_locked, put_device_code, update_device, approve_device, delete_device,
  touch_device_poll, polled_too_soon, take_device_if_approved, deny_device,
}
use pgedge_postgres_mcp.GoMap.Laws.{get-delete, get-put}
use pgedge_postgres_mcp.Oauth.Store.Clients.{put_client, touch_client, mark_refresh_rotated}
use pgedge_postgres_mcp.Oauth.Store.Codes.{mark_code_used, take_used_code, put_code, take_code}
use pgedge_postgres_mcp.Oauth.Store.Keys.{IsKeyed, device_key}
use pgedge_postgres_mcp.Oauth.Store.Tokens.After.{
  devices-delete_token, devices-take_token, devices-sweep, devices-notify,
}
use pgedge_postgres_mcp.GoMap.Distinct.{get-delete_where}
use pgedge_postgres_mcp.Oauth.Store.Sweep.{device_expired}
use pgedge_postgres_mcp.GoMap.Keyed.{Keyed-Distinct}
use pgedge_postgres_mcp.Oauth.Store.SingleUse.{NoneOf, run_keeps}
use pgedge_postgres_mcp.Oauth.Store.Keys.Steps.{apply-IsKeyed}

-- Whether an operation writes a whole device code under a hash.
abbrev pub writes_device : String → Op → Bool
writes_device h (Op.put_device_code d) = str_eq d.device_hash h
writes_device h (Op.update_device d) = str_eq d.device_hash h
writes_device h _ = false

-- Device code `o`, if it is still there, has this answer by this subject.
abbrev pub Answered : Bool → Bool → String → Option DeviceCode → Type 0
Answered approved denied subject none = Unit {0}
Answered approved denied subject (some d) =
    (d.approved ≡ approved) × (d.denied ≡ denied) × (d.subject ≡ subject)

module _ (h : String) (yes_ no_ : Bool) (u : String) (settled : (yes_ || no_) ≡ true) where
  abbrev Holds : Store → Type 0
  Holds s = Answered yes_ no_ u (get h s.devices)

  put_same :
      (k : String) (d d' : DeviceCode) (m : GoMap DeviceCode)
      → get k m ≡ some d
      → d'.approved ≡ d.approved
      → d'.denied ≡ d.denied
      → d'.subject ≡ d.subject
      → Answered yes_ no_ u (get h m)
      → Answered yes_ no_ u (get h (put k d' m))
  put_same k d d' m at_k a n b holds = elim (Bool-cases (str_eq k h)) [
    | inl same ↦
        let now : Answered yes_ no_ u (some d) = rw at_k at (rw (← (eq_iff k h).0 same) at holds) in
        rw get-put (rw same (ground (arith, now)))
    | inr other ↦ rw get-put (rw other holds)
  ]

  -- A device code that awaits its answer is another one.
  put_pending :
      (k : String) (d d' : DeviceCode) (m : GoMap DeviceCode)
      → get k m ≡ some d
      → (d.approved || d.denied) ≡ false
      → Answered yes_ no_ u (get h m)
      → Answered yes_ no_ u (get h (put k d' m))
  put_pending k d d' m at_k pending holds = elim (Bool-cases (str_eq k h)) [
    | inl same ↦
        let now : Answered yes_ no_ u (some d) = rw at_k at (rw (← (eq_iff k h).0 same) at holds) in
        absurd (ground (arith, now, settled, pending))
    | inr other ↦ rw get-put (rw other holds)
  ]

  delete_same :
      (k : String) (m : GoMap DeviceCode)
      → Answered yes_ no_ u (get h m)
      → Answered yes_ no_ u (get h (delete k m))
  delete_same k m holds = elim (Bool-cases (str_eq k h)) [
    | inl same ↦ rw get-delete (rw same tt)
    | inr other ↦ rw get-delete (rw other holds)
  ]

  delete_devices_same : (hs : List String) (s : Store) → Holds s → Holds (delete_devices hs s)
  unfolding delete_devices
  delete_devices_same [] s holds = holds
  delete_devices_same (k ∷ hs) s holds =
      delete_devices_same hs (delete_device_locked k s) (delete_same k s.devices holds)

  approve_device-Holds : (k w : String) (s : Store) → Holds s → Holds (approve_device k w s).0
  unfolding approve_device
  approve_device-Holds k w s holds = elim (Option-cases (get k s.devices)) [
    | inl gone ↦ rw gone holds
    | inr (d, found) ↦ rw found (elim (Bool-cases (d.approved || d.denied)) [
      | inl resolved ↦ rw resolved holds
      | inr pending ↦ rw pending (
          put_pending k d (record d { subject = w; approved = true }) s.devices found pending holds)
    ])
  ]

  deny_device-Holds : (k : String) (s : Store) → Holds s → Holds (deny_device k s).0
  unfolding deny_device
  deny_device-Holds k s holds = elim (Option-cases (get k s.devices)) [
    | inl gone ↦ rw gone holds
    | inr (d, found) ↦ rw found (elim (Bool-cases (d.approved || d.denied)) [
      | inl resolved ↦ rw resolved holds
      | inr pending ↦
          rw pending (put_pending k d (record d { denied = true }) s.devices found pending holds)
    ])
  ]

  touch_device_poll-Holds :
      (k : String) (now : ℕ) (s : Store) → Holds s → Holds (touch_device_poll k now s).0
  unfolding touch_device_poll
  touch_device_poll-Holds k now s holds = elim (Option-cases (get k s.devices)) [
    | inl gone ↦ rw gone holds
    | inr (d, found) ↦ rw found (elim (Bool-cases (polled_too_soon d now)) [
      | inl soon ↦ rw soon holds
      | inr late ↦
          rw late
            (put_same k d (record d { last_polled = now }) s.devices found refl refl refl holds)
    ])
  ]

  take_device_if_approved-Holds :
      (k : String) (s : Store) → Holds s → Holds (take_device_if_approved k s).0
  unfolding take_device_if_approved
  take_device_if_approved-Holds k s holds = elim (Option-cases (get k s.devices)) [
    | inl gone ↦ rw gone holds
    | inr (d, found) ↦ rw found (elim (Bool-cases (not d.approved || d.denied)) [
      | inl pending ↦ rw pending holds
      | inr approved ↦ rw approved (delete_same k s.devices holds)
    ])
  ]

  delete_by_subject-Holds : (w : String) (s : Store) → Holds s → Holds (delete_by_subject w s).0
  unfolding delete_by_subject
  delete_by_subject-Holds w s holds = elim (Bool-cases (str_eq w "")) [
    | inl nobody ↦ rw nobody holds
    | inr named ↦ rw named (
        rw devices-notify (
          delete_devices_same (keys_where (device_of_subject w) s.devices)
            (record s {
              tokens = delete_where (of_subject w) s.tokens;
              codes = delete_where (code_of_subject w) s.codes;
            })
            holds))
  ]

  answer_stays :
      (op : Op) (s : Store) → writes_device h op ≡ false → IsKeyed s × Holds s → Holds (apply op s)
  unfolding apply put_client touch_client mark_refresh_rotated mark_code_used take_used_code
      put_code take_code put_token delete_family
  answer_stays (Op.put_device_code d) s other (v, holds) =
      unfold put_device_code in ground (arith, get-put d.device_hash h d s.devices)
  answer_stays (Op.update_device d) s other (v, holds) =
      unfold update_device in ground (arith, get-put d.device_hash h d s.devices)
  answer_stays (Op.approve_device k w) s other (v, holds) = approve_device-Holds k w s holds
  answer_stays (Op.deny_device k) s other (v, holds) = deny_device-Holds k s holds
  answer_stays (Op.delete_device k) s other (v, holds) =
      unfold delete_device in delete_same k s.devices holds
  answer_stays (Op.touch_device_poll k now) s other (v, holds) =
      touch_device_poll-Holds k now s holds
  answer_stays (Op.take_device_if_approved k) s other (v, holds) =
      take_device_if_approved-Holds k s holds
  answer_stays (Op.delete_token k) s other (v, holds) = rw (devices-delete_token k s) holds
  answer_stays (Op.take_token k) s other (v, holds) = rw (devices-take_token k s) holds
  answer_stays (Op.delete_by_subject w) s other (v, holds) = delete_by_subject-Holds w s holds
  answer_stays (Op.sweep now) s other (v, holds) = rw (devices-sweep now s) (
      rw
        (get-delete_where (device_expired now) h s.devices
          (Keyed-Distinct device_key s.devices v.devices))
        (ground arith))
  answer_stays _ s other (v, holds) = ground arith

-- Once a device code of a well-formed store is approved or denied, the answer and its subject
-- stand as long as it exists, and no later approval or refusal succeeds, whatever operations run
-- in between that do not write a device code under its hash.
pub answer_is_final :
    (h : String) (d : DeviceCode) (s : Store) (ops : List Op) (u : String)
    → IsKeyed s
    → get h s.devices ≡ some d
    → (d.approved || d.denied) ≡ true
    → NoneOf (writes_device h) ops
    → Answered d.approved d.denied d.subject (get h (run ops s).devices)
      × ((approve_device h u (run ops s)).1 ≡ false)
      × ((deny_device h (run ops s)).1 ≡ false)
unfolding approve_device deny_device
answer_is_final h d s ops u v found settled n =
    let holds : Answered d.approved d.denied d.subject (get h s.devices) =
      rw found (refl, refl, refl) in
    let (v', stays) =
      run_keeps (λ r. IsKeyed r × Answered d.approved d.denied d.subject (get h r.devices))
        (writes_device h)
        (λ op r e p.
          (apply-IsKeyed op r p.0, answer_stays h d.approved d.denied d.subject settled op r e p))
        ops s n (v, holds) in
    (stays, ground arith, ground arith)
