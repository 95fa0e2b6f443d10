-- ===== src/Oauth/Store/Bounds/Run.antt =====
-- Every sequence of operations keeps the limits.
use pgedge_postgres_mcp.Oauth.Store.Bounds.{IsBounded, notify-IsBounded}
use pgedge_postgres_mcp.Prelude.{ℕ, ◌<◌, List, arith}
use pgedge_postgres_mcp.GoMap.Laws.{size-put, size-delete-le, size-delete_where-le}
use pgedge_postgres_mcp.Oauth.Types.{Limits, Store, new_store}
use pgedge_postgres_mcp.Oauth.Store.Ops.{Op, apply, run, run_induction}
use pgedge_postgres_mcp.Oauth.Store.Codes.{put_code, take_code, mark_code_used, take_used_code}
use pgedge_postgres_mcp.Oauth.Store.Devices.{
  put_device_code, delete_device, take_device_if_approved,
}
use pgedge_postgres_mcp.Oauth.Store.Tokens.{put_token, delete_family, in_family, delete_token}
use pgedge_postgres_mcp.Oauth.Store.Bounds.Clients.{
  put_client-IsBounded, touch_client-IsBounded, mark_refresh_rotated-IsBounded,
}
use pgedge_postgres_mcp.Oauth.Store.Bounds.Devices.{
  update_device-IsBounded, approve_device-IsBounded, deny_device-IsBounded,
  touch_device_poll-IsBounded,
}
use pgedge_postgres_mcp.Oauth.Store.Bounds.Tokens.{
  delete_token_locked-IsBounded, take_token-IsBounded, delete_by_subject-IsBounded, sweep-IsBounded,
}

apply-IsBounded :
    (limits : Limits) (op : Op) (s : Store) → IsBounded limits s → IsBounded limits (apply op s)
unfolding apply
apply-IsBounded limits (Op.put_client c) s v = put_client-IsBounded limits c s v
apply-IsBounded limits (Op.touch_client id now) s v = touch_client-IsBounded limits id now s v
apply-IsBounded limits (Op.mark_refresh_rotated h f u) s v =
    mark_refresh_rotated-IsBounded limits h f u s v
apply-IsBounded limits (Op.put_code c) s v =
    unfold put_code in ground (arith, size-put c.hash c s.codes)
apply-IsBounded limits (Op.take_code h) s v =
    unfold take_code in ground (arith, size-delete-le h s.codes)
apply-IsBounded limits (Op.mark_code_used h r f u) s v =
    unfold mark_code_used in
    ground (arith, size-put h (record { refresh_hash = r; family = f; until = u }) s.used_codes)
apply-IsBounded limits (Op.take_used_code h) s v =
    unfold take_used_code in ground (arith, size-delete-le h s.used_codes)
apply-IsBounded limits (Op.put_device_code d) s v =
    unfold put_device_code in ground (arith, size-put d.device_hash d s.devices)
apply-IsBounded limits (Op.update_device d) s v = update_device-IsBounded limits d s v
apply-IsBounded limits (Op.approve_device h u) s v = approve_device-IsBounded limits h u s v
apply-IsBounded limits (Op.deny_device h) s v = deny_device-IsBounded limits h s v
apply-IsBounded limits (Op.delete_device h) s v =
    unfold delete_device in ground (arith, size-delete-le h s.devices)
apply-IsBounded limits (Op.touch_device_poll h now) s v =
    touch_device_poll-IsBounded limits h now s v
apply-IsBounded limits (Op.take_device_if_approved h) s v =
    unfold take_device_if_approved in ground (arith, size-delete-le h s.devices)
apply-IsBounded limits (Op.put_token t) s v =
    unfold put_token in ground (arith, size-put t.hash t s.tokens)
apply-IsBounded limits (Op.delete_token h) s v =
    unfold delete_token in notify-IsBounded limits _ _ (delete_token_locked-IsBounded limits h s v)
apply-IsBounded limits (Op.take_token h) s v = take_token-IsBounded limits h s v
apply-IsBounded limits (Op.delete_family f) s v =
    unfold delete_family in ground (arith, size-delete_where-le (in_family f) s.tokens)
apply-IsBounded limits (Op.delete_by_subject u) s v = delete_by_subject-IsBounded limits u s v
apply-IsBounded limits (Op.sweep now) s v = sweep-IsBounded limits now s v

-- After any sequence of operations on a new store that may hold tokens, no collection is larger
-- than its limit.
pub run-IsBounded :
    (limits : Limits) (retention : ℕ) (ops : List Op)
    → 0 < limits.tokens
    → IsBounded limits (run ops (new_store limits retention))
run-IsBounded limits retention ops pos =
    run_induction (IsBounded limits) (apply-IsBounded limits) ops (new_store limits retention)
      (ground arith)
