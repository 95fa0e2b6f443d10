-- ===== src/Oauth/Store/Keys/Steps.antt =====
-- The keys of the store after each of its operations.
use pgedge_postgres_mcp.Prelude.{ℕ, refl, List, arith}
use pgedge_postgres_mcp.Oauth.Types.{Store, Limits, new_store}
use pgedge_postgres_mcp.GoMap.Keyed.{delete-Keyed, put-Keyed, delete_where-Keyed}
use pgedge_postgres_mcp.Oauth.Store.Tokens.{put_token, delete_token, delete_family, in_family}
use pgedge_postgres_mcp.Oauth.Store.Devices.{put_device_code, delete_device}
use pgedge_postgres_mcp.GoMap.Distinct.{delete-Distinct, put-Distinct}
use pgedge_postgres_mcp.Oauth.Store.Ops.{apply, Op, run, run_induction}
use pgedge_postgres_mcp.Oauth.Store.Codes.{put_code, take_code, mark_code_used, take_used_code}
use pgedge_postgres_mcp.Oauth.Store.Keys.{
  IsKeyed, code_key, device_key, delete_device_locked-IsKeyed, token_key, notify-IsKeyed,
  delete_token_locked-IsKeyed,
}
use pgedge_postgres_mcp.Oauth.Store.Keys.Clients.{
  put_client-IsKeyed, touch_client-IsKeyed, mark_refresh_rotated-IsKeyed,
}
use pgedge_postgres_mcp.Oauth.Store.Keys.Devices.{
  update_device-IsKeyed, approve_device-IsKeyed, deny_device-IsKeyed, touch_device_poll-IsKeyed,
  take_device_if_approved-IsKeyed,
}
use pgedge_postgres_mcp.Oauth.Store.Keys.Removals.{
  take_token-IsKeyed, delete_by_subject-IsKeyed, sweep-IsKeyed,
}

pub apply-IsKeyed : (op : Op) (s : Store) → IsKeyed s → IsKeyed (apply op s)
unfolding apply
apply-IsKeyed (Op.put_client c) s v = put_client-IsKeyed c s v
apply-IsKeyed (Op.touch_client id now) s v = touch_client-IsKeyed id now s v
apply-IsKeyed (Op.mark_refresh_rotated h f u) s v = mark_refresh_rotated-IsKeyed h f u s v
apply-IsKeyed (Op.put_code c) s v =
    unfold put_code in ground (arith, put-Keyed code_key c.hash c s.codes refl v.codes)
apply-IsKeyed (Op.take_code h) s v =
    unfold take_code in ground (arith, delete-Keyed code_key h s.codes v.codes)
apply-IsKeyed (Op.mark_code_used h r f u) s v =
    unfold mark_code_used in
    ground (
      arith,
      put-Distinct h (record { refresh_hash = r; family = f; until = u }) s.used_codes v.used_codes,
    )
apply-IsKeyed (Op.take_used_code h) s v =
    unfold take_used_code in ground (arith, delete-Distinct h s.used_codes v.used_codes)
apply-IsKeyed (Op.put_device_code d) s v =
    unfold put_device_code in
    ground (
      arith,
      put-Keyed device_key d.device_hash d s.devices refl v.devices,
      put-Distinct d.user_code d.device_hash s.user_codes v.user_codes,
    )
apply-IsKeyed (Op.update_device d) s v = update_device-IsKeyed d s v
apply-IsKeyed (Op.approve_device h u) s v = approve_device-IsKeyed h u s v
apply-IsKeyed (Op.deny_device h) s v = deny_device-IsKeyed h s v
apply-IsKeyed (Op.delete_device h) s v = unfold delete_device in delete_device_locked-IsKeyed h s v
apply-IsKeyed (Op.touch_device_poll h now) s v = touch_device_poll-IsKeyed h now s v
apply-IsKeyed (Op.take_device_if_approved h) s v = take_device_if_approved-IsKeyed h s v
apply-IsKeyed (Op.put_token t) s v =
    unfold put_token in ground (arith, put-Keyed token_key t.hash t s.tokens refl v.tokens)
apply-IsKeyed (Op.delete_token h) s v =
    unfold delete_token in notify-IsKeyed _ _ (delete_token_locked-IsKeyed h s v)
apply-IsKeyed (Op.take_token h) s v = take_token-IsKeyed h s v
apply-IsKeyed (Op.delete_family f) s v =
    unfold delete_family in
    ground (arith, delete_where-Keyed token_key (in_family f) s.tokens v.tokens)
apply-IsKeyed (Op.delete_by_subject u) s v = delete_by_subject-IsKeyed u s v
apply-IsKeyed (Op.sweep now) s v = sweep-IsKeyed now s v

-- After any sequence of operations on a new store, every map holds each key once, and each client,
-- code, device code and token stands under its own identifier or hash.
pub run-IsKeyed :
    (limits : Limits) (retention : ℕ) (ops : List Op)
    → IsKeyed (run ops (new_store limits retention))
run-IsKeyed limits retention ops =
    run_induction IsKeyed apply-IsKeyed ops (new_store limits retention) (ground arith)
