-- ===== src/Oauth/Server/DeviceGrant/Answers.antt =====
-- When the device grant answers with tokens.
use pgedge_postgres_mcp.Prelude.{
  ℕ, ◌+◌, ◌≤◌, ◌<◌, ◌≡◌, ◌≢◌, true, false, some, arith, eq_iff, eq_refl,
}
use pgedge_postgres_mcp.Oauth.Types.{Store, DeviceCode}
use pgedge_postgres_mcp.Oauth.Server.Errors.{
  Form, External, Config, Times, Draws, TokenResponse, granted,
}
use pgedge_postgres_mcp.Oauth.Server.DeviceGrant.{handle_device_code_grant}
use pgedge_postgres_mcp.Oauth.Store.Devices.{
  get_device_by_hash, touch_device_poll, take_device_if_approved, delete_device_locked,
}
use pgedge_postgres_mcp.Oauth.Server.Issue.{issue_tokens}
use pgedge_postgres_mcp.GoMap.{get, put}
use pgedge_postgres_mcp.Oauth.Server.Issue.Succeeds.{CanIssue, issue-succeeds}
use pgedge_postgres_mcp.GoMap.Laws.{get-put}

-- The device code `d` has been approved, for the client of the request, and may be polled again.
pub record IsReady (f : Form) (now : ℕ) (d : DeviceCode) : Type 0 where
  pub same_client : d.client_id ≡ f.client_id
  pub unexpired : now < d.expires_at
  pub waited : d.last_polled + d.interval ≤ now
  pub approved : d.approved ≡ true
  pub not_denied : d.denied ≡ false

module _ (ext : External) (config : Config) where
  -- A poll for a device code that has been approved and not denied is answered with tokens, if it
  -- comes from the client that asked for the code, before the code expires and after its interval,
  -- the draws succeed and the store has room for two tokens.
  pub approved_poll_is_answered :
      (f : Form) (times : Times) (draws : Draws) (s : Store) (d : DeviceCode)
      → f.device_code ≢ ""
      → f.client_id ≢ ""
      → get (ext.hash_token f.device_code) s.devices ≡ some d
      → IsReady f times.checked d
      → CanIssue draws s
      → (resp : TokenResponse) × ((handle_device_code_grant ext config f times draws s).1
          ≡ granted resp)
  unfolding handle_device_code_grant get_device_by_hash touch_device_poll take_device_if_approved
      delete_device_locked issue_tokens
  approved_poll_is_answered f times draws s d code client found ready can =
      let h = ext.hash_token f.device_code in
      let d₁ = record d { last_polled = times.checked } in
      let polled_store = record s { devices = put h d₁ s.devices } in
      let s₁ = delete_device_locked h polled_store in
      let can₁ : CanIssue draws s₁ = record {
        access = can.access;
        refresh = can.refresh;
        family = can.family;
        access_drawn = can.access_drawn;
        refresh_drawn = can.refresh_drawn;
        family_drawn = can.family_drawn;
        room = can.room;
      } in
      let (i, issued) =
        issue-succeeds ext config f.client_id d.subject d.scope draws times.issued s₁ can₁ in
      (
        i.response,
        ground (
          arith,
          found,
          issued,
          ready.same_client,
          ready.unexpired,
          ready.waited,
          ready.approved,
          ready.not_denied,
          eq_iff d.client_id f.client_id,
          get-put h h d₁ s.devices,
          eq_refl h,
          eq_iff f.device_code "",
          eq_iff f.client_id "",
        ),
      )
