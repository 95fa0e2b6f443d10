-- ===== src/Oauth/Server/RefreshGrant.antt =====
-- internal/oauth/token.go: the refresh token grant, and server.go: `RevokeSubject` and
-- `ValidateAccessToken`.
pub mod Rotate
pub mod Rotation
pub mod Reuse
pub mod Refused
use pgedge_postgres_mcp.Prelude.{
  ℕ, ◌+◌, String, Bool, not, ◌||◌, Option, none, some, List, str_eq, ltb, if◌then◌else◌,
}
use pgedge_postgres_mcp.Oauth.Types.{Token, Store}
use pgedge_postgres_mcp.Oauth.Server.Errors.{
  GrantResult, granted, refused, Config, External, Draws, Times, Form, TokenResponse, new_error,
  generic_refresh_invalid_grant,
}
use pgedge_postgres_mcp.Oauth.Server.Issue.{issue_tokens}
use pgedge_postgres_mcp.Oauth.Store.Tokens.{delete_family, get_token, delete_by_subject, take_token}
use pgedge_postgres_mcp.Oauth.Store.Clients.{rotated_refresh_family, mark_refresh_rotated}

abbrev pub invalid_refresh : GrantResult
invalid_refresh = refused (new_error "invalid_grant" generic_refresh_invalid_grant 400)

-- `RevokeSubject`
abbrev pub revoke_subject : String → Store → Store × List String
revoke_subject subject s = delete_by_subject subject s

-- A refresh token that is not on file: a replay of one that was rotated away revokes its family.
abbrev refresh_unknown : Store → Option String → Store × GrantResult
refresh_unknown s none = (s, invalid_refresh)
refresh_unknown s (some family) = ((delete_family family s).0, invalid_refresh)

module _ (ext : External) (config : Config) where
  unfoldable pub refresh_rejected : Form → ℕ → Token → Bool
  refresh_rejected f now t =
      not t.is_refresh || not (ltb now t.expires_at) || not (str_eq t.client_id f.client_id)

  abbrev refresh_issued : Form → Times → Token → Store × Option TokenResponse → Store × GrantResult
  refresh_issued f times t (s, none) =
      (s, refused (new_error "server_error" "failed to issue tokens" 503))
  refresh_issued f times t (s, some tr) = (
    mark_refresh_rotated (ext.hash_token f.refresh_token) t.family
        (times.marked + config.refresh_token_lifetime) s,
    granted tr,
  )

  abbrev refresh_taken : Form → Times → Draws → Store × Option Token → Store × GrantResult
  refresh_taken f times draws (s, none) =
      refresh_unknown s (rotated_refresh_family (ext.hash_token f.refresh_token) s)
  refresh_taken f times draws (s, some t) =
      if refresh_rejected f times.checked t
      then (s, invalid_refresh)
      else if not (ext.subject_active t.subject)
      then ((revoke_subject t.subject s).0, invalid_refresh)
      else refresh_issued f times t
          (issue_tokens ext config f.client_id t.subject t.scope t.family draws times.issued s)

  -- `handleRefreshTokenGrant`
  unfoldable pub handle_refresh_token_grant : Form → Times → Draws → Store → Store × GrantResult
  handle_refresh_token_grant f times draws s =
      if str_eq f.refresh_token "" || str_eq f.client_id ""
      then (s, refused (new_error "invalid_request" "refresh_token and client_id are required" 400))
      else refresh_taken f times draws (take_token (ext.hash_token f.refresh_token) s)

  abbrev validated : ℕ → Store → Option Token → Store × Option (String × String)
  validated now s none = (s, none)
  validated now s (some t) =
      if t.is_refresh || not (ltb now t.expires_at)
      then (s, none)
      else if not (ext.subject_active t.subject)
      then ((revoke_subject t.subject s).0, none)
      else (s, some (t.subject, t.client_id))

  -- `ValidateAccessToken`: the subject and the client of a valid access token
  unfoldable pub validate_access_token : String → ℕ → Store → Store × Option (String × String)
  validate_access_token token now s = validated now s (get_token (ext.hash_token token) s)
