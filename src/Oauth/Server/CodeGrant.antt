-- ===== src/Oauth/Server/CodeGrant.antt =====
-- internal/oauth/token.go: the authorisation code grant.
pub mod Redeem
pub mod Answers
pub mod Replay
pub mod Refused
use pgedge_postgres_mcp.Prelude.{
  ℕ, ◌+◌, Bool, not, ◌||◌, Option, none, some, str_eq, ltb, if◌then◌else◌,
}
use pgedge_postgres_mcp.Oauth.Types.{AuthCode, UsedCode, Store}
use pgedge_postgres_mcp.Oauth.Server.Errors.{
  GrantResult, granted, refused, Config, External, Draws, Times, Form, new_error,
  generic_auth_code_invalid_grant,
}
use pgedge_postgres_mcp.Oauth.Server.Issue.{Issued, issue_tokens_with_hash}
use pgedge_postgres_mcp.Oauth.Store.Tokens.{delete_family, delete_token}
use pgedge_postgres_mcp.Oauth.Store.Codes.{take_used_code, mark_code_used, take_code}
use pgedge_postgres_mcp.Oauth.Pkce.{valid_code_verifier, verify_pkce}

abbrev pub invalid_code : GrantResult
invalid_code = refused (new_error "invalid_grant" generic_auth_code_invalid_grant 400)

abbrev pub missing_code_fields : Form → Bool
missing_code_fields f =
    str_eq f.code ""
    || str_eq f.client_id ""
    || str_eq f.redirect_uri ""
    || str_eq f.code_verifier ""

-- A code that is not on file: a replay of a redeemed code revokes what was issued from it.
abbrev pub code_unknown : Store × Option UsedCode → Store × GrantResult
code_unknown (s, none) = (s, invalid_code)
code_unknown (s, some u) =
    if not (str_eq u.family "")
    then ((delete_family u.family s).0, invalid_code)
    else ((delete_token u.refresh_hash s).0, invalid_code)

module _ (ext : External) (config : Config) where
  -- The checks of a code that is on file
  unfoldable pub code_rejected : Form → ℕ → AuthCode → Bool
  code_rejected f now c =
      not (ltb now c.expires_at)
      || not (str_eq c.client_id f.client_id)
      || not (str_eq c.redirect_uri f.redirect_uri)
      || not (valid_code_verifier f.code_verifier)
      || not (verify_pkce ext.s256 f.code_verifier c.code_challenge "S256")

  abbrev code_issued : Form → Times → AuthCode → Store × Option Issued → Store × GrantResult
  code_issued f times c (s, none) =
      (s, refused (new_error "server_error" "failed to issue tokens" 503))
  code_issued f times c (s, some i) = (
    mark_code_used (ext.hash_token f.code) i.refresh_hash i.family
        (c.expires_at + config.access_token_lifetime) s,
    granted i.response,
  )

  abbrev code_taken : Form → Times → Draws → Store × Option AuthCode → Store × GrantResult
  code_taken f times draws (s, none) = code_unknown (take_used_code (ext.hash_token f.code) s)
  code_taken f times draws (s, some c) =
      if code_rejected f times.checked c
      then (s, invalid_code)
      else code_issued f times c
          (issue_tokens_with_hash ext config f.client_id c.subject c.scope "" draws times.issued s)

  -- `handleAuthorizationCodeGrant`
  unfoldable pub handle_authorization_code_grant :
      Form → Times → Draws → Store → Store × GrantResult
  handle_authorization_code_grant f times draws s =
      if missing_code_fields f
      then (
        s,
        refused (
            new_error "invalid_request"
              "code, client_id, redirect_uri and code_verifier are required" 400),
      )
      else code_taken f times draws (take_code (ext.hash_token f.code) s)
