-- ===== src/Oauth/Server/CodeGrant/Replay.antt =====
-- What a replay of an authorisation code does.
use pgedge_postgres_mcp.Prelude.{String, ◌≡◌, ◌≢◌, false, none, some, arith, eq_iff}
use pgedge_postgres_mcp.Oauth.Types.{UsedCode, Store, Token}
use pgedge_postgres_mcp.Oauth.Server.Errors.{Config, External, Draws, Times, Form}
use pgedge_postgres_mcp.GoMap.{get, delete}
use pgedge_postgres_mcp.Oauth.Server.CodeGrant.{
  handle_authorization_code_grant, missing_code_fields, invalid_code,
}
use pgedge_postgres_mcp.Oauth.Store.Tokens.{delete_family, in_family}
use pgedge_postgres_mcp.Oauth.Store.Codes.{take_code, take_used_code}
use pgedge_postgres_mcp.GoMap.Laws.{get-delete_where-fails}
use pgedge_postgres_mcp.Oauth.Store.Tokens.After.{tokens-delete_family}

pub family_gone :
    (family : String) (s : Store) (h : String) (t : Token)
    → family ≢ ""
    → get h (delete_family family s).0.tokens ≡ some t
    → t.family ≢ family
family_gone family s h t named left same =
    let fails = get-delete_where-fails (in_family family) h s.tokens t in
    ground (arith, tokens-delete_family family s, fails, eq_iff family "", eq_iff t.family family)

-- A complete request with a code that is on record as redeemed, with a named family, is refused,
-- and leaves no token of that family.
pub replayed_code_revokes :
    (ext : External) (config : Config) (f : Form) (times : Times) (draws : Draws) (s : Store)
    (u : UsedCode)
    → missing_code_fields f ≡ false
    → get (ext.hash_token f.code) s.codes ≡ none
    → get (ext.hash_token f.code) s.used_codes ≡ some u
    → u.family ≢ ""
    → ((handle_authorization_code_grant ext config f times draws s).1 ≡ invalid_code)
      × ((h : String) (t : Token)
          → get h (handle_authorization_code_grant ext config f times draws s).0.tokens ≡ some t
          → t.family ≢ u.family)
unfolding handle_authorization_code_grant take_code take_used_code
replayed_code_revokes ext config f times draws s u given gone used named =
    let h₀ = ext.hash_token f.code in
    let s₁ = record s { used_codes = delete h₀ s.used_codes } in
    (
      ground (arith, gone, used, given),
      λ h t left.
          family_gone u.family s₁ h t named
            (ground (arith, left, gone, used, given, eq_iff u.family "")),
    )
