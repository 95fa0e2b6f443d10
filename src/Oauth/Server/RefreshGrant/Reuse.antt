-- ===== src/Oauth/Server/RefreshGrant/Reuse.antt =====
-- What the reuse of a rotated refresh token does.
use pgedge_postgres_mcp.Prelude.{String, ◌≡◌, ap, ◌∙◌, ◌≢◌, none, some, arith, eq_iff}
use pgedge_postgres_mcp.Oauth.Types.{Store, Token}
use pgedge_postgres_mcp.Oauth.Server.Errors.{
  granted, Config, External, Draws, Times, Form, TokenResponse,
}
use pgedge_postgres_mcp.Oauth.Server.RefreshGrant.{handle_refresh_token_grant, invalid_refresh}
use pgedge_postgres_mcp.Oauth.Store.Tokens.{take_token}
use pgedge_postgres_mcp.GoMap.{get}
use pgedge_postgres_mcp.Oauth.Store.Clients.{rotated_refresh_family}
use pgedge_postgres_mcp.Oauth.Server.CodeGrant.Replay.{family_gone}
use pgedge_postgres_mcp.Oauth.Server.RefreshGrant.Rotate.{refresh_grant_sound, rotated_is_gone}

-- A request with a refresh token that is on record as rotated away, by whatever client, is refused,
-- and leaves no token of its family.
pub reused_refresh_revokes :
    (ext : External) (config : Config) (f : Form) (times : Times) (draws : Draws) (s : Store)
    (family : String)
    → f.refresh_token ≢ ""
    → f.client_id ≢ ""
    → get (ext.hash_token f.refresh_token) s.tokens ≡ none
    → rotated_refresh_family (ext.hash_token f.refresh_token) s ≡ some family
    → family ≢ ""
    → ((handle_refresh_token_grant ext config f times draws s).1 ≡ invalid_refresh)
      × ((h : String) (t : Token)
          → get h (handle_refresh_token_grant ext config f times draws s).0.tokens ≡ some t
          → t.family ≢ family)
unfolding handle_refresh_token_grant take_token
reused_refresh_revokes ext config f times draws s family given client gone rotated named = (
  ground (arith, gone, rotated, eq_iff f.refresh_token "", eq_iff f.client_id ""),
  λ h t left.
      family_gone family s h t named
        (ground (arith, left, gone, rotated, eq_iff f.refresh_token "", eq_iff f.client_id "")),
)

-- After a rotation of a refresh token of a named family, another request with the same token and
-- some client identifier is refused, and leaves no token of the family; the new tokens must not
-- hash to what the old one does.
pub refresh_twice_revokes :
    (ext : External) (config : Config) (f f' : Form) (times times' : Times) (draws draws' : Draws)
    (s : Store) (tr : TokenResponse) (t : Token)
    → (handle_refresh_token_grant ext config f times draws s).1 ≡ granted tr
    → get (ext.hash_token f.refresh_token) s.tokens ≡ some t
    → t.family ≢ ""
    → f'.refresh_token ≡ f.refresh_token
    → f'.refresh_token ≢ ""
    → f'.client_id ≢ ""
    → ext.hash_token tr.access_token ≢ ext.hash_token f.refresh_token
    → ext.hash_token tr.refresh_token ≢ ext.hash_token f.refresh_token
    → ((handle_refresh_token_grant ext config f' times' draws'
          (handle_refresh_token_grant ext config f times draws s).0).1
        ≡ invalid_refresh)
      × ((h : String) (x : Token)
          → get h
              (handle_refresh_token_grant ext config f' times' draws'
                (handle_refresh_token_grant ext config f times draws s).0).0.tokens
            ≡ some x
          → x.family ≢ t.family)
refresh_twice_revokes ext config f f' times times' draws draws' s tr t ok found named same given
      client ne_a ne_r =
    let s' = (handle_refresh_token_grant ext config f times draws s).0 in
    let (u, on_file, _, _, marked) = refresh_grant_sound ext config f times draws s tr ok in
    let family_same : u.family ≡ t.family = ground (arith, on_file, found) in
    reused_refresh_revokes ext config f' times' draws' s' t.family given client
      (rw same (rotated_is_gone ext config f times draws s tr ok ne_a ne_r))
      (rw same (marked ∙ ap some family_same)) named
