-- ===== src/Oauth/Server/Endpoint/Revoked.antt =====
-- A token after a revocation request for it.
use pgedge_postgres_mcp.Prelude.{
  ℕ, String, ◌≡◌, refl, ap, ◌∙◌, inl, inr, true, none, some, arith, eq_refl, contains,
  some_not_none,
}
use pgedge_postgres_mcp.Oauth.Types.{Store, Token}
use pgedge_postgres_mcp.Oauth.Server.Errors.{External, Config, Form, Times, Draws, Error, refused}
use pgedge_postgres_mcp.Oauth.Server.Endpoint.{
  handle_revoke, Request, EndpointTimes, Server, empty_ok,
}
use pgedge_postgres_mcp.Oauth.Server.RefreshGrant.{
  validate_access_token, handle_refresh_token_grant,
}
use pgedge_postgres_mcp.Oauth.Server.RefreshGrant.Rotation.{granted-Rotates}
use pgedge_postgres_mcp.Oauth.Server.Endpoint.Refused.{result-cases}
use pgedge_postgres_mcp.Oauth.Store.Tokens.{get_token, delete_token}
use pgedge_postgres_mcp.GoMap.{get}
use pgedge_postgres_mcp.Oauth.Store.Revocation.{delete_token_cascade}

module _ (ext : External) (config : Config) where
  absent_is_refused :
      (token : String) (now : ℕ) (s : Store)
      → get (ext.hash_token token) s.tokens ≡ none
      → (validate_access_token ext config token now s).1 ≡ none
  unfolding validate_access_token get_token
  absent_is_refused token now s gone = rw gone refl

  revoked_store :
      (r : Request) (times : EndpointTimes) (srv : Server)
      → (handle_revoke ext config r times srv).1 ≡ empty_ok
      → (handle_revoke ext config r times srv).0.store
        ≡ (delete_token (ext.hash_token r.token) srv.store).0
  unfolding handle_revoke
  revoked_store r times srv ok = ground arith

  -- A refresh token that is off the file is exchanged for nothing.
  absent_is_not_rotated :
      (f : Form) (times : Times) (draws : Draws) (s : Store)
      → get (ext.hash_token f.refresh_token) s.tokens ≡ none
      → (e : Error) × ((handle_refresh_token_grant ext config f times draws s).1 ≡ refused e)
  absent_is_not_rotated f times draws s gone =
      elim (result-cases ext config (handle_refresh_token_grant ext config f times draws s).1) [
        | inl failed ↦ failed
        | inr (tr, ok) ↦
            let (t, r) = granted-Rotates ext config f times draws s tr ok in
            some_not_none _ t r.on_file gone
      ]

  -- After a revocation request for a refresh token on file that is answered without an error, the
  -- refresh token grant refuses every request with the token, and no access token issued from it
  -- is accepted, at whatever time.
  pub revoked_is_refused :
      (r : Request) (times : EndpointTimes) (srv : Server) (now : ℕ) (t : Token) (access : String)
      (f : Form) (grant_times : Times) (draws : Draws)
      → (handle_revoke ext config r times srv).1 ≡ empty_ok
      → get (ext.hash_token r.token) srv.store.tokens ≡ some t
      → t.is_refresh ≡ true
      → contains t.issued (ext.hash_token access) ≡ true
      → f.refresh_token ≡ r.token
      → ((e : Error) × ((handle_refresh_token_grant ext config f grant_times draws
              (handle_revoke ext config r times srv).0.store).1
            ≡ refused e))
        × ((validate_access_token ext config access now
              (handle_revoke ext config r times srv).0.store).1
            ≡ none)
  revoked_is_refused r times srv now t access f grant_times draws ok found refresh inside same =
      let s = srv.store in
      let k = ext.hash_token r.token in
      let is = revoked_store r times srv ok in
      let own : get k (delete_token k s).0.tokens ≡ none =
        (delete_token_cascade k t s found refresh k).0 ∙ rw (eq_refl k) refl in
      let issued : get (ext.hash_token access) (delete_token k s).0.tokens ≡ none =
        (delete_token_cascade k t s found refresh (ext.hash_token access)).0 ∙ ground arith in
      (
        absent_is_not_rotated f grant_times draws (handle_revoke ext config r times srv).0.store
            (rw same (ap (λ x. get k (Store.tokens x)) is ∙ own)),
        absent_is_refused access now (handle_revoke ext config r times srv).0.store
            (ap (λ x. get (ext.hash_token access) (Store.tokens x)) is ∙ issued),
      )
