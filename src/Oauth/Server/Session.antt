-- ===== src/Oauth/Server/Session.antt =====
-- From an access token to its subject, and from a grant to a token that is accepted.
use pgedge_postgres_mcp.Prelude.{
  ℕ, ◌+◌, ◌<◌, String, ◌≡◌, ap, ◌∙◌, ◌≢◌, true, false, none, some, arith, str_eq,
}
use pgedge_postgres_mcp.Oauth.Types.{Token, Store, AuthCode}
use pgedge_postgres_mcp.Oauth.Server.RefreshGrant.{validate_access_token}
use pgedge_postgres_mcp.Oauth.Server.Errors.{
  External, Config, Form, Times, Draws, TokenResponse, granted,
}
use pgedge_postgres_mcp.Oauth.Store.Tokens.{get_token, delete_by_subject}
use pgedge_postgres_mcp.Oauth.Store.Keys.{IsKeyed}
use pgedge_postgres_mcp.Oauth.Server.Issue.Held.{HoldsAccess}
use pgedge_postgres_mcp.GoMap.{get}
use pgedge_postgres_mcp.GoMap.Distinct.{keep}
use pgedge_postgres_mcp.Oauth.Server.CodeGrant.{handle_authorization_code_grant}
use pgedge_postgres_mcp.Oauth.Server.CodeGrant.Redeem.{code_grant_sound}
use pgedge_postgres_mcp.Oauth.Store.Revocation.{delete_by_subject_lem}

module _ (ext : External) (config : Config) where
  -- An access token that is on file for a subject that is active is accepted, as that subject's and
  -- its client's, until it expires, and the check changes nothing.
  pub held-validates :
      (token client_id subject scope : String) (expires now : ℕ) (s : Store)
      → HoldsAccess s (ext.hash_token token) client_id subject scope expires
      → ext.subject_active subject ≡ true
      → now < expires
      → validate_access_token ext config token now s ≡ (s, some (subject, client_id))
  unfolding validate_access_token get_token
  held-validates token client_id subject scope expires now s held active early =
      let live : ext.subject_active held.token.subject ≡ true =
        ap ext.subject_active held.subject_is ∙ active in
      rw held.present (ground arith)

  -- After an authorisation code grant, the access token that is returned is accepted, as that of
  -- the subject of the code and of the client, until it expires, if the subject is active.
  pub code_grant_validates :
      (f : Form) (times : Times) (draws : Draws) (s : Store) (resp : TokenResponse) (c : AuthCode)
      (now : ℕ)
      → (handle_authorization_code_grant ext config f times draws s).1 ≡ granted resp
      → get (ext.hash_token f.code) s.codes ≡ some c
      → ext.subject_active c.subject ≡ true
      → now < times.issued + config.access_token_lifetime
      → (validate_access_token ext config resp.access_token now
          (handle_authorization_code_grant ext config f times draws s).0).1
        ≡ some (c.subject, f.client_id)
  code_grant_validates f times draws s resp c now ok found active early =
      let s' = (handle_authorization_code_grant ext config f times draws s).0 in
      let (c₁, found₁, may, held, gone) = code_grant_sound ext config f times draws s resp ok in
      let same : c₁.subject ≡ c.subject = ground (arith, found, found₁) in
      let active₁ : ext.subject_active c₁.subject ≡ true = ap ext.subject_active same ∙ active in
      ap (λ r. r.1)
        (held-validates resp.access_token f.client_id c₁.subject c₁.scope
          (times.issued + config.access_token_lifetime) now s' held active₁ early)
      ∙ ap (λ x. some (x, f.client_id)) same

  -- A current access token of a named subject that is not active is refused, and every token in
  -- the name of that subject, and no other, goes with it.
  pub inactive_is_refused :
      (token : String) (now : ℕ) (t : Token) (s : Store)
      → IsKeyed s
      → get (ext.hash_token token) s.tokens ≡ some t
      → t.is_refresh ≡ false
      → now < t.expires_at
      → t.subject ≢ ""
      → ext.subject_active t.subject ≡ false
      → ((validate_access_token ext config token now s).1 ≡ none)
        × ((h : String)
            → get h (validate_access_token ext config token now s).0.tokens
              ≡ keep (λ u. str_eq (Token.subject u) t.subject) (get h s.tokens))
  unfolding validate_access_token get_token
  inactive_is_refused token now t s v found access early named gone =
      let left : (validate_access_token ext config token now s).0.tokens
          ≡ (delete_by_subject t.subject s).0.tokens =
        rw found (ground arith) in
      (
        rw found (ground arith),
        λ h. ap (get h) left ∙ (delete_by_subject_lem s v t.subject named h).0,
      )
