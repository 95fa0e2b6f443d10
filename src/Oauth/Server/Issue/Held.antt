-- ===== src/Oauth/Server/Issue/Held.antt =====
-- The access token of a pair, as a later request finds it.
use pgedge_postgres_mcp.Prelude.{ℕ, ◌+◌, String, ◌≡◌, refl, ap, ◌∙◌, false, some, eq_refl, subst}
use pgedge_postgres_mcp.Oauth.Types.{Store, Token}
use pgedge_postgres_mcp.Oauth.Server.Errors.{Config, External, Draws, TokenResponse}
use pgedge_postgres_mcp.Oauth.Server.Issue.{Issued, access_token_of}
use pgedge_postgres_mcp.Oauth.Server.Issue.Pair.{StoresPair}
use pgedge_postgres_mcp.GoMap.{get}
use pgedge_postgres_mcp.GoMap.Laws.{get-put}

-- The store holds an access token for this client and subject, with this scope, until this time.
pub record HoldsAccess (s : Store) (h client_id subject scope : String) (until : ℕ) : Type 0 where
  pub token : Token
  pub present : get h s.tokens ≡ some token
  pub access : token.is_refresh ≡ false
  pub client_is : token.client_id ≡ client_id
  pub subject_is : token.subject ≡ subject
  pub scope_is : token.scope ≡ scope
  pub until_is : token.expires_at ≡ until

pub StoresPair-HoldsAccess :
    (ext : External) (config : Config) (client_id subject scope family : String) (draws : Draws)
    (now : ℕ) (s s' : Store) (i : Issued) (tr : TokenResponse)
    → i.response ≡ tr
    → StoresPair ext config client_id subject scope family draws now s s' i
    → HoldsAccess s'
        (ext.hash_token tr.access_token)
        client_id
        subject
        scope
        (now + config.access_token_lifetime)
StoresPair-HoldsAccess ext config client_id subject scope family draws now s s' i tr same p =
    let a = TokenResponse.access_token i.response in
    let h = ext.hash_token a in
    let t =
      access_token_of ext config client_id subject scope i.family a
        (TokenResponse.refresh_token i.response) now in
    subst
      (λ x.
        HoldsAccess s' (ext.hash_token (TokenResponse.access_token x)) client_id subject scope
          (now + config.access_token_lifetime))
      same
      (record {
        token = t;
        present = ap (λ x. get h (Store.tokens x)) p.after ∙ rw get-put (rw (eq_refl h));
        access = refl;
        client_is = refl;
        subject_is = refl;
        scope_is = refl;
        until_is = refl;
      })
