-- ===== src/Oauth/Server/Authorize/Redeemed.antt =====
-- From a sign-in on the login page to an access token that is accepted.
use pgedge_postgres_mcp.Prelude.{
  ℕ, ◌+◌, ◌<◌, String, ◌≡◌, sym, ap, ◌∙◌, ◌≢◌, true, false≢true, none, some, arith, subst,
}
use pgedge_postgres_mcp.Oauth.Server.Authorize.{
  AuthorizeParams, PageLibrary, EndpointOptions, AuthorizeRequest, check_authorize_params,
  new_auth_code, handle_authorize, redirect_code, store_of,
}
use pgedge_postgres_mcp.Oauth.Server.Errors.{
  External, Form, Config, Times, Draws, TokenResponse, granted,
}
use pgedge_postgres_mcp.Oauth.Pkce.{valid_code_challenge, valid_code_verifier}
use pgedge_postgres_mcp.Oauth.Server.SignIn.{Authenticator}
use pgedge_postgres_mcp.Oauth.Server.CodeGrant.Redeem.{MayRedeem}
use pgedge_postgres_mcp.Oauth.Server.Issue.Succeeds.{CanIssue}
use pgedge_postgres_mcp.Oauth.Server.CodeGrant.{handle_authorization_code_grant}
use pgedge_postgres_mcp.Oauth.Server.RefreshGrant.{validate_access_token}
use pgedge_postgres_mcp.Oauth.Server.Authorize.Issues.{code_is_earned}
use pgedge_postgres_mcp.GoMap.{get}
use pgedge_postgres_mcp.Oauth.Server.CodeGrant.Answers.{code_grant_answers}
use pgedge_postgres_mcp.Oauth.Server.Session.{code_grant_validates}

-- The request `f` redeems the code `code`, that was issued for the parameters `p`, at `now`.
pub record RedeemsFor (ext : External) (p : AuthorizeParams) (code : String) (f : Form)
    (now until : ℕ) : Type 0 where
  pub same_code : f.code ≡ code
  pub same_client : f.client_id ≡ p.client_id
  pub same_target : f.redirect_uri ≡ p.redirect_uri
  pub verifier_valid : valid_code_verifier f.code_verifier ≡ true
  pub challenge_met : ext.s256 f.code_verifier ≡ p.code_challenge
  pub in_time : now < until
  pub code_named : f.code ≢ ""
  pub client_named : f.client_id ≢ ""
  pub target_named : f.redirect_uri ≢ ""

valid_challenge_is_named : (c : String) → valid_code_challenge c ≡ true → c ≢ ""
valid_challenge_is_named c ok empty =
    false≢true (unfold valid_code_challenge in subst (λ x. valid_code_challenge x ≡ true) empty ok)

module _ (lib : PageLibrary) (opts : EndpointOptions) (config : Config) {W : Type 0}
    (auth : Authenticator W) where
  checked_challenge :
      (p : AuthorizeParams) → check_authorize_params p ≡ none → p.code_challenge ≢ ""
  unfolding check_authorize_params
  checked_challenge p e = valid_challenge_is_named p.code_challenge (ground arith)

  agrees :
      (p : AuthorizeParams) (subject code : String) (issued_at now : ℕ) (f : Form)
      → RedeemsFor lib.external p code f now (issued_at + opts.authorization_code_lifetime)
      → MayRedeem lib.external f now (new_auth_code lib opts p subject code issued_at)
  agrees p subject code issued_at now f r = record {
    unexpired = r.in_time;
    same_client = sym r.same_client;
    same_redirect = sym r.same_target;
    valid_verifier = r.verifier_valid;
    challenge_met = r.challenge_met;
  }

  -- After a sign-in that is answered with a code, a request that redeems the code in time, by the
  -- same client, for the same target and with the verifier of the challenge, is answered with
  -- tokens, and the access token is accepted, as that of the user who signed in and of the client,
  -- until it expires; the draws must succeed, the store have room for two tokens and the user be
  -- active.
  pub sign_in_lets_client_in :
      (r : AuthorizeRequest) (w : W) (uri code state : String) (f : Form) (times : Times)
      (draws : Draws) (now : ℕ)
      → (handle_authorize lib opts auth r w).1 ≡ redirect_code uri code state
      → RedeemsFor lib.external r.params code f times.checked
          (r.issued_at + opts.authorization_code_lifetime)
      → CanIssue draws (store_of lib opts auth (handle_authorize lib opts auth r w).0)
      → lib.external.subject_active r.login.username ≡ true
      → now < times.issued + config.access_token_lifetime
      → (resp : TokenResponse) × ((handle_authorization_code_grant lib.external config f times draws
            (store_of lib opts auth (handle_authorize lib opts auth r w).0)).1
          ≡ granted resp)
        × ((validate_access_token lib.external config resp.access_token now
              (handle_authorization_code_grant lib.external config f times draws
                (store_of lib opts auth (handle_authorize lib opts auth r w).0)).0).1
            ≡ some (r.login.username, f.client_id))
  sign_in_lets_client_in r w uri code state f times draws now ok redeems can active early =
      let earned = code_is_earned lib opts auth r w uri code state ok in
      let s = store_of lib opts auth (handle_authorize lib opts auth r w).0 in
      let c = new_auth_code lib opts r.params r.login.username code r.issued_at in
      let found : get (lib.external.hash_token f.code) s.codes ≡ some c =
        ap (λ x. get (lib.external.hash_token x) s.codes) redeems.same_code ∙ earned.on_file.0 in
      let (resp, answered) =
        code_grant_answers lib.external config f times draws s c redeems.code_named
          redeems.client_named redeems.target_named found
          (agrees r.params r.login.username code r.issued_at times.checked f redeems)
          (checked_challenge r.params earned.checks_pass) can in
      (
        resp,
        answered,
        code_grant_validates lib.external config f times draws s resp c now answered found active
            early,
      )
