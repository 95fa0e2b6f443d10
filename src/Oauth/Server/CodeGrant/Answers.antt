-- ===== src/Oauth/Server/CodeGrant/Answers.antt =====
-- When the authorisation code grant answers with tokens.
use pgedge_postgres_mcp.Prelude.{
  ℕ, String, ◌≡◌, ◌≢◌, true, false, false≢true, some, arith, eq_iff, subst,
}
use pgedge_postgres_mcp.Oauth.Types.{Store, AuthCode}
use pgedge_postgres_mcp.Oauth.Server.CodeGrant.Redeem.{MayRedeem, without_code}
use pgedge_postgres_mcp.Oauth.Server.Errors.{
  External, Config, Form, Times, Draws, TokenResponse, granted,
}
use pgedge_postgres_mcp.Oauth.Pkce.{valid_code_verifier, verify_pkce}
use pgedge_postgres_mcp.Oauth.Server.CodeGrant.{handle_authorization_code_grant, code_rejected}
use pgedge_postgres_mcp.Oauth.Store.Codes.{take_code}
use pgedge_postgres_mcp.GoMap.{get}
use pgedge_postgres_mcp.Oauth.Server.Issue.Succeeds.{CanIssue, issue-succeeds}

module _ (ext : External) (config : Config) where
  valid_verifier_is_named : (v : String) → valid_code_verifier v ≡ true → v ≢ ""
  valid_verifier_is_named v ok empty =
      false≢true (unfold valid_code_verifier in subst (λ x. valid_code_verifier x ≡ true) empty ok)

  may_be_redeemed :
      (f : Form) (now : ℕ) (c : AuthCode)
      → MayRedeem ext f now c
      → c.code_challenge ≢ ""
      → code_rejected ext config f now c ≡ false
  unfolding code_rejected verify_pkce
  may_be_redeemed f now c may named = ground (
    arith,
    may.unexpired,
    may.same_client,
    may.same_redirect,
    may.valid_verifier,
    may.challenge_met,
    valid_verifier_is_named f.code_verifier may.valid_verifier,
    eq_iff c.client_id f.client_id,
    eq_iff c.redirect_uri f.redirect_uri,
    eq_iff f.code_verifier "",
    eq_iff c.code_challenge "",
    eq_iff (ext.s256 f.code_verifier) c.code_challenge,
  )

  -- A request that names a code, a client and a target is answered with tokens, if the code is on
  -- file, the request agrees with it, its challenge is not empty, the draws succeed and the store
  -- has room for two tokens.
  pub code_grant_answers :
      (f : Form) (times : Times) (draws : Draws) (s : Store) (c : AuthCode)
      → f.code ≢ ""
      → f.client_id ≢ ""
      → f.redirect_uri ≢ ""
      → get (ext.hash_token f.code) s.codes ≡ some c
      → MayRedeem ext f times.checked c
      → c.code_challenge ≢ ""
      → CanIssue draws s
      → (resp : TokenResponse) × ((handle_authorization_code_grant ext config f times draws s).1
          ≡ granted resp)
  unfolding handle_authorization_code_grant take_code
  code_grant_answers f times draws s c code client target found may named can =
      let s₁ = without_code ext config f times draws s in
      let can₁ : CanIssue draws s₁ = record {
        access = can.access;
        refresh = can.refresh;
        family = can.family;
        access_drawn = can.access_drawn;
        refresh_drawn = can.refresh_drawn;
        family_drawn = can.family_drawn;
        room = can.room;
      } in
      let (i, issued) =
        issue-succeeds ext config f.client_id c.subject c.scope draws times.issued s₁ can₁ in
      (
        i.response,
        ground (
          arith,
          found,
          may_be_redeemed f times.checked c may named,
          issued,
          valid_verifier_is_named f.code_verifier may.valid_verifier,
          eq_iff f.code "",
          eq_iff f.client_id "",
          eq_iff f.redirect_uri "",
          eq_iff f.code_verifier "",
        ),
      )
