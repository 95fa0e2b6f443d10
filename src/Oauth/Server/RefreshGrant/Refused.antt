-- ===== src/Oauth/Server/RefreshGrant/Refused.antt =====
-- The tokens that are on file when the refresh token grant has refused a request.
use pgedge_postgres_mcp.Prelude.{
  String, ◌≡◌, sym, inl, inr, ◌||◌, arith, str_eq, Bool-cases, Option-cases, subst,
}
use pgedge_postgres_mcp.Oauth.Types.{Store}
use pgedge_postgres_mcp.Oauth.Server.Errors.{External, Config, Form, Times, Draws, Error, refused}
use pgedge_postgres_mcp.Oauth.Store.Keys.{IsKeyed}
use pgedge_postgres_mcp.Oauth.Server.RefreshGrant.{handle_refresh_token_grant, refresh_rejected}
use pgedge_postgres_mcp.Oauth.Store.Ops.{apply, Op}
use pgedge_postgres_mcp.Oauth.Store.Tokens.{take_token, delete_family, delete_by_subject}
use pgedge_postgres_mcp.Oauth.Store.Keys.Steps.{apply-IsKeyed}
use pgedge_postgres_mcp.Oauth.Server.Issue.Minting.{
  NotMinted, take_token-NotMinted, NotMinted-refl, NotMinted-trans, delete_family-NotMinted,
  delete_by_subject-NotMinted, issue_tokens-NotMinted,
}
use pgedge_postgres_mcp.Oauth.Store.Clients.{rotated_refresh_family}
use pgedge_postgres_mcp.Oauth.Server.Issue.{issue_tokens}

module _ (ext : External) (config : Config) (f : Form) (times : Times) (draws : Draws) (s : Store)
    (v : IsKeyed s) where
  abbrev refresh_key : String
  refresh_key = ext.hash_token f.refresh_token

  abbrev taken : Store
  taken = (take_token refresh_key s).0

  taken-IsKeyed : IsKeyed taken
  taken-IsKeyed = unfold apply in apply-IsKeyed (Op.take_token refresh_key) s v

  -- A refresh token grant that is refused leaves no token that was not there before.
  pub refused_refresh_grant-NotMinted :
      (e : Error)
      → (handle_refresh_token_grant ext config f times draws s).1 ≡ refused e
      → NotMinted s (handle_refresh_token_grant ext config f times draws s).0
  unfolding handle_refresh_token_grant
  refused_refresh_grant-NotMinted e refusal =
      let kept = take_token-NotMinted refresh_key s in
      elim (Bool-cases (str_eq f.refresh_token "" || str_eq f.client_id "")) [
        | inl missing ↦ rw missing (NotMinted-refl s)
        | inr complete ↦ elim (Option-cases (take_token refresh_key s).1) [
          | inl gone ↦ elim (Option-cases (rotated_refresh_family refresh_key taken)) [
            | inl unknown ↦
                let is : (handle_refresh_token_grant ext config f times draws s).0 ≡ taken =
                  rw complete (ground (arith, gone, unknown)) in
                subst (NotMinted s) (sym is) kept
            | inr (family, rotated) ↦
                let is : (handle_refresh_token_grant ext config f times draws s).0
                    ≡ (delete_family family taken).0 =
                  rw complete (ground (arith, gone, rotated)) in
                subst (NotMinted s) (sym is) (
                  NotMinted-trans s taken (delete_family family taken).0 kept
                    (delete_family-NotMinted family taken taken-IsKeyed))
          ]
          | inr (t, found) ↦ elim (Bool-cases (refresh_rejected ext config f times.checked t)) [
            | inl bad ↦
                let is : (handle_refresh_token_grant ext config f times draws s).0 ≡ taken =
                  rw complete (ground (arith, found, bad)) in
                subst (NotMinted s) (sym is) kept
            | inr good ↦ elim (Bool-cases (ext.subject_active t.subject)) [
              | inr inactive ↦
                  let is : (handle_refresh_token_grant ext config f times draws s).0
                      ≡ (delete_by_subject t.subject taken).0 =
                    rw complete (ground (arith, found, good, inactive)) in
                  subst (NotMinted s) (sym is) (
                    NotMinted-trans s taken (delete_by_subject t.subject taken).0 kept
                      (delete_by_subject-NotMinted t.subject taken taken-IsKeyed))
              | inl active ↦
                  let issued =
                    issue_tokens ext config f.client_id t.subject t.scope t.family draws
                      times.issued taken in
                  elim (Option-cases issued.1) [
                    | inl failed ↦
                        let is : (handle_refresh_token_grant ext config f times draws s).0
                            ≡ issued.0 =
                          rw complete (ground (arith, found, good, active, failed)) in
                        subst (NotMinted s) (sym is) (
                          NotMinted-trans s taken issued.0 kept (
                            issue_tokens-NotMinted ext config f.client_id t.subject t.scope t.family
                              draws times.issued taken failed))
                    | inr (tr, success) ↦
                        absurd (ground (arith, complete, found, good, active, success))
                  ]
            ]
          ]
        ]
      ]
