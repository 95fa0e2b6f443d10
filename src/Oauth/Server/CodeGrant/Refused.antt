-- ===== src/Oauth/Server/CodeGrant/Refused.antt =====
-- The tokens that are on file when the authorisation code grant has refused a request.
use pgedge_postgres_mcp.Prelude.{
  String, ◌≡◌, refl, sym, inl, inr, arith, str_eq, Bool-cases, Option-cases, subst,
}
use pgedge_postgres_mcp.Oauth.Types.{Store}
use pgedge_postgres_mcp.Oauth.Server.CodeGrant.{
  handle_authorization_code_grant, missing_code_fields, code_rejected, invalid_code, code_unknown,
}
use pgedge_postgres_mcp.Oauth.Server.Issue.Minting.{
  NotMinted, tokens_same-NotMinted, NotMinted-refl, NotMinted-trans, issue-NotMinted,
  delete_token-NotMinted, delete_family-NotMinted,
}
use pgedge_postgres_mcp.Oauth.Store.Codes.{take_code, take_used_code}
use pgedge_postgres_mcp.Oauth.Server.Errors.{External, Config, Form, Times, Draws, Error, refused}
use pgedge_postgres_mcp.Oauth.Store.Keys.{IsKeyed}
use pgedge_postgres_mcp.GoMap.Distinct.{delete-Distinct}
use pgedge_postgres_mcp.GoMap.{get, delete}
use pgedge_postgres_mcp.Oauth.Server.Issue.{issue_tokens_with_hash}
use pgedge_postgres_mcp.Oauth.Store.Tokens.{delete_token, delete_family}

module _ (ext : External) (config : Config) (f : Form) (times : Times) (draws : Draws) (s : Store)
    (v : IsKeyed s) where
  abbrev code_key : String
  code_key = ext.hash_token f.code

  abbrev unmarked : Store
  unmarked = record s { used_codes = delete code_key s.used_codes }

  unmarked-IsKeyed : IsKeyed unmarked
  unmarked-IsKeyed = record {
    clients = v.clients;
    codes = v.codes;
    devices = v.devices;
    tokens = v.tokens;
    user_codes = v.user_codes;
    used_codes = delete-Distinct code_key s.used_codes v.used_codes;
    rotated = v.rotated;
  }

  unmarked-NotMinted : NotMinted s unmarked
  unmarked-NotMinted = tokens_same-NotMinted s unmarked refl

  -- A request for a code that is not on file revokes at most.
  replay-NotMinted : NotMinted s (code_unknown (take_used_code code_key s)).0
  replay-NotMinted = elim (Option-cases (get code_key s.used_codes)) [
    | inl unused ↦
        let is : code_unknown (take_used_code code_key s) ≡ (s, invalid_code) =
          unfold take_used_code in rw unused refl in
        subst (λ x. NotMinted s x.0) (sym is) (NotMinted-refl s)
    | inr (u, used) ↦ elim (Bool-cases (str_eq u.family "")) [
      | inl unnamed ↦
          let is : (code_unknown (take_used_code code_key s)).0
              ≡ (delete_token u.refresh_hash unmarked).0 =
            unfold take_used_code in ground (arith, used) in
          subst (NotMinted s) (sym is) (
            NotMinted-trans s unmarked (delete_token u.refresh_hash unmarked).0 unmarked-NotMinted
              (delete_token-NotMinted u.refresh_hash unmarked))
      | inr named ↦
          let is : (code_unknown (take_used_code code_key s)).0
              ≡ (delete_family u.family unmarked).0 =
            unfold take_used_code in ground (arith, used) in
          subst (NotMinted s) (sym is) (
            NotMinted-trans s unmarked (delete_family u.family unmarked).0 unmarked-NotMinted
              (delete_family-NotMinted u.family unmarked unmarked-IsKeyed))
    ]
  ]

  -- An authorisation code grant that is refused leaves no token that was not there before.
  pub refused_code_grant-NotMinted :
      (e : Error)
      → (handle_authorization_code_grant ext config f times draws s).1 ≡ refused e
      → NotMinted s (handle_authorization_code_grant ext config f times draws s).0
  unfolding handle_authorization_code_grant take_code
  refused_code_grant-NotMinted e refusal = elim (Bool-cases (missing_code_fields f)) [
    | inl missing ↦ rw missing (NotMinted-refl s)
    | inr complete ↦ elim (Option-cases (get code_key s.codes)) [
      | inl gone ↦ rw (complete, gone) replay-NotMinted
      | inr (c, found) ↦
          let s₁ : Store = record s { codes = delete code_key s.codes } in
          let kept : NotMinted s s₁ = tokens_same-NotMinted s s₁ refl in
          elim (Bool-cases (code_rejected ext config f times.checked c)) [
            | inl bad ↦
                let is : handle_authorization_code_grant ext config f times draws s
                    ≡ (s₁, invalid_code) =
                  rw (complete, found) (rw bad refl) in
                subst (λ x. NotMinted s x.0) (sym is) kept
            | inr good ↦
                let issued =
                  issue_tokens_with_hash ext config f.client_id c.subject c.scope "" draws
                    times.issued s₁ in
                elim (Option-cases issued.1) [
                  | inl failed ↦
                      let is : (handle_authorization_code_grant ext config f times draws s).0
                          ≡ issued.0 =
                        rw (complete, found) (rw good (ground (arith, failed))) in
                      subst (NotMinted s) (sym is) (
                        NotMinted-trans s s₁ issued.0 kept (
                          issue-NotMinted ext config f.client_id c.subject c.scope "" draws
                            times.issued s₁ failed))
                  | inr (i, success) ↦ absurd (ground (arith, complete, found, good, success))
                ]
          ]
    ]
  ]
