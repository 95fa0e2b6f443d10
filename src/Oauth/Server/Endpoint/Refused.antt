-- ===== src/Oauth/Server/Endpoint/Refused.antt =====
-- What the token endpoint does for a request that it refuses.
use pgedge_postgres_mcp.Prelude.{
  ℕ, ◌≡◌, refl, sym, ap, ◌∙◌, ◌⊎◌, inl, inr, not, ◌&&◌, ◌||◌, arith, str_eq, if◌then◌else◌,
  Bool-cases, Option-cases, subst,
}
use pgedge_postgres_mcp.Oauth.Types.{Store}
use pgedge_postgres_mcp.Oauth.Server.Errors.{
  External, Config, GrantResult, Form, Error, Times, Draws, refused, TokenResponse, granted,
}
use pgedge_postgres_mcp.Oauth.Server.Endpoint.{
  dispatch, handle_token, Request, EndpointTimes, Server, json_error, retry_later,
  device_grant_type, blocked,
}
use pgedge_postgres_mcp.Oauth.Store.Clients.{touch_client}
use pgedge_postgres_mcp.Oauth.Store.Keys.{IsKeyed}
use pgedge_postgres_mcp.GoMap.{get}
use pgedge_postgres_mcp.Oauth.Store.Ops.{apply, Op}
use pgedge_postgres_mcp.Oauth.Server.Issue.Minting.{
  NotMinted, tokens_same-NotMinted, NotMinted-trans, NotMinted-refl,
}
use pgedge_postgres_mcp.Oauth.Store.Keys.Steps.{apply-IsKeyed}
use pgedge_postgres_mcp.Oauth.Server.CodeGrant.{handle_authorization_code_grant}
use pgedge_postgres_mcp.Oauth.Server.CodeGrant.Refused.{refused_code_grant-NotMinted}
use pgedge_postgres_mcp.Oauth.Server.RefreshGrant.{handle_refresh_token_grant}
use pgedge_postgres_mcp.Oauth.Server.RefreshGrant.Refused.{refused_refresh_grant-NotMinted}
use pgedge_postgres_mcp.Oauth.Server.DeviceGrant.{handle_device_code_grant}
use pgedge_postgres_mcp.Oauth.Server.DeviceGrant.Refused.{refused_device_grant-NotMinted}

module _ (ext : External) (config : Config) where
  dispatch-NotMinted :
      (f : Form) (times : Times) (draws : Draws) (s : Store) (e : Error)
      → IsKeyed s
      → (dispatch ext config f times draws s).1 ≡ refused e
      → NotMinted s (dispatch ext config f times draws s).0
  unfolding dispatch
  dispatch-NotMinted f times draws s e v refusal =
      elim (Bool-cases (str_eq f.grant_type "authorization_code")) [
        | inl code ↦
            let is : dispatch ext config f times draws s
                ≡ handle_authorization_code_grant ext config f times draws s =
              rw code refl in
            subst (λ x. NotMinted s x.0) (sym is)
              (refused_code_grant-NotMinted ext config f times draws s v e
                (ap (λ x. x.1) (sym is) ∙ refusal))
        | inr other ↦ elim (Bool-cases (str_eq f.grant_type "refresh_token")) [
          | inl refresh ↦
              let is : dispatch ext config f times draws s
                  ≡ handle_refresh_token_grant ext config f times draws s =
                rw (other, refresh) refl in
              subst (λ x. NotMinted s x.0) (sym is)
                (refused_refresh_grant-NotMinted ext config f times draws s v e
                  (ap (λ x. x.1) (sym is) ∙ refusal))
          | inr neither ↦ elim (Bool-cases (str_eq f.grant_type device_grant_type)) [
            | inl device ↦
                let is : dispatch ext config f times draws s
                    ≡ handle_device_code_grant ext config f times draws s =
                  rw (other, neither, device) refl in
                subst (λ x. NotMinted s x.0) (sym is)
                  (refused_device_grant-NotMinted ext config f times draws s e
                    (ap (λ x. x.1) (sym is) ∙ refusal))
            | inr unknown ↦
                let is : (dispatch ext config f times draws s).0 ≡ s =
                  rw (other, neither, unknown) refl in
                subst (NotMinted s) (sym is) (NotMinted-refl s)
          ]
        ]
      ]

  pub result-cases :
      (r : GrantResult)
      → ((e : Error) × (r ≡ refused e)) ⊎ ((tr : TokenResponse) × (r ≡ granted tr))
  result-cases (refused e) = inl (e, refl)
  result-cases (granted tr) = inr (tr, refl)

  -- The store once the client of the request is touched.
  abbrev touched : Form → ℕ → Store → Store
  touched f now s = if str_eq f.client_id "" then s else touch_client f.client_id now s

  tokens-touched : (f : Form) (now : ℕ) (s : Store) → (touched f now s).tokens ≡ s.tokens
  unfolding touch_client
  tokens-touched f now s = elim (Option-cases (get f.client_id s.clients)) [
    | inl gone ↦ ground (arith, gone)
    | inr (c, found) ↦ ground (arith, found)
  ]

  touched-IsKeyed : (f : Form) (now : ℕ) (s : Store) → IsKeyed s → IsKeyed (touched f now s)
  touched-IsKeyed f now s v = elim (Bool-cases (str_eq f.client_id "")) [
    | inl anonymous ↦ rw anonymous v
    | inr named ↦ rw named (unfold apply in apply-IsKeyed (Op.touch_client f.client_id now) s v)
  ]

  -- Whatever the request, if the token endpoint answers with an error, that of a caller who has to
  -- wait among them, a well-formed store has no token that was not there before.
  pub refused_request-NotMinted :
      (r : Request) (times : EndpointTimes) (draws : Draws) (srv : Server) (e : Error)
      → IsKeyed srv.store
      → ((handle_token ext config r times draws srv).1 ≡ json_error e)
        ⊎ ((handle_token ext config r times draws srv).1 ≡ retry_later e)
      → NotMinted srv.store (handle_token ext config r times draws srv).0.store
  unfolding handle_token
  refused_request-NotMinted r times draws srv e v refusal =
      let s = srv.store in
      let s₁ = touched r.form times.touched s in
      let d = dispatch ext config r.form times.grant draws s₁ in
      elim (Bool-cases (
        not r.is_post
        || (not r.form_ok
            || (not (str_eq r.form.grant_type device_grant_type)
                && blocked srv.rate_limiter r.ip times.limited)))) [
                  | inl early ↦
                      tokens_same-NotMinted s (handle_token ext config r times draws srv).0.store
                        (ground arith)
                  | inr late ↦ elim (result-cases d.1) [
                    | inr (tr, success) ↦ absurd (ground (arith, success))
                    | inl (e₁, fails) ↦
                        let is : (handle_token ext config r times draws srv).0.store ≡ d.0 =
                          ground (arith, fails) in
                        subst (NotMinted s) (sym is) (
                          NotMinted-trans s s₁ d.0
                            (tokens_same-NotMinted s s₁ (tokens-touched r.form times.touched s))
                            (dispatch-NotMinted r.form times.grant draws s₁ e₁
                              (touched-IsKeyed r.form times.touched s v) fails))
                  ]
                ]
