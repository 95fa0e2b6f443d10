-- ===== src/Oauth/Server/DeviceGrant/Refused.antt =====
-- The tokens that are on file when the device grant has refused a request.
use pgedge_postgres_mcp.Prelude.{
  String, ◌≡◌, sym, ap, ◌∙◌, inl, inr, not, ◌&&◌, ◌||◌, arith, str_eq, ltb, Bool-cases,
  Option-cases, subst,
}
use pgedge_postgres_mcp.Oauth.Types.{Store}
use pgedge_postgres_mcp.Oauth.Server.Errors.{External, Config, Form, Times, Draws, Error, refused}
use pgedge_postgres_mcp.Oauth.Server.DeviceGrant.{handle_device_code_grant, device_polled}
use pgedge_postgres_mcp.Oauth.Store.Devices.{
  get_device_by_hash, delete_device, take_device_if_approved, touch_device_poll,
  delete_device_locked,
}
use pgedge_postgres_mcp.Oauth.Server.Issue.Minting.{
  NotMinted, tokens_same-NotMinted, NotMinted-trans, issue_tokens-NotMinted,
}
use pgedge_postgres_mcp.Oauth.Server.Issue.{issue_tokens}
use pgedge_postgres_mcp.GoMap.{get}

module _ (ext : External) (config : Config) (f : Form) (times : Times) (draws : Draws)
    (s : Store) where
  abbrev device_key : String
  device_key = ext.hash_token f.device_code

  abbrev touched : Store
  touched = (touch_device_poll device_key times.checked s).0

  abbrev taken : Store
  taken = (take_device_if_approved device_key touched).0

  tokens-touched : touched.tokens ≡ s.tokens
  unfolding touch_device_poll
  tokens-touched = elim (Option-cases (get device_key s.devices)) [
    | inl gone ↦ ground (arith, gone)
    | inr (d, found) ↦ ground (arith, found)
  ]

  tokens-deleted : (r : Store) → (delete_device device_key r).tokens ≡ r.tokens
  unfolding delete_device delete_device_locked
  tokens-deleted r = ground arith

  tokens-taken : taken.tokens ≡ s.tokens
  unfolding take_device_if_approved delete_device_locked
  tokens-taken = elim (Option-cases (get device_key touched.devices)) [
    | inl gone ↦ ground (arith, gone, tokens-touched)
    | inr (d, found) ↦ ground (arith, found, tokens-touched)
  ]

  -- What the handler does once the poll is on record.
  polled-NotMinted :
      (e : Error)
      → (device_polled ext config f times draws (touch_device_poll device_key times.checked s)).1
        ≡ refused e
      → NotMinted s
          (device_polled ext config f times draws (touch_device_poll device_key times.checked s)).0
  polled-NotMinted e refusal =
      let r =
        device_polled ext config f times draws (touch_device_poll device_key times.checked s) in
      elim (Option-cases (touch_device_poll device_key times.checked s).1) [
        | inl gone ↦ tokens_same-NotMinted s r.0 (ground (arith, gone, tokens-touched))
        | inr (p, found) ↦
            elim (Bool-cases (p.too_soon || (p.device.denied || not p.device.approved))) [
              | inl stopped ↦
                  tokens_same-NotMinted s r.0
                    (ground (arith, found, tokens-touched, tokens-deleted touched))
              | inr go ↦ elim (Option-cases (take_device_if_approved device_key touched).1) [
                | inl raced ↦
                    tokens_same-NotMinted s r.0 (ground (arith, found, raced, tokens-taken))
                | inr (d, won) ↦
                    let issued =
                      issue_tokens ext config f.client_id d.subject d.scope "" draws times.issued
                        taken in
                    elim (Option-cases issued.1) [
                      | inl failed ↦
                          let is : r.0 ≡ issued.0 = ground (arith, found, won, failed) in
                          subst (NotMinted s) (sym is) (
                            NotMinted-trans s taken issued.0
                              (tokens_same-NotMinted s taken tokens-taken)
                              (issue_tokens-NotMinted ext config f.client_id d.subject d.scope ""
                                draws times.issued taken failed))
                      | inr (tr, success) ↦ absurd (ground (arith, found, won, success))
                    ]
              ]
            ]
      ]

  -- A device grant that is refused leaves no token that was not there before.
  pub refused_device_grant-NotMinted :
      (e : Error)
      → (handle_device_code_grant ext config f times draws s).1 ≡ refused e
      → NotMinted s (handle_device_code_grant ext config f times draws s).0
  unfolding handle_device_code_grant get_device_by_hash
  refused_device_grant-NotMinted e refusal =
      let r = handle_device_code_grant ext config f times draws s in
      elim (Bool-cases (str_eq f.device_code "" || str_eq f.client_id "")) [
        | inl missing ↦ tokens_same-NotMinted s r.0 (ground (arith, missing))
        | inr complete ↦ elim (Option-cases (get device_key s.devices)) [
          | inl gone ↦ tokens_same-NotMinted s r.0 (ground (arith, complete, gone))
          | inr (d, found) ↦
              elim (Bool-cases (str_eq d.client_id f.client_id && ltb times.checked d.expires_at)) [
                | inr bad ↦
                    tokens_same-NotMinted s r.0 (ground (arith, complete, found, tokens-deleted s))
                | inl good ↦
                    let is : r
                        ≡ device_polled ext config f times draws
                            (touch_device_poll device_key times.checked s) =
                      ground (arith, complete, found) in
                    subst (λ x. NotMinted s x.0) (sym is)
                      (polled-NotMinted e (ap (λ x. x.1) (sym is) ∙ refusal))
              ]
        ]
      ]
