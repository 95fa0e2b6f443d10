-- ===== src/Oauth/Server/DeviceGrant/Approved.antt =====
-- When the device grant issues tokens, and which.
use pgedge_postgres_mcp.Prelude.{
  ℕ, ◌+◌, ◌≤◌, ◌<◌, String, ◌≡◌, sym, ap, ◌∙◌, inl, inr, true, false, not, ◌&&◌, Option, none, some,
  arith, eq_iff, eq_refl, Bool-cases, Option-cases, subst,
}
use pgedge_postgres_mcp.Oauth.Types.{Store, DeviceCode}
use pgedge_postgres_mcp.Oauth.Server.Errors.{
  granted, Config, External, Draws, Times, Form, TokenResponse,
}
use pgedge_postgres_mcp.Oauth.Server.Issue.{issue_tokens}
use pgedge_postgres_mcp.Oauth.Store.Devices.{
  touch_device_poll, take_device_if_approved, get_device_by_hash, polled_too_soon,
}
use pgedge_postgres_mcp.Oauth.Server.DeviceGrant.{handle_device_code_grant}
use pgedge_postgres_mcp.GoMap.{get, put}
use pgedge_postgres_mcp.Oauth.Server.RefreshGrant.Rotation.{issue_tokens-StoresPair}
use pgedge_postgres_mcp.Oauth.Server.Issue.Held.{HoldsAccess, StoresPair-HoldsAccess}
use pgedge_postgres_mcp.GoMap.Laws.{get-put, get-delete}
use pgedge_postgres_mcp.Oauth.Server.Issue.Held.{HoldsAccess}

-- What a device code has to be for a poll to be answered with tokens.
pub record MayIssue (f : Form) (now : ℕ) (d : DeviceCode) : Type 0 where
  pub same_client : d.client_id ≡ f.client_id
  pub unexpired : now < d.expires_at
  pub patient : d.last_polled + d.interval ≤ now
  pub approved : d.approved ≡ true
  pub not_denied : d.denied ≡ false

module _ (ext : External) (config : Config) (f : Form) (times : Times) (draws : Draws)
    (s : Store) where
  abbrev device_hash_of : String
  device_hash_of = ext.hash_token f.device_code

  -- The store once the poll is recorded and the device code is taken.
  abbrev pub without_device : Store
  without_device =
      (take_device_if_approved device_hash_of
        (touch_device_poll device_hash_of times.checked s).0).0

  abbrev issue_to : DeviceCode → Store × Option TokenResponse
  issue_to d =
      issue_tokens ext config f.client_id d.subject d.scope "" draws times.issued without_device

  pub record Issues (d : DeviceCode) (s' : Store) (tr : TokenResponse) : Type 0 where
    pub on_file : get device_hash_of s.devices ≡ some d
    pub may : MayIssue f times.checked d
    pub issued : (issue_to d).1 ≡ some tr
    pub after : s' ≡ (issue_to d).0

  -- The device code that is taken is the one that was found, with the poll recorded.
  take_after_touch :
      (d : DeviceCode)
      → get device_hash_of s.devices ≡ some d
      → polled_too_soon d times.checked ≡ false
      → d.approved ≡ true
      → d.denied ≡ false
      → (take_device_if_approved device_hash_of
          (touch_device_poll device_hash_of times.checked s).0).1
        ≡ some (record d { last_polled = times.checked })
  unfolding take_device_if_approved touch_device_poll
  take_after_touch d on_file late yes_ no_ =
      let d' = record d { last_polled = times.checked } in
      ground (
        arith,
        on_file,
        late,
        yes_,
        no_,
        get-put device_hash_of device_hash_of d' s.devices,
        eq_refl device_hash_of,
      )

  touched_is :
      (d : DeviceCode)
      → get device_hash_of s.devices ≡ some d
      → polled_too_soon d times.checked ≡ false
      → (touch_device_poll device_hash_of times.checked s).1
        ≡ some (record { device = record d { last_polled = times.checked }; too_soon = false })
  unfolding touch_device_poll
  touched_is d on_file late = ground (arith, on_file, late)

  touched_soon :
      (d : DeviceCode)
      → get device_hash_of s.devices ≡ some d
      → polled_too_soon d times.checked ≡ true
      → (touch_device_poll device_hash_of times.checked s).1
        ≡ some (record { device = d; too_soon = true })
  unfolding touch_device_poll
  touched_soon d on_file soon = ground (arith, on_file, soon)

  pub granted-Issues :
      (tr : TokenResponse)
      → (handle_device_code_grant ext config f times draws s).1 ≡ granted tr
      → (d : DeviceCode) × Issues d (handle_device_code_grant ext config f times draws s).0 tr
  unfolding handle_device_code_grant get_device_by_hash
  granted-Issues tr ok = elim (Option-cases (get device_hash_of s.devices)) [
    | inl unknown ↦ absurd (ground (arith, unknown))
    | inr (d, on_file) ↦ elim (Bool-cases (polled_too_soon d times.checked)) [
      | inl soon ↦ absurd (ground (arith, on_file, touched_soon d on_file soon))
      | inr late ↦
          let touched = touched_is d on_file late in
          elim (Bool-cases (d.approved && not d.denied)) [
            | inr unanswered ↦ absurd (ground (arith, on_file, touched, unanswered))
            | inl answered ↦
                let yes_ : d.approved ≡ true = ground arith in
                let no_ : d.denied ≡ false = ground arith in
                let taken = take_after_touch d on_file late yes_ no_ in
                elim (Option-cases (issue_to d).1) [
                  | inl failed ↦ absurd (ground (arith, on_file, touched, taken, yes_, no_, failed))
                  | inr (tr', issued) ↦ (
                    d,
                    record {
                      on_file = on_file;
                      may = record {
                        same_client =
                            ground (arith, on_file, touched, eq_iff d.client_id f.client_id);
                        unexpired = ground (arith, on_file, touched);
                        patient = ground arith;
                        approved = yes_;
                        not_denied = no_;
                      };
                      issued = ground (arith, on_file, touched, taken, yes_, no_, issued);
                      after = ground (arith, on_file, touched, taken, yes_, no_, issued);
                    },
                  )
                ]
          ]
    ]
  ]

  taken_is_gone :
      (d : DeviceCode)
      → get device_hash_of s.devices ≡ some d
      → MayIssue f times.checked d
      → get device_hash_of without_device.devices ≡ none
  unfolding take_device_if_approved touch_device_poll
  taken_is_gone d on_file may =
      let d' = record d { last_polled = times.checked } in
      let m = put device_hash_of d' s.devices in
      ground (
        arith,
        on_file,
        get-put device_hash_of device_hash_of d' s.devices,
        get-delete device_hash_of device_hash_of m,
        eq_refl device_hash_of,
      )

-- The device grant issues tokens only for a device code on file that has not expired, to the
-- client that asked for it, once its interval has passed since the last accepted poll, and once it
-- has been approved and not denied; the access token is the approver's, and the device code is off
-- the file.
pub device_grant_sound :
    (ext : External) (config : Config) (f : Form) (times : Times) (draws : Draws) (s : Store)
    (tr : TokenResponse)
    → (handle_device_code_grant ext config f times draws s).1 ≡ granted tr
    → (d : DeviceCode) × (get (ext.hash_token f.device_code) s.devices ≡ some d)
      × MayIssue f times.checked d
      × HoldsAccess
          (handle_device_code_grant ext config f times draws s).0
          (ext.hash_token tr.access_token)
          f.client_id
          d.subject
          d.scope
          (times.issued + config.access_token_lifetime)
      × (get
            (ext.hash_token f.device_code)
            (handle_device_code_grant ext config f times draws s).0.devices
          ≡ none)
device_grant_sound ext config f times draws s tr ok =
    let (d, r) = granted-Issues ext config f times draws s tr ok in
    let s₁ = without_device ext config f times draws s in
    let s₂ = (issue_to ext config f times draws s d).0 in
    let s' = (handle_device_code_grant ext config f times draws s).0 in
    let (i, same, pair) =
      issue_tokens-StoresPair ext config f.client_id d.subject d.scope "" draws times.issued s₁ tr
        r.issued in
    let held =
      StoresPair-HoldsAccess ext config f.client_id d.subject d.scope "" draws times.issued s₁ s₂ i
        tr same pair in
    (
      d,
      r.on_file,
      r.may,
      subst
          (λ x.
            HoldsAccess x (ext.hash_token tr.access_token) f.client_id d.subject d.scope
              (times.issued + config.access_token_lifetime))
          (sym r.after) held,
      ap (λ x. get (ext.hash_token f.device_code) (Store.devices x)) (r.after ∙ pair.after)
          ∙ taken_is_gone ext config f times draws s d r.on_file r.may,
    )
