-- ===== src/Oauth/Server/Device/Approves.antt =====
-- Who approves a device.
use pgedge_postgres_mcp.Prelude.{
  String, ◌≡◌, refl, sym, ap, ◌∙◌, ◌≢◌, inl, inr, true, false, ◌||◌, some, arith, eq_iff, eq_refl,
  str_eq, Bool-cases, Option-cases, subst,
}
use pgedge_postgres_mcp.Oauth.Types.{DeviceCode, Store}
use pgedge_postgres_mcp.Oauth.Server.Authorize.{PageLibrary, method_post}
use pgedge_postgres_mcp.Oauth.Server.SignIn.{
  err_rate_limited, err_invalid_credentials, Authenticator, AuthResult, authenticated_as,
}
use pgedge_postgres_mcp.Oauth.Server.Device.Verify.{
  VerifyRequest, VerifyAnswer, verify_done, approved_answer, typed_code, invalid_device_code,
  handle_device_verify, approve, deny, verify_submit, verify_authenticated, verify_render,
}
use pgedge_postgres_mcp.Oauth.Store.Devices.{approve_device, get_device_by_user_code, deny_device}
use pgedge_postgres_mcp.Oauth.Server.Endpoint.{blocked}
use pgedge_postgres_mcp.Oauth.Server.Csrf.{verify, authorize_csrf_max_age}
use pgedge_postgres_mcp.GoMap.{get, put}
use pgedge_postgres_mcp.GoMap.Laws.{get-put}
use pgedge_postgres_mcp.Oauth.Server.Authorize.Issues.{Method-cases}

module _ (lib : PageLibrary) (to_upper : String → String) {W : Type 0}
    (auth : Authenticator W) where
  -- What stands behind an approval: a POST request with the form's token, from an address that is
  -- not blocked, with the user code of a device that awaits an answer, by a user who is entitled to
  -- sign in; that user has then approved the device, and nothing else about it has changed.
  pub record Approves (r : VerifyRequest) (w w' : W) : Type 0 where
    pub device : DeviceCode
    pub posted : r.method ≡ method_post
    pub allowed : blocked (auth.server w).rate_limiter r.ip r.limited_at ≡ false
    pub form_is_ours :
        verify lib.csrf lib.csrf_key r.csrf_token r.checked_at authorize_csrf_max_age ≡ true
    pub named :
        get_device_by_user_code (typed_code lib to_upper r) (auth.server w).store ≡ some device
    pub pending : invalid_device_code r.valid_at (some device) ≡ false
    pub entitled : auth.Entitled r.login w
    pub answered :
        (d : DeviceCode) × (get device.device_hash (auth.server w).store.devices ≡ some d)
        × (get device.device_hash (auth.server w').store.devices
            ≡ some (record d { subject = r.login.username; approved = true }))

  -- The page of an approval.
  approved_answer-done :
      (r : VerifyRequest) (again : VerifyAnswer) (hash subject : String) (w : W)
      → again ≢ verify_done ""
      → (approved_answer lib to_upper auth r w again
          (approve_device hash subject (auth.server w).store)).1
        ≡ verify_done ""
      → (d : DeviceCode) × (get hash (auth.server w).store.devices ≡ some d)
        × (get hash
              (auth.server
                (approved_answer lib to_upper auth r w again
                  (approve_device hash subject (auth.server w).store)).0).store.devices
            ≡ some (record d { subject = subject; approved = true }))
  unfolding approve_device
  approved_answer-done r again hash subject w not_done e =
      let s = (auth.server w).store in
      elim (Option-cases (get hash s.devices)) [
        | inl gone ↦ absurd (not_done (ground (arith, gone)))
        | inr (d, found) ↦ elim (Bool-cases (d.approved || d.denied)) [
          | inl over ↦ absurd (not_done (ground (arith, found, over)))
          | inr open_still ↦
              let d' = record d { subject = subject; approved = true } in
              let s' = record s { devices = put hash d' s.devices } in
              let is : (approved_answer lib to_upper auth r w again
                    (approve_device hash subject s)).0
                  ≡ auth.with_server (record (auth.server w) { store = s' }) w =
                ground (arith, found, open_still) in
              (
                d,
                found,
                ap (λ x. get hash (auth.server x).store.devices) is
                    ∙ ap (λ srv. get hash srv.store.devices)
                        (auth.server-with_server (record (auth.server w) { store = s' }) w)
                    ∙ ground (arith, get-put hash hash d' s.devices, eq_refl hash),
              )
        ]
      ]

  -- The device with this hash, approved by `subject` between two worlds.
  abbrev ApprovedBy : String → String → W → W → Type 0
  ApprovedBy hash subject w w' =
      (d : DeviceCode) × (get hash (auth.server w).store.devices ≡ some d)
      × (get hash (auth.server w').store.devices
          ≡ some (record d { subject = subject; approved = true }))

  authenticated-done :
      (r : VerifyRequest) (page : Store) (dev : DeviceCode) (pr : W × AuthResult)
      → (verify_authenticated lib to_upper auth r page dev pr).1 ≡ verify_done ""
      → (subject : String) × (pr.1 ≡ authenticated_as subject)
        × ApprovedBy dev.device_hash subject pr.0
            (verify_authenticated lib to_upper auth r page dev pr).0
  authenticated-done r page dev (w, err_rate_limited) e = ground arith
  authenticated-done r page dev (w, err_invalid_credentials) e = ground arith
  authenticated-done r page dev (w, authenticated_as subject) e = (
    subject,
    refl,
    approved_answer-done r
        (verify_render lib to_upper r page 400 "That code is not valid or has expired")
        dev.device_hash subject w (λ same. ground arith) e,
  )

  approve-done :
      (r : VerifyRequest) (w : W)
      → (approve lib to_upper auth r w).1 ≡ verify_done ""
      → (d : DeviceCode) × (get_device_by_user_code
            (typed_code lib to_upper r)
            (auth.server w).store
          ≡ some d)
        × (invalid_device_code r.valid_at (some d) ≡ false)
        × auth.Entitled r.login w
        × ApprovedBy d.device_hash r.login.username w (approve lib to_upper auth r w).0
  unfolding approve
  approve-done r w e =
      elim (Option-cases
        (get_device_by_user_code (typed_code lib to_upper r) (auth.server w).store)) [
          | inl gone ↦ ground (arith, gone)
          | inr (d, found) ↦ elim (Bool-cases (invalid_device_code r.valid_at (some d))) [
            | inl bad ↦ ground (arith, found, bad)
            | inr good ↦
                let pr = auth.authenticate r.login w in
                let page = (auth.server w).store in
                let is : approve lib to_upper auth r w
                    ≡ verify_authenticated lib to_upper auth r page d pr =
                  ground (arith, found, good) in
                let (subject, ok, (d₁, before, after)) =
                  authenticated-done r page d pr (ap (λ x. x.1) (sym is) ∙ e) in
                let same_store = auth.keeps_store r.login w subject ok in
                let named = auth.names_its_user r.login w subject ok in
                (
                  d,
                  found,
                  good,
                  auth.is_entitled r.login w subject ok,
                  (
                    d₁,
                    ap (λ s. get d.device_hash (Store.devices s)) (sym same_store) ∙ before,
                    ap (λ x. get d.device_hash (auth.server x.0).store.devices) is
                        ∙ after
                        ∙ ap (λ x. some (record d₁ { subject = x; approved = true })) named,
                  ),
                )
          ]
        ]

  deny-not_done : (r : VerifyRequest) (w : W) → (deny lib to_upper auth r w).1 ≢ verify_done ""
  unfolding deny
  deny-not_done r w e =
      elim (Option-cases
        (get_device_by_user_code (typed_code lib to_upper r) (auth.server w).store)) [
          | inl gone ↦ ground (arith, gone)
          | inr (d, found) ↦ elim (Bool-cases (deny_device d.device_hash (auth.server w).store).1) [
            | inl accepted ↦
                ground
                  (arith, found, accepted, eq_iff "Request denied. You can close this window." "")
            | inr failed ↦ ground (arith, found, failed)
          ]
        ]

  -- The page that says that a device is approved is the answer only to a POST request with the
  -- form's token, from an address that is not blocked, with the user code of a device on file that
  -- awaits an answer, by a user who the authenticator says is entitled to sign in; the device is
  -- then approved by that user, and is as before otherwise.
  pub approval_is_earned :
      (r : VerifyRequest) (w : W)
      → (handle_device_verify lib to_upper auth r w).1 ≡ verify_done ""
      → Approves r w (handle_device_verify lib to_upper auth r w).0
  unfolding handle_device_verify verify_submit
  approval_is_earned r w e = elim (Method-cases r.method) [
    | inr (inr other) ↦ ground (arith, other)
    | inl got ↦ ground (arith, got)
    | inr (inl posted) ↦ elim (Bool-cases (str_eq r.action "deny")) [
      | inl denying ↦ absurd (deny-not_done r w (ground (arith, posted, denying)))
      | inr approving ↦
          let ours : verify lib.csrf lib.csrf_key r.csrf_token r.checked_at authorize_csrf_max_age
              ≡ true =
            ground (arith, posted) in
          let is : handle_device_verify lib to_upper auth r w ≡ approve lib to_upper auth r w =
            ground (arith, posted, approving, ours) in
          let (d, found, good, entitled, answer) = approve-done r w (ap (λ x. x.1) (sym is) ∙ e) in
          record {
            device = d;
            posted = posted;
            allowed = ground (arith, posted);
            form_is_ours = ours;
            named = found;
            pending = good;
            entitled = entitled;
            answered = subst (λ x. ApprovedBy d.device_hash r.login.username w x.0) (sym is) answer;
          }
    ]
  ]
