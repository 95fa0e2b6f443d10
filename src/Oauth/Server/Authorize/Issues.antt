-- ===== src/Oauth/Server/Authorize/Issues.antt =====
-- What an authorisation code that is issued stands for.
use pgedge_postgres_mcp.Prelude.{
  ℕ, ◌+◌, String, ◌≡◌, refl, sym, ap, ◌∙◌, ◌≢◌, ◌⊎◌, inl, inr, true, none, some, ◌++◌, arith,
  eq_refl, if◌then◌else◌, Bool-cases, Option-cases, is_empty, subst,
}
use pgedge_postgres_mcp.Oauth.Server.Authorize.{
  method_get, method_post, method_other, PageLibrary, EndpointOptions, AuthorizeParams,
  AuthorizeRequest, redirect_code, issue_code, submit, new_auth_code, code_stored, store_of,
  authenticated_as, authenticated, with_store, redirects_of, check_authorize_params, method_post,
  handle_authorize, validate_authorize, Method, redirected_error, client_checked, params_checked,
}
use pgedge_postgres_mcp.Oauth.Server.SignIn.{
  err_rate_limited, err_invalid_credentials, Authenticator, AuthResult,
}
use pgedge_postgres_mcp.Oauth.Store.Codes.{put_code}
use pgedge_postgres_mcp.Oauth.Types.{Store, Client}
use pgedge_postgres_mcp.GoMap.{get}
use pgedge_postgres_mcp.Oauth.Server.Csrf.{verify, authorize_csrf_max_age}
use pgedge_postgres_mcp.Oauth.Server.Redirect.{redirect_uri_allowed}
use pgedge_postgres_mcp.Oauth.Server.Csrf.Verified.{Signed, verify_sound}
use pgedge_postgres_mcp.Oauth.Server.Redirect.Permitted.{Permits, redirect_uri_allowed_sound}
use pgedge_postgres_mcp.Oauth.Server.Authorize.Checked.{
  HasValidParams, check_authorize_params_sound,
}
use pgedge_postgres_mcp.GoMap.Laws.{get-put}
use pgedge_postgres_mcp.Oauth.Store.Clients.{touch_client, get_client}
use pgedge_postgres_mcp.Oauth.Server.Errors.{Error}

pub Method-cases : (m : Method) → (m ≡ method_get) ⊎ ((m ≡ method_post) ⊎ (m ≡ method_other))
Method-cases method_get = inl refl
Method-cases method_post = inr (inl refl)
Method-cases method_other = inr (inr refl)

module _ (lib : PageLibrary) (opts : EndpointOptions) where
  -- What the last step leaves where it answers with a code.
  abbrev CodeStored : AuthorizeParams → String → ℕ → Store → String → String → String → Type 0
  CodeStored p subject now s uri code state =
      (get (lib.external.hash_token code) s.codes
        ≡ some (record {
          hash = lib.external.hash_token code;
          client_id = p.client_id;
          redirect_uri = p.redirect_uri;
          subject = subject;
          scope = p.scope;
          code_challenge = p.code_challenge;
          expires_at = now + opts.authorization_code_lifetime;
        }))
      × (uri ≡ p.redirect_uri)
      × (state ≡ p.state)

  stored_code :
      (c : Client) (r : AuthorizeRequest) (subject drawn uri code state : String) (now : ℕ)
      (s : Store)
      → (code_stored lib opts c r.params drawn
          (put_code (new_auth_code lib opts r.params subject drawn now) s)).1
        ≡ redirect_code uri code state
      → CodeStored r.params subject now
          (code_stored lib opts c r.params drawn
            (put_code (new_auth_code lib opts r.params subject drawn now) s)).0
          uri
          code
          state
  unfolding put_code
  stored_code c r subject drawn uri code state now s e =
      let h = lib.external.hash_token drawn in
      let new = new_auth_code lib opts r.params subject drawn now in
      elim (Option-cases (lib.urls.parse r.params.redirect_uri)) [
        | inl bad ↦ ground (arith, bad)
        | inr (u, parsed) ↦ ground (arith, parsed, get-put h h new s.codes, eq_refl h)
      ]

  issue_code-stores :
      (c : Client) (r : AuthorizeRequest) (subject uri code state : String) (s : Store)
      → (issue_code lib opts c r subject s).1 ≡ redirect_code uri code state
      → CodeStored r.params subject r.issued_at (issue_code lib opts c r subject s).0 uri code state
  unfolding issue_code
  issue_code-stores c r subject uri code state s e = elim (Option-cases r.drawn) [
    | inl broke ↦ ground (arith, broke)
    | inr (drawn, d) ↦
        rw d (stored_code c r subject drawn uri code state r.issued_at s (ground (arith, d)))
  ]

  module _ {W : Type 0} (auth : Authenticator W) where
    abbrev SignedIn :
        Client → AuthorizeRequest → W × AuthResult → String → String → String → W → Type 0
    SignedIn c r pr uri code state w' =
        (subject : String) × (pr.1 ≡ authenticated_as subject)
        × CodeStored r.params subject r.issued_at (store_of lib opts auth w') uri code state

    authenticated-signs_in :
        (c : Client) (r : AuthorizeRequest) (pr : W × AuthResult) (uri code state : String)
        → (authenticated lib opts auth c r pr).1 ≡ redirect_code uri code state
        → SignedIn c r pr uri code state (authenticated lib opts auth c r pr).0
    authenticated-signs_in c r (w, err_rate_limited) uri code state e = ground arith
    authenticated-signs_in c r (w, err_invalid_credentials) uri code state e = ground arith
    authenticated-signs_in c r (w, authenticated_as subject) uri code state e =
        let s = store_of lib opts auth w in
        let s' = (issue_code lib opts c r subject s).0 in
        let read : store_of lib opts auth (with_store lib opts auth s' w) ≡ s' =
          ap (λ srv. srv.store)
            (auth.server-with_server (record (auth.server w) { store = s' }) w) in
        (
          subject,
          refl,
          subst (λ x. CodeStored r.params subject r.issued_at x uri code state) (sym read)
              (issue_code-stores c r subject uri code state s e),
        )

    redirected_error-no_code :
        (p : AuthorizeParams) (e : Error) (uri code state : String)
        → redirected_error lib opts p e ≢ redirect_code uri code state
    redirected_error-no_code p e uri code state same =
        elim (Option-cases (lib.urls.parse p.redirect_uri)) [
          | inl bad ↦ ground (arith, bad)
          | inr (u, parsed) ↦ ground (arith, parsed)
        ]

    -- What a code answers: a POST request with the form's token, by a known client for a permitted
    -- target with valid parameters, from a user who is entitled to sign in; the code is on file
    -- in that user's name.
    pub record CodeEarned (r : AuthorizeRequest) (w : W) (uri code state : String) : Type 0 where
      pub client : Client
      pub known : get r.params.client_id (store_of lib opts auth w).clients ≡ some client
      pub target_permitted :
          Permits lib.urls
            (if is_empty client.redirect_uris
              then opts.allowed_redirect_uris ++ opts.extra_redirects
              else client.redirect_uris)
            r.params.redirect_uri
      pub checks_pass : check_authorize_params r.params ≡ none
      pub params_fine : HasValidParams r.params
      pub posted : r.method ≡ method_post
      pub form_is_ours : Signed lib.csrf lib.csrf_key r.csrf_token r.checked_at 600_000_000_000
      pub entitled : auth.Entitled r.login (
          with_store lib opts auth
            (touch_client client.id r.touched_at (store_of lib opts auth w))
            w)
      pub on_file :
          CodeStored r.params r.login.username r.issued_at
            (store_of lib opts auth (handle_authorize lib opts auth r w).0)
            uri
            code
            state

    submit-signs_in :
        (c : Client) (r : AuthorizeRequest) (w : W) (uri code state : String)
        → (submit lib opts auth c r w).1 ≡ redirect_code uri code state
        → (verify lib.csrf lib.csrf_key r.csrf_token r.checked_at authorize_csrf_max_age ≡ true)
          × auth.Entitled r.login w
          × CodeStored r.params r.login.username r.issued_at
              (store_of lib opts auth (submit lib opts auth c r w).0)
              uri
              code
              state
    unfolding submit
    submit-signs_in c r w uri code state e =
        elim (Bool-cases
          (verify lib.csrf lib.csrf_key r.csrf_token r.checked_at authorize_csrf_max_age)) [
            | inl ours ↦
                let (subject, ok, stored) =
                  authenticated-signs_in c r (auth.authenticate r.login w) uri code state
                    (ground (arith, ours)) in
                (
                  ours,
                  auth.is_entitled r.login w subject ok,
                  rw ours (
                      subst
                        (λ x.
                          CodeStored r.params x r.issued_at
                            (store_of lib opts auth
                              (authenticated lib opts auth c r (auth.authenticate r.login w)).0)
                            uri code state)
                        (auth.names_its_user r.login w subject ok) stored),
                )
            | inr not_ours ↦ ground (arith, not_ours)
          ]

    posted_reaches_submit :
        (r : AuthorizeRequest) (w : W) (c : Client)
        → r.method ≡ method_post
        → r.form_ok ≡ true
        → validate_authorize lib opts r.params (store_of lib opts auth w) ≡ some c
        → check_authorize_params r.params ≡ none
        → handle_authorize lib opts auth r w
          ≡ submit lib opts auth c r (
              with_store lib opts auth
                (touch_client c.id r.touched_at (store_of lib opts auth w))
                w)
    unfolding handle_authorize
    posted_reaches_submit r w c posted well valid fine =
        let w₁ =
          with_store lib opts auth (touch_client c.id r.touched_at (store_of lib opts auth w)) w in
        ground (arith, posted, well)
        ∙ ap (client_checked lib opts auth r w) valid
        ∙ ap (params_checked lib opts auth c r w₁) fine
        ∙ ground (arith, posted)

    -- A redirect with a code is the answer only to a POST request that carries a signed token of
    -- the form, by a client on file, for a target permitted to it, with valid parameters, from a
    -- user who the authenticator says is entitled to sign in; the code is then on file for that
    -- user, the client, the target, the scope and the challenge, until its lifetime is over.
    pub code_is_earned :
        (r : AuthorizeRequest) (w : W) (uri code state : String)
        → (handle_authorize lib opts auth r w).1 ≡ redirect_code uri code state
        → CodeEarned r w uri code state
    unfolding handle_authorize validate_authorize get_client
    code_is_earned r w uri code state e =
        let s = store_of lib opts auth w in
        elim (Method-cases r.method) [
          | inr (inr other) ↦ ground (arith, other)
          | inl got ↦ elim (Option-cases (get r.params.client_id s.clients)) [
            | inl gone ↦ ground (arith, got, gone)
            | inr (c, found) ↦ ground (arith, got, found)
          ]
          | inr (inl posted) ↦ elim (Option-cases (get r.params.client_id s.clients)) [
            | inl gone ↦ ground (arith, posted, gone)
            | inr (c, found) ↦ elim (Option-cases (check_authorize_params r.params)) [
              | inr (bad, failed) ↦ ground (arith, posted, found, failed)
              | inl fine ↦
                  let w₁ = with_store lib opts auth (touch_client c.id r.touched_at s) w in
                  let well : r.form_ok ≡ true = ground (arith, posted) in
                  let permitted : redirect_uri_allowed lib.urls r.params.redirect_uri
                        (redirects_of lib opts c)
                      ≡ true =
                    ground (arith, posted, found) in
                  let is : handle_authorize lib opts auth r w ≡ submit lib opts auth c r w₁ =
                    posted_reaches_submit r w c posted well (ground (arith, found, permitted))
                      fine in
                  let (ours, entitled, stored) =
                    submit-signs_in c r w₁ uri code state (ap (λ x. x.1) (sym is) ∙ e) in
                  record {
                    client = c;
                    known = found;
                    target_permitted =
                        redirect_uri_allowed_sound lib.urls r.params.redirect_uri
                          (redirects_of lib opts c) permitted;
                    checks_pass = fine;
                    params_fine = check_authorize_params_sound r.params fine;
                    posted = posted;
                    form_is_ours =
                        verify_sound lib.csrf lib.csrf_key r.csrf_token r.checked_at
                          authorize_csrf_max_age ours;
                    entitled = entitled;
                    on_file =
                        subst
                          (λ x.
                            CodeStored r.params r.login.username r.issued_at
                              (store_of lib opts auth x.0) uri code state)
                          (sym is) stored;
                  }
            ]
          ]
        ]
