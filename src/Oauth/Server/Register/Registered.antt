-- ===== src/Oauth/Server/Register/Registered.antt =====
-- What a client that is registered has passed.
use pgedge_postgres_mcp.Prelude.{
  ◌≤◌, String, ◌≡◌, refl, sym, ap, ◌∙◌, ◌⊎◌, inl, inr, Bool, true, false, false≢true, none, some,
  List, [], ◌∷◌, ◌++◌, arith, eq_iff, eq_refl, str_eq, Bool-cases, Option-cases, length, is_empty,
  contains, subst, all,
}
use pgedge_postgres_mcp.Oauth.Types.{Store, Client}
use pgedge_postgres_mcp.Oauth.Server.Register.{
  RegistrationRequest, Registration, RegistrationResponse, first_outside, check_registration,
  new_client, handle_register, registration_stored, registered, register_counted,
  supported_grant_types, truncate_runes,
}
use pgedge_postgres_mcp.Oauth.Server.Redirect.{UrlLibrary, first_forbidden, redirect_uri_allowed}
use pgedge_postgres_mcp.Oauth.Store.Clients.{put_client, lru_evictable_client_locked}
use pgedge_postgres_mcp.Oauth.Server.Authorize.{EndpointOptions, configured_redirects}
use pgedge_postgres_mcp.Oauth.Server.Endpoint.{Server, record_failure}
use pgedge_postgres_mcp.GoMap.{get, delete}
use pgedge_postgres_mcp.Oauth.Server.Redirect.Permitted.{Permits, redirect_uri_allowed_sound}
use pgedge_postgres_mcp.Oauth.Server.Endpoint.Metered.{
  MayTry, IsCounted, blocked-MayTry, record_failure-IsCounted,
}
use pgedge_postgres_mcp.GoMap.Laws.{get-put}

-- What the checks of a body establish.
pub record IsAcceptable (urls : UrlLibrary) (opts : EndpointOptions) (req : RegistrationRequest)
    : Type 0 where
  pub some_target : is_empty req.redirect_uris ≡ false
  pub few_targets : length req.redirect_uris ≤ 10
  pub all_permitted :
      (u : String)
      → contains req.redirect_uris u ≡ true
      → Permits urls (opts.allowed_redirect_uris ++ opts.extra_redirects) u
  pub public_client :
      (req.token_endpoint_auth_method ≡ "") ⊎ (req.token_endpoint_auth_method ≡ "none")
  pub grants_supported :
      all
        (contains (
          "authorization_code" ∷ "refresh_token" ∷ "urn:ietf:params:oauth:grant-type:device_code"
          ∷ []))
        req.grant_types
      ≡ true

-- The client of the response `resp`, in the server `srv'` after the request.
pub record Registers (urls : UrlLibrary) (opts : EndpointOptions) (r : Registration)
    (srv srv' : Server) (resp : RegistrationResponse) : Type 0 where
  pub request : RegistrationRequest
  pub body_is : r.body ≡ some request
  pub acceptable : IsAcceptable urls opts request
  pub drawn_is : r.drawn ≡ some resp.client_id
  pub targets_are : resp.redirect_uris ≡ request.redirect_uris
  pub on_file :
      get resp.client_id srv'.store.clients
      ≡ some (record {
        id = resp.client_id;
        name = truncate_runes request.client_name 100;
        redirect_uris = request.redirect_uris;
        created_at = r.stored_at;
        last_used = r.stored_at;
      })
  pub was_allowed : MayTry srv.anonymous_rate_limiter r.ip r.limited_at
  pub counted : IsCounted srv.anonymous_rate_limiter srv'.anonymous_rate_limiter r.ip r.counted_at

-- No target is forbidden where the loop finds none.
targets_permitted :
    (urls : UrlLibrary) (uris allowed : List String)
    → first_forbidden urls uris allowed ≡ none
    → all (λ u. redirect_uri_allowed urls u allowed) uris ≡ true
unfolding first_forbidden
targets_permitted urls [] allowed e = refl
targets_permitted urls (u ∷ uris) allowed e = ground (arith, targets_permitted urls uris allowed)

every :
    (p : String → Bool) (xs : List String) (u : String)
    → all p xs ≡ true
    → contains xs u ≡ true
    → p u ≡ true
every p [] u ok inside = absurd (false≢true inside)
every p (x ∷ xs) u ok inside = elim (Bool-cases (str_eq x u)) [
  | inl same ↦ subst (λ k. p k ≡ true) ((eq_iff x u).0 same) (ground arith)
  | inr other ↦ every p xs u (ground arith) (ground arith)
]

first_outside-none :
    (xs allowed : List String) → first_outside xs allowed ≡ none → all (contains allowed) xs ≡ true
unfolding first_outside
first_outside-none [] allowed e = refl
first_outside-none (x ∷ xs) allowed e = ground (arith, first_outside-none xs allowed)

put_client-puts :
    (c : Client) (s : Store)
    → (put_client c s).1 ≡ none
    → get c.id (put_client c s).0.clients ≡ some c
unfolding put_client
put_client-puts c s e = elim (Option-cases (lru_evictable_client_locked c.last_used s)) [
  | inl nobody ↦ ground (arith, nobody, get-put c.id c.id c s.clients, eq_refl c.id)
  | inr ((victim, used), found) ↦ ground (
    arith,
    found,
    get-put c.id c.id c s.clients,
    get-put c.id c.id c (delete victim s.clients),
    eq_refl c.id,
  )
]

module _ (urls : UrlLibrary) (opts : EndpointOptions) where
  checked-IsAcceptable :
      (req : RegistrationRequest)
      → check_registration urls opts req ≡ none
      → IsAcceptable urls opts req
  unfolding check_registration
  checked-IsAcceptable req e =
      elim (Option-cases (first_forbidden urls req.redirect_uris (configured_redirects opts))) [
        | inr (u, bad) ↦ ground (arith, bad)
        | inl targets ↦ elim (Option-cases (first_outside req.grant_types supported_grant_types)) [
          | inr (g, bad) ↦ ground (arith, targets, bad)
          | inl grants ↦ record {
            some_target = ground (arith, targets, grants);
            few_targets = ground (arith, targets, grants);
            all_permitted = λ u inside.
                redirect_uri_allowed_sound urls u (configured_redirects opts) (
                  every (λ x. redirect_uri_allowed urls x (configured_redirects opts))
                    req.redirect_uris u
                    (targets_permitted urls req.redirect_uris (configured_redirects opts) targets)
                    inside);
            public_client = elim (Bool-cases (str_eq req.token_endpoint_auth_method "")) [
              | inl unset ↦ inl ((eq_iff req.token_endpoint_auth_method "").0 unset)
              | inr given ↦
                  inr
                    (ground (arith, targets, grants, eq_iff req.token_endpoint_auth_method "none"))
            ];
            grants_supported = first_outside-none req.grant_types supported_grant_types grants;
          }
        ]
      ]

  stored-registers :
      (req : RegistrationRequest) (r : Registration) (id : String) (srv : Server)
      (resp : RegistrationResponse)
      → let out =
          registration_stored urls opts req id r.stored_at srv
            (put_client (new_client urls opts req id r.stored_at) srv.store) in
        out.1 ≡ registered resp
        → (id ≡ resp.client_id)
          × (resp.redirect_uris ≡ req.redirect_uris)
          × (get id out.0.store.clients ≡ some (new_client urls opts req id r.stored_at))
          × (out.0.anonymous_rate_limiter ≡ srv.anonymous_rate_limiter)
  stored-registers req r id srv resp e =
      let c = new_client urls opts req id r.stored_at in
      elim (Option-cases (put_client c srv.store).1) [
        | inl ok ↦ ground (arith, ok, put_client-puts c srv.store ok)
        | inr (full, failed) ↦ ground (arith, failed)
      ]

  -- A client is registered only if the address is not blocked, and the body names from one to ten
  -- targets, each permitted by the configured lists, asks for no client secret and for supported
  -- grants only; the client is then on file with exactly these targets, and the request is counted
  -- against the address.
  pub registered_client_is_checked :
      (r : Registration) (srv : Server) (resp : RegistrationResponse)
      → (handle_register urls opts r srv).1 ≡ registered resp
      → Registers urls opts r srv (handle_register urls opts r srv).0 resp
  unfolding handle_register register_counted
  registered_client_is_checked r srv resp e = elim (Option-cases r.body) [
    | inl bad ↦ ground (arith, bad)
    | inr (req, body) ↦ elim (Option-cases (check_registration urls opts req)) [
      | inr (err, failed) ↦ ground (arith, body, failed)
      | inl fine ↦ elim (Option-cases r.drawn) [
        | inl broke ↦ ground (arith, body, fine, broke)
        | inr (id, drawn) ↦
            let counted = record srv {
              anonymous_rate_limiter = record_failure srv.anonymous_rate_limiter r.ip r.counted_at;
            } in
            let is : handle_register urls opts r srv
                ≡ registration_stored urls opts req id r.stored_at counted
                    (put_client (new_client urls opts req id r.stored_at) srv.store) =
              ground (arith, body, fine, drawn) in
            let (id_is, targets, found, same) =
              stored-registers req r id counted resp (ap (λ x. x.1) (sym is) ∙ e) in
            record {
              request = req;
              body_is = body;
              acceptable = checked-IsAcceptable req fine;
              drawn_is = drawn ∙ ap (λ x. some x) id_is;
              targets_are = targets;
              on_file =
                  subst
                    (λ x.
                      get x (handle_register urls opts r srv).0.store.clients
                      ≡ some (new_client urls opts req x r.stored_at))
                    id_is (ap (λ x. get id x.0.store.clients) is ∙ found);
              was_allowed =
                  blocked-MayTry srv.anonymous_rate_limiter r.ip r.limited_at
                    (ground (arith, body, fine, drawn));
              counted =
                  subst (λ x. IsCounted srv.anonymous_rate_limiter x r.ip r.counted_at)
                    (sym (ap (λ x. x.0.anonymous_rate_limiter) is ∙ same))
                    (record_failure-IsCounted srv.anonymous_rate_limiter r.ip r.counted_at);
            }
      ]
    ]
  ]
