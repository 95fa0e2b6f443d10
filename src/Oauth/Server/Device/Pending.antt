-- ===== src/Oauth/Server/Device/Pending.antt =====
-- What a device authorisation request leaves behind.
use pgedge_postgres_mcp.Prelude.{
  ◌+◌, String, ◌≡◌, refl, sym, ap, ◌∙◌, inl, inr, true, false, none, some, arith, eq_refl,
  Option-cases, subst,
}
use pgedge_postgres_mcp.Oauth.Types.{Store, DeviceCode, Client}
use pgedge_postgres_mcp.Oauth.Server.Device.{
  DeviceRequest, DeviceResponse, device_started, handle_device, device_counted, device_stored,
  new_device_code, device_response,
}
use pgedge_postgres_mcp.Oauth.Server.Endpoint.{Server, record_failure, blocked}
use pgedge_postgres_mcp.Oauth.Server.Authorize.{EndpointOptions}
use pgedge_postgres_mcp.Oauth.Store.Devices.{put_device_code, get_device_by_user_code}
use pgedge_postgres_mcp.GoMap.{get}
use pgedge_postgres_mcp.Oauth.Server.Scope.Only.{only_mcp, between, scope_permitted_lem}
use pgedge_postgres_mcp.Oauth.Server.UserCode.{new_user_code}
use pgedge_postgres_mcp.Oauth.Store.Clients.{get_client}
use pgedge_postgres_mcp.Oauth.Server.Endpoint.Metered.{
  MayTry, IsCounted, blocked-MayTry, record_failure-IsCounted,
}
use pgedge_postgres_mcp.GoMap.Laws.{get-put}

-- The device code of the response `resp`, in the server `srv'` after the request.
pub record StartsDevice (hash_token : String → String) (opts : EndpointOptions) (r : DeviceRequest)
    (srv srv' : Server) (resp : DeviceResponse) : Type 0 where
  pub device : DeviceCode
  pub client : Client
  pub known : get r.client_id srv.store.clients ≡ some client
  pub scope_fine : only_mcp between r.scope ≡ true
  pub drawn_is : new_user_code r.bytes ≡ some resp.user_code
  pub on_file : get (hash_token resp.device_code) srv'.store.devices ≡ some device
  pub by_user_code : get_device_by_user_code resp.user_code srv'.store ≡ some device
  pub device_is : device ≡ record {
    device_hash = hash_token resp.device_code;
    user_code = resp.user_code;
    client_id = r.client_id;
    scope = r.scope;
    subject = "";
    approved = false;
    denied = false;
    expires_at = r.stored_at + opts.device_code_lifetime;
    last_polled = 0;
    interval = 5_000_000_000;
  }
  pub for_client : device.client_id ≡ r.client_id
  pub not_approved : device.approved ≡ false
  pub not_denied : device.denied ≡ false
  pub was_allowed : MayTry srv.anonymous_rate_limiter r.ip r.limited_at
  pub counted : IsCounted srv.anonymous_rate_limiter srv'.anonymous_rate_limiter r.ip r.counted_at

module _ (hash_token : String → String) (query_escape : String → String)
    (opts : EndpointOptions) where
  -- What the store shows of a code that was put.
  put_device_code-puts :
      (d : DeviceCode) (s : Store)
      → (put_device_code d s).1 ≡ none
      → (get d.device_hash (put_device_code d s).0.devices ≡ some d)
        × (get_device_by_user_code d.user_code (put_device_code d s).0 ≡ some d)
  unfolding put_device_code get_device_by_user_code
  put_device_code-puts d s e = ground (
    arith,
    get-put d.device_hash d.device_hash d s.devices,
    get-put d.user_code d.user_code d.device_hash s.user_codes,
    eq_refl d.device_hash,
    eq_refl d.user_code,
  )

  stored-StartsDevice :
      (r : DeviceRequest) (c : Client) (device_code user_code : String) (srv counted : Server)
      (resp : DeviceResponse)
      → get r.client_id srv.store.clients ≡ some c
      → only_mcp between r.scope ≡ true
      → new_user_code r.bytes ≡ some user_code
      → blocked srv.anonymous_rate_limiter r.ip r.limited_at ≡ false
      → counted ≡ record srv {
        anonymous_rate_limiter = record_failure srv.anonymous_rate_limiter r.ip r.counted_at;
      }
      → (device_stored hash_token query_escape opts device_code user_code counted (
          put_device_code
            (new_device_code hash_token query_escape opts r device_code user_code)
            srv.store)).1
        ≡ device_started resp
      → StartsDevice hash_token opts r srv
          (device_stored hash_token query_escape opts device_code user_code counted (
            put_device_code
              (new_device_code hash_token query_escape opts r device_code user_code)
              srv.store)).0
          resp
  stored-StartsDevice r c device_code user_code srv counted resp known fine drawn allowed same e =
      let d = new_device_code hash_token query_escape opts r device_code user_code in
      elim (Option-cases (put_device_code d srv.store).1) [
        | inr (full, failed) ↦ ground (arith, failed)
        | inl ok ↦
            let (by_hash, by_code) = put_device_code-puts d srv.store ok in
            let resp_is : device_response hash_token query_escape opts device_code user_code
                ≡ resp =
              ground (arith, ok) in
            let put = (put_device_code d srv.store).0 in
            let at_store : (device_stored hash_token query_escape opts device_code user_code counted
                  (put_device_code d srv.store)).0.store
                ≡ put =
              ground (arith, ok) in
            record {
              device = d;
              client = c;
              known = known;
              scope_fine = fine;
              drawn_is = drawn ∙ ap (λ x. some (DeviceResponse.user_code x)) resp_is;
              on_file =
                  ap
                    (λ x.
                      get (hash_token (DeviceResponse.device_code x))
                        (device_stored hash_token query_escape opts device_code user_code counted
                          (put_device_code d srv.store)).0.store.devices)
                    (sym resp_is)
                  ∙ ap (λ x. get (hash_token device_code) (Store.devices x)) at_store
                  ∙ by_hash;
              by_user_code =
                  ap
                    (λ x.
                      get_device_by_user_code (DeviceResponse.user_code x)
                        (device_stored hash_token query_escape opts device_code user_code counted
                          (put_device_code d srv.store)).0.store)
                    (sym resp_is)
                  ∙ ap (get_device_by_user_code user_code) at_store
                  ∙ by_code;
              device_is =
                  ap
                    (λ x.
                      new_device_code hash_token query_escape opts r (DeviceResponse.device_code x)
                        (DeviceResponse.user_code x))
                    resp_is;
              for_client = refl;
              not_approved = refl;
              not_denied = refl;
              was_allowed = blocked-MayTry srv.anonymous_rate_limiter r.ip r.limited_at allowed;
              counted =
                  subst (λ x. IsCounted srv.anonymous_rate_limiter x r.ip r.counted_at)
                    (ground (arith, ok, same))
                    (record_failure-IsCounted srv.anonymous_rate_limiter r.ip r.counted_at);
            }
      ]

  -- A device code is given out only to a client on file, for a scope of the word `mcp` alone, from
  -- an address that is not blocked; it is then on file, by its hash and by the user code, for the
  -- client, with the scope of the request and without an answer, and the request is counted
  -- against the address.
  pub device_starts_pending :
      (r : DeviceRequest) (srv : Server) (resp : DeviceResponse)
      → (handle_device hash_token query_escape opts r srv).1 ≡ device_started resp
      → StartsDevice hash_token opts r srv (handle_device hash_token query_escape opts r srv).0 resp
  unfolding handle_device device_counted get_client
  device_starts_pending r srv resp e = elim (Option-cases (get r.client_id srv.store.clients)) [
    | inl gone ↦ ground (arith, gone)
    | inr (c, known) ↦ elim (Option-cases r.drawn) [
      | inl broke ↦ ground (arith, known, broke)
      | inr (device_code, drawn) ↦ elim (Option-cases (new_user_code r.bytes)) [
        | inl broke ↦ ground (arith, known, drawn, broke)
        | inr (user_code, coded) ↦
            let counted = record srv {
              anonymous_rate_limiter = record_failure srv.anonymous_rate_limiter r.ip r.counted_at;
            } in
            let out = device_stored hash_token query_escape opts device_code user_code counted (
              put_device_code (new_device_code hash_token query_escape opts r device_code user_code)
                srv.store) in
            let is : handle_device hash_token query_escape opts r srv ≡ out =
              ground (arith, known, drawn, coded) in
            subst (λ x. StartsDevice hash_token opts r srv x.0 resp) (sym is)
              (stored-StartsDevice r c device_code user_code srv counted resp known
                (sym (scope_permitted_lem r.scope) ∙ ground (arith, known, drawn, coded)) coded
                (ground (arith, known, drawn, coded)) refl (ap (λ x. x.1) (sym is) ∙ e))
      ]
    ]
  ]
