-- ===== src/Oauth/Server/SignIn/Verified.antt =====
-- The user store's authenticator meets the interface.
use pgedge_postgres_mcp.Prelude.{
  ℕ, String, ◌≡◌, refl, ◌⊎◌, inl, inr, Bool, true, false, some, arith, str_eq, Bool-cases,
  Option-cases,
}
use pgedge_postgres_mcp.Oauth.Server.SignIn.{
  Login, Portal, authenticate, Authenticator, authenticate_hooked, authenticated_as,
}
use pgedge_postgres_mcp.Auth.Users.{User}
use pgedge_postgres_mcp.GoMap.{get}
use pgedge_postgres_mcp.Oauth.Server.Endpoint.{blocked}
use pgedge_postgres_mcp.Auth.Users.Authenticate.{authenticate_user}
use pgedge_postgres_mcp.Oauth.Server.Accounts.{revoke_all}

-- The account of a login that succeeds.
pub record Verified (verify_password : String → String → Bool) (l : Login) (p : Portal)
    : Type 0 where
  pub user : User
  pub on_file : get l.username p.users.users ≡ some user
  pub active : user.enabled ≡ true
  pub password_matches : verify_password l.attempt.password user.password_hash ≡ true
  pub address_allowed :
      (str_eq l.ip "" ≡ true) ⊎ (blocked p.server.rate_limiter l.ip l.limited_at ≡ false)

module _ (verify_password : String → String → Bool) (max_failed_attempts : ℕ) where
  -- A login succeeds only as that of the user whom it names, whose account is on file and enabled
  -- and whose password it gives, from an address that is not blocked, or from none; it leaves the
  -- OAuth store as it was.
  pub authenticate_sound :
      (l : Login) (p : Portal) (subject : String)
      → (authenticate verify_password max_failed_attempts l p).1 ≡ authenticated_as subject
      → (subject ≡ l.username)
        × Verified verify_password l p
        × ((authenticate verify_password max_failed_attempts l p).0.server.store ≡ p.server.store)
  unfolding authenticate authenticate_hooked authenticate_user
  authenticate_sound l p subject ok = elim (Option-cases (get l.username p.users.users)) [
    | inl gone ↦ ground (arith, gone)
    | inr (u, found) ↦ elim (Option-cases l.attempt.token) [
      | inl broke ↦ ground (arith, found, broke)
      | inr (t, drawn) ↦ (
        ground (arith, found, drawn),
        record {
          user = u;
          on_file = found;
          active = ground (arith, found);
          password_matches = ground (arith, found);
          address_allowed = elim (Bool-cases (str_eq l.ip "")) [
            | inl e ↦ inl e
            | inr e ↦ inr (ground arith)
          ];
        },
        unfold revoke_all in ground (arith, found, drawn),
      )
    ]
  ]

  -- The interface, filled in.
  abbrev pub user_store_authenticator : Authenticator Portal
  user_store_authenticator = record {
    server = λ p. p.server;
    with_server = λ s p. record p { server = s };
    authenticate = authenticate verify_password max_failed_attempts;
    Entitled = Verified verify_password;
    server-with_server = λ s p. refl;
    names_its_user = λ l p subject ok. (authenticate_sound l p subject ok).0;
    is_entitled = λ l p subject ok. (authenticate_sound l p subject ok).1;
    keeps_store = λ l p subject ok. (authenticate_sound l p subject ok).2;
  }
