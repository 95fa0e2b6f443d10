-- ===== src/Auth/Validator/Identified.antt =====
-- What an identity that `Validate` returns proves of the token.
use pgedge_postgres_mcp.Prelude.{
  ℕ, String, ◌≡◌, refl, sym, ap, ◌∙◌, ◌⊎◌, inl, inr, true, some, arith, Option-cases, subst,
}
use pgedge_postgres_mcp.Auth.Users.{
  UserError, SessionResult, no_session, session_of, validate_session_token, UserStore,
}
use pgedge_postgres_mcp.Auth.Validator.{
  Validator, Identity, IdentityKind, identity_api_token, identity_session, identity_oauth, validate,
  api_identity, session_identity, oauth_identity,
}
use pgedge_postgres_mcp.Oauth.Server.Errors.{External, Config}
use pgedge_postgres_mcp.Auth.Tokens.{TokenStore, validate_token}
use pgedge_postgres_mcp.Oauth.Types.{Store}
use pgedge_postgres_mcp.Oauth.Server.RefreshGrant.{validate_access_token}

session-cases :
    (r : SessionResult)
    → ((e : UserError) × (r ≡ no_session e)) ⊎ ((name : String) × (r ≡ session_of name))
session-cases (no_session e) = inl (e, refl)
session-cases (session_of name) = inr (name, refl)

module _ (ext : External) (config : Config) where
  -- What each kind of identity stands for.
  abbrev pub StandsFor : String → ℕ → Validator → String → IdentityKind → Type 0
  StandsFor token now v username identity_api_token =
      (v.methods.api_tokens ≡ true)
      × (username ≡ "")
      × (s : TokenStore) × (v.tokens ≡ some s)
      × (validate_token ext.hash_token token now s ≡ true)
  StandsFor token now v username identity_session =
      (v.methods.password_login ≡ true)
      × (s : UserStore) × (v.users ≡ some s)
      × (validate_session_token token now s ≡ session_of username)
  StandsFor token now v username identity_oauth =
      (v.methods.oauth ≡ true)
      × (s : Store) × (v.oauth_store ≡ some s)
      × (client_id : String) × ((validate_access_token ext config token now s).1
          ≡ some (username, client_id))

  api_sound :
      (token : String) (now : ℕ) (v : Validator) (id : Identity)
      → api_identity ext config token now v ≡ some id
      → StandsFor token now v id.username id.kind
  unfolding api_identity
  api_sound token now v id e = elim (Option-cases v.tokens) [
    | inl gone ↦ ground (arith, gone)
    | inr (s, has_store) ↦
        let kind : id.kind ≡ identity_api_token = ground (arith, has_store) in
        subst (StandsFor token now v id.username) (sym kind) (
          ground (arith, has_store),
          ground (arith, has_store),
          s,
          has_store,
          ground (arith, has_store),
        )
  ]

  session_sound :
      (token : String) (now : ℕ) (v : Validator) (id : Identity)
      → session_identity ext config token now v ≡ some id
      → StandsFor token now v id.username id.kind
  unfolding session_identity
  session_sound token now v id e = elim (Option-cases v.users) [
    | inl gone ↦ ground (arith, gone)
    | inr (s, has_store) ↦ elim (session-cases (validate_session_token token now s)) [
      | inl (x, f) ↦ ground (arith, has_store, f)
      | inr (name, f) ↦
          let kind : id.kind ≡ identity_session = ground (arith, has_store, f) in
          let same : name ≡ id.username = ground (arith, has_store, f) in
          subst (StandsFor token now v id.username) (sym kind)
            (ground (arith, has_store), s, has_store, f ∙ ap session_of same)
    ]
  ]

  oauth_sound :
      (token : String) (now : ℕ) (v : Validator) (id : Identity)
      → (oauth_identity ext config token now v).1 ≡ some id
      → StandsFor token now v id.username id.kind
  unfolding oauth_identity
  oauth_sound token now v id e = elim (Option-cases v.oauth_store) [
    | inl gone ↦ ground (arith, gone)
    | inr (s, has_store) ↦ elim (Option-cases (validate_access_token ext config token now s).1) [
      | inl f ↦ ground (arith, has_store, f)
      | inr ((subject, client_id), f) ↦
          let kind : id.kind ≡ identity_oauth = ground (arith, has_store, f) in
          let same : subject ≡ id.username = ground (arith, has_store, f) in
          subst (StandsFor token now v id.username) (sym kind) (
            ground (arith, has_store),
            s,
            has_store,
            client_id,
            f ∙ ap (λ x. some (x, client_id)) same,
          )
    ]
  ]

  -- An identity is returned only for a credential of a kind that is switched on, which its own
  -- store accepts, for a session or an OAuth token as that of the user that the identity names;
  -- one of an API token names no user.
  pub validate_sound :
      (token : String) (now : ℕ) (v : Validator) (id : Identity)
      → (validate ext config token now v).1 ≡ some id
      → StandsFor token now v id.username id.kind
  unfolding validate
  validate_sound token now v id e = elim (Option-cases (api_identity ext config token now v)) [
    | inr (a, p) ↦ api_sound token now v id (ground (arith, p))
    | inl p ↦ elim (Option-cases (session_identity ext config token now v)) [
      | inr (a, q) ↦ session_sound token now v id (ground (arith, p, q))
      | inl q ↦ oauth_sound token now v id (ground (arith, p, q))
    ]
  ]

  api_hash :
      (token : String) (now : ℕ) (v : Validator) (id : Identity)
      → api_identity ext config token now v ≡ some id
      → id.token_hash ≡ ext.hash_token token
  unfolding api_identity
  api_hash token now v id e = elim (Option-cases v.tokens) [
    | inl gone ↦ ground (arith, gone)
    | inr (s, has_store) ↦ ground (arith, has_store)
  ]

  session_hash :
      (token : String) (now : ℕ) (v : Validator) (id : Identity)
      → session_identity ext config token now v ≡ some id
      → id.token_hash ≡ ext.hash_token token
  unfolding session_identity
  session_hash token now v id e = elim (Option-cases v.users) [
    | inl gone ↦ ground (arith, gone)
    | inr (s, has_store) ↦ elim (session-cases (validate_session_token token now s)) [
      | inl (x, f) ↦ ground (arith, has_store, f)
      | inr (name, f) ↦ ground (arith, has_store, f)
    ]
  ]

  oauth_hash :
      (token : String) (now : ℕ) (v : Validator) (id : Identity)
      → (oauth_identity ext config token now v).1 ≡ some id
      → id.token_hash ≡ ext.hash_token token
  unfolding oauth_identity
  oauth_hash token now v id e = elim (Option-cases v.oauth_store) [
    | inl gone ↦ ground (arith, gone)
    | inr (s, has_store) ↦ elim (Option-cases (validate_access_token ext config token now s).1) [
      | inl f ↦ ground (arith, has_store, f)
      | inr ((subject, client_id), f) ↦ ground (arith, has_store, f)
    ]
  ]

  -- An identity carries the hash of the token that it was found for.
  pub validated_hash :
      (token : String) (now : ℕ) (v : Validator) (id : Identity)
      → (validate ext config token now v).1 ≡ some id
      → id.token_hash ≡ ext.hash_token token
  unfolding validate
  validated_hash token now v id e = elim (Option-cases (api_identity ext config token now v)) [
    | inr (a, p) ↦ api_hash token now v id (ground (arith, p))
    | inl p ↦ elim (Option-cases (session_identity ext config token now v)) [
      | inr (a, q) ↦ session_hash token now v id (ground (arith, p, q))
      | inl q ↦ oauth_hash token now v id (ground (arith, p, q))
    ]
  ]
