-- ===== src/Auth/Middleware/Guarded.antt =====
-- What passes the middleware.
use Prim.Native.Char.{code}
use pgedge_postgres_mcp.Prelude.{
  ℕ, String, ◌≡◌, refl, ◌∙◌, ◌≢◌, ◌⊎◌, inl, inr, Bool, true, not, ◌&&◌, some, List, [], ◌∷◌, arith,
  eq_iff, ◌==◌, Bool-cases, Option-cases, contains, contains-append, str_append,
}
use pgedge_postgres_mcp.Auth.Middleware.{
  HttpRequest, parse_bearer, cut_at_space, trim_left_spaces, auth_middleware, check_credential,
  pass_through, pass_as, is_authenticate_user_call,
}
use pgedge_postgres_mcp.Oauth.Server.Errors.{External, Config}
use pgedge_postgres_mcp.Auth.Middleware.Bearer.{BearsToken, parse_bearer_sound}
use pgedge_postgres_mcp.Auth.Validator.{Validator, Identity, public_paths, validate}
use pgedge_postgres_mcp.Auth.Validator.Identified.{validated_hash, StandsFor, validate_sound}
use pgedge_postgres_mcp.Oauth.Types.{Store}

abbrev pub has_no_space : String → Bool
has_no_space String.[] = true
has_no_space (String.◌∷◌ c s) = not (code c == b' ') && has_no_space s

cut-scheme :
    (scheme rest : String)
    → has_no_space scheme ≡ true
    → cut_at_space (str_append scheme (str_append " " rest)) ≡ some (scheme, rest)
unfolding cut_at_space
cut-scheme String.[] rest e = refl
cut-scheme (String.◌∷◌ c s) rest e = ground (arith, cut-scheme s rest)

-- A header with a scheme that is `Bearer` in whatever case, a space and a token that does not start
-- with a space gives the token, if the scheme has no space.
pub parse_bearer-header :
    (equal_fold : String → String → Bool) (scheme token : String)
    → has_no_space scheme ≡ true
    → equal_fold scheme "Bearer" ≡ true
    → trim_left_spaces token ≡ token
    → parse_bearer equal_fold (str_append scheme (str_append " " token)) ≡ some token
unfolding parse_bearer
parse_bearer-header equal_fold scheme token plain same bare =
    ground (arith, cut-scheme scheme token plain, same, bare)

-- The paths that need no credential: five of the server, and the added ones where OAuth is on.
abbrev pub built_in_paths : List String
built_in_paths =
    "/health" ∷ "/api/user/info" ∷ "/api/openapi.json" ∷ "/.well-known/oauth-authorization-server"
    ∷ "/.well-known/oauth-protected-resource" ∷ []

abbrev pub IsPublic : Validator → String → Type 0
IsPublic v path =
    (contains built_in_paths path ≡ true)
    ⊎ ((v.methods.oauth ≡ true)
        × (s : Store) × (v.oauth_store ≡ some s)
        × (contains v.extra_public_paths path ≡ true))

listed-IsPublic :
    (v : Validator) (path : String) → contains (public_paths v) path ≡ true → IsPublic v path
listed-IsPublic v path e = elim (Bool-cases (contains built_in_paths path)) [
  | inl built_in ↦ inl built_in
  | inr other ↦ elim (Option-cases v.oauth_store) [
    | inl off ↦ absurd (ground (arith, off, other, e))
    | inr (s, on_) ↦
        let split = contains-append built_in_paths v.extra_public_paths path in
        let switched : v.methods.oauth ≡ true = ground (arith, on_, other, e) in
        inr (switched, s, on_, ground (arith, on_, switched, other, split, e))
  ]
]

authenticate_user_call_lem :
    (r : HttpRequest)
    → is_authenticate_user_call r ≡ true
    → r.rpc ≡ some ("tools/call", some "authenticate_user")
unfolding is_authenticate_user_call
authenticate_user_call_lem r e = elim (Option-cases r.rpc) [
  | inl none_given ↦ absurd (ground (arith, none_given))
  | inr ((method, name), given) ↦ elim (Option-cases name) [
    | inl unnamed ↦ absurd (ground (arith, given, unnamed))
    | inr (n, named) ↦
        ground (arith, given, named, eq_iff method "tools/call", eq_iff n "authenticate_user")
  ]
]

module _ (ext : External) (config : Config) (equal_fold : String → String → Bool) where
  checked-no_pass :
      (r : HttpRequest) (now : ℕ) (v : Validator)
      → (check_credential ext config equal_fold r now v).1 ≢ pass_through
  unfolding check_credential
  checked-no_pass r now v e = elim (Option-cases (parse_bearer equal_fold r.authorization)) [
    | inl bad ↦ ground (arith, bad)
    | inr (token, parsed) ↦ elim (Option-cases (validate ext config token now v).1) [
      | inl unknown ↦ ground (arith, parsed, unknown)
      | inr (id, found) ↦ ground (arith, parsed, found)
    ]
  ]

  checked-pass_as :
      (r : HttpRequest) (now : ℕ) (v : Validator) (id : Identity)
      → (check_credential ext config equal_fold r now v).1 ≡ pass_as id
      → (token : String) × (parse_bearer equal_fold r.authorization ≡ some token)
        × ((validate ext config token now v).1 ≡ some id)
  unfolding check_credential
  checked-pass_as r now v id e = elim (Option-cases (parse_bearer equal_fold r.authorization)) [
    | inl bad ↦ ground (arith, bad)
    | inr (token, parsed) ↦ elim (Option-cases (validate ext config token now v).1) [
      | inl unknown ↦ ground (arith, parsed, unknown)
      | inr (found, is) ↦ (token, parsed, is ∙ ground (arith, parsed, is))
    ]
  ]

  -- With authentication on, a request goes on without an identity only to one of the five built-in
  -- public paths or, where OAuth is on, to one of the added ones, or, where passwords are
  -- accepted, as a call of the tool `authenticate_user`; and with an identity only for the bearer
  -- token of its header, whose hash the identity has and which a store that is switched on
  -- accepts, for a session or an OAuth token as that of the user named, where the identity of an
  -- API token names no user.
  pub auth_middleware_guards :
      (r : HttpRequest) (now : ℕ) (v : Validator)
      → let d = (auth_middleware ext config equal_fold true r now v).1 in
        (d ≡ pass_through
          → IsPublic v r.path
            ⊎ ((v.methods.password_login ≡ true)
                × (r.rpc ≡ some ("tools/call", some "authenticate_user"))))
        × ((id : Identity)
            → d ≡ pass_as id
            → (token : String) × BearsToken equal_fold r.authorization token
              × (id.token_hash ≡ ext.hash_token token)
              × StandsFor ext config token now v id.username id.kind)
  unfolding auth_middleware
  auth_middleware_guards r now v = (
    (λ e. elim (Bool-cases (contains (public_paths v) r.path)) [
      | inl public ↦ inl (listed-IsPublic v r.path public)
      | inr private ↦ elim (Bool-cases (v.methods.password_login && is_authenticate_user_call r)) [
        | inl login ↦ inr (ground arith, authenticate_user_call_lem r (ground arith))
        | inr other ↦ absurd (checked-no_pass r now v (ground (arith, private, other)))
      ]
    ]),
    (λ id e.
        let reached : (check_credential ext config equal_fold r now v).1 ≡ pass_as id =
          ground arith in
        let (token, parsed, found) = checked-pass_as r now v id reached in
        (
          token,
          parse_bearer_sound equal_fold r.authorization token parsed,
          validated_hash ext config token now v id found,
          validate_sound ext config token now v id found,
        )),
  )
