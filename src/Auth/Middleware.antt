-- ===== src/Auth/Middleware.antt =====
-- internal/auth/middleware.go: the decision on a request. Of the body, which the code reads and
-- restores, a request has what the JSON decoder gives: the method, and the name among the
-- parameters where it is a text.
pub mod Bearer
pub mod Guarded
use Prim.Native.Char.{code}
use pgedge_postgres_mcp.Prelude.{
  ℕ, String, Bool, false, not, ◌&&◌, Option, none, some, [], ◌∷◌, str_eq, ◌==◌, if◌then◌else◌,
  contains,
}
use pgedge_postgres_mcp.Auth.Validator.{
  Validator, Identity, oauth_enabled, public_paths, validate, Methods,
}
use pgedge_postgres_mcp.Oauth.Server.Errors.{External, Config}

-- `ParseBearer` in validator.go: `strings.Cut` at a space, the comparison without regard to case,
-- which is a parameter, and the removal of the spaces in front of the token
unfoldable pub cut_at_space : String → Option (String × String)
cut_at_space String.[] = none
cut_at_space (String.◌∷◌ c s) =
    let rest = cut_at_space s in
    if code c == b' '
    then some ("", s)
    else elim rest [ none ↦ none | some (a, b) ↦ some (String.◌∷◌ c a, b) ]

abbrev pub trim_left_spaces : String → String
trim_left_spaces String.[] = ""
trim_left_spaces (String.◌∷◌ c s) = if code c == b' ' then trim_left_spaces s else String.◌∷◌ c s

unfoldable pub parse_bearer : (String → String → Bool) → String → Option String
unfolding cut_at_space
parse_bearer equal_fold header = elim (cut_at_space header) [
  | none ↦ none
  | some (scheme, token) ↦
      if equal_fold scheme "Bearer" then some (trim_left_spaces token) else none
]

pub record HttpRequest : Type 0 where
  pub path : String
  pub authorization : String
  pub rpc : Option (String × Option String)

-- What becomes of a request: it goes on, with the identity that was found if one was looked for, or
-- it is refused with a message, and with a challenge or without.
pub data Decision : Type 0 where
  pass_through : Decision
  pass_as : Identity → Decision
  unauthorized : String → Bool → Decision

-- `isAuthenticateUserCall`
unfoldable pub is_authenticate_user_call : HttpRequest → Bool
is_authenticate_user_call r = elim r.rpc [
  | none ↦ false
  | some (method, name) ↦
      if str_eq method "tools/call"
      then elim name [ none ↦ false | some n ↦ str_eq n "authenticate_user" ]
      else false
]

module _ (ext : External) (config : Config) (equal_fold : String → String → Bool) where
  abbrev pub validated_token : Validator × Option Identity → Validator × Decision
  validated_token (v, none) = (v, unauthorized "Invalid or unknown token" (oauth_enabled v))
  validated_token (v, some id) = (v, pass_as id)

  -- What follows the exemptions
  unfoldable pub check_credential : HttpRequest → ℕ → Validator → Validator × Decision
  check_credential r now v =
      if str_eq r.authorization ""
      then (v, unauthorized "Missing Authorization header" (oauth_enabled v))
      else elim (parse_bearer equal_fold r.authorization) [
        | none ↦ (
          v,
          unauthorized "Invalid Authorization header format. Expected: Bearer <token>"
              (oauth_enabled v),
        )
        | some token ↦ validated_token (validate ext config token now v)
      ]

  -- `AuthMiddleware`
  unfoldable pub auth_middleware : Bool → HttpRequest → ℕ → Validator → Validator × Decision
  auth_middleware enabled r now v =
      if not enabled
      then (v, pass_through)
      else if contains (public_paths v) r.path
      then (v, pass_through)
      else if Methods.password_login v.methods && is_authenticate_user_call r
      then (v, pass_through)
      else check_credential r now v
