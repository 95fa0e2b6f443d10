-- ===== src/Oauth/Server/Redirect.antt =====
-- internal/oauth/redirect.go: which redirect targets are permitted. Go's URL and address parsers and
-- its comparison of texts without regard to case are parameters.
pub mod Permitted
use pgedge_postgres_mcp.Prelude.{
  String, Bool, false, not, ◌&&◌, ◌||◌, Option, none, some, List, [], ◌∷◌, str_eq, if◌then◌else◌,
}

-- The parts of a `url.URL` that are read; `has_user` is `User != nil`.
pub record Url : Type 0 where
  pub scheme : String
  pub host : String
  pub hostname : String
  pub path : String
  pub raw_query : String
  pub fragment : String
  pub has_user : Bool

-- `url.Parse`, `strings.EqualFold`, and `net.ParseIP` with `IsLoopback`
pub record UrlLibrary : Type 0 where
  pub parse : String → Option Url
  pub equal_fold : String → String → Bool
  pub is_loopback_ip : String → Bool

module _ (lib : UrlLibrary) where
  -- `isLoopbackHostname`
  unfoldable pub is_loopback_hostname : String → Bool
  is_loopback_hostname h = str_eq h "localhost" || lib.is_loopback_ip h

  -- The two ways in which an entry of the list permits a target
  unfoldable pub entry_permits : Url → Url → Bool
  unfolding is_loopback_hostname
  entry_permits u au =
      (lib.equal_fold u.scheme au.scheme
        && lib.equal_fold u.host au.host
        && str_eq u.path au.path
        && str_eq u.raw_query au.raw_query)
      || (is_loopback_hostname u.hostname
          && lib.equal_fold u.hostname au.hostname
          && lib.equal_fold u.scheme au.scheme
          && str_eq u.path au.path
          && str_eq u.raw_query ""
          && str_eq au.raw_query "")

  -- The loop over the list
  unfoldable pub any_permits : Url → List String → Bool
  any_permits u [] = false
  any_permits u (a ∷ more) =
      let rest = any_permits u more in
      elim (lib.parse a) [ none ↦ rest | some au ↦ entry_permits u au || rest ]

  -- The tests on the target itself
  abbrev pub malformed : Url → Bool
  malformed u = str_eq u.scheme "" || str_eq u.host "" || not (str_eq u.fragment "") || u.has_user

  -- `redirectURIAllowed`
  unfoldable pub redirect_uri_allowed : String → List String → Bool
  redirect_uri_allowed uri allowed = elim (lib.parse uri) [
    | none ↦ false
    | some u ↦ if malformed u then false else any_permits u allowed
  ]

  -- The loop over the targets of a registration: the first that is not permitted
  unfoldable pub first_forbidden : List String → List String → Option String
  first_forbidden [] allowed = none
  first_forbidden (uri ∷ uris) allowed =
      let rest = first_forbidden uris allowed in
      if redirect_uri_allowed uri allowed then rest else some uri
