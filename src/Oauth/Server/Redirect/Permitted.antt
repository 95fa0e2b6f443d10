-- ===== src/Oauth/Server/Redirect/Permitted.antt =====
-- What a permitted redirect target has in common with the entry that permits it.
use pgedge_postgres_mcp.Prelude.{
  String, ◌≡◌, ◌⊎◌, inl, inr, true, false, false≢true, some, List, [], ◌∷◌, arith, eq_iff, eq_refl,
  Bool-cases, Option-cases, contains,
}
use pgedge_postgres_mcp.Oauth.Server.Redirect.{
  Url, UrlLibrary, is_loopback_hostname, redirect_uri_allowed, any_permits, entry_permits,
}

-- The entry `entry` of a list permits the target `uri`.
pub record Permits (lib : UrlLibrary) (allowed : List String) (uri : String) : Type 0 where
  pub target : Url
  pub entry : String
  pub pattern : Url
  pub target_is : lib.parse uri ≡ some target
  pub on_list : contains allowed entry ≡ true
  pub pattern_is : lib.parse entry ≡ some pattern
  pub no_user : target.has_user ≡ false
  pub no_fragment : target.fragment ≡ ""
  pub same_scheme : lib.equal_fold target.scheme pattern.scheme ≡ true
  pub same_path : target.path ≡ pattern.path
  pub same_query : target.raw_query ≡ pattern.raw_query
  pub same_host :
      (lib.equal_fold target.host pattern.host ≡ true)
      ⊎ ((is_loopback_hostname lib target.hostname ≡ true)
          × (lib.equal_fold target.hostname pattern.hostname ≡ true))

module _ (lib : UrlLibrary) where
  -- An entry of the list that permits the target.
  abbrev HasEntry : Url → List String → Type 0
  HasEntry u allowed =
      (a : String) × (au : Url) × (contains allowed a ≡ true)
      × (lib.parse a ≡ some au)
      × (entry_permits lib u au ≡ true)

  later-HasEntry :
      (u : Url) (a : String) (more : List String) → HasEntry u more → HasEntry u (a ∷ more)
  later-HasEntry u a more (b, bu, inside, parsed, ok) = (b, bu, ground (arith, inside), parsed, ok)

  any_permits-HasEntry :
      (u : Url) (allowed : List String) → any_permits lib u allowed ≡ true → HasEntry u allowed
  unfolding any_permits
  any_permits-HasEntry u [] e = absurd (false≢true e)
  any_permits-HasEntry u (a ∷ more) e = elim (Option-cases (lib.parse a)) [
    | inl p ↦ later-HasEntry u a more (any_permits-HasEntry u more (ground (arith, p)))
    | inr (au, p) ↦ elim (Bool-cases (entry_permits lib u au)) [
      | inl ok ↦ (a, au, ground (arith, eq_refl a), p, ok)
      | inr not_it ↦ later-HasEntry u a more (any_permits-HasEntry u more (ground (arith, p)))
    ]
  ]

  -- A target is permitted only if it carries neither a user nor a fragment, and an entry of the
  -- list has its scheme, its path and its query, and its host with the port, or else its host
  -- without the port, which must then be a loopback one.
  pub redirect_uri_allowed_sound :
      (uri : String) (allowed : List String)
      → redirect_uri_allowed lib uri allowed ≡ true
      → Permits lib allowed uri
  unfolding redirect_uri_allowed
  redirect_uri_allowed_sound uri allowed e = elim (Option-cases (lib.parse uri)) [
    | inl p ↦ ground (arith, p)
    | inr (u, p) ↦
        let (a, au, inside, parsed, ok) = any_permits-HasEntry u allowed (ground (arith, p)) in
        unfold entry_permits in
        record {
          target = u;
          entry = a;
          pattern = au;
          target_is = p;
          on_list = inside;
          pattern_is = parsed;
          no_user = ground (arith, p);
          no_fragment = ground (arith, p, eq_iff u.fragment "");
          same_scheme = ground arith;
          same_path = ground (arith, eq_iff u.path au.path);
          same_query = ground (
            arith,
            eq_iff u.raw_query au.raw_query,
            eq_iff u.raw_query "",
            eq_iff au.raw_query "",
          );
          same_host = elim (Bool-cases (lib.equal_fold u.host au.host)) [
            | inl h ↦ inl h
            | inr h ↦ inr (ground arith, ground arith)
          ];
        }
  ]
