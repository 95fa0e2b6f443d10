-- ===== src/Oauth/Store/Revocation.antt =====
-- What a revocation removes, what it spares, and what it returns.
use pgedge_postgres_mcp.Prelude.{
  String, ◌≡◌, refl, ◌≢◌, Bool, true, false, not, ◌&&◌, ◌||◌, Option, none, some, List, [], ◌∷◌,
  arith, eq_iff, str_eq, if◌then◌else◌, contains,
}
use pgedge_postgres_mcp.Oauth.Types.{Token, Store}
use pgedge_postgres_mcp.Oauth.Store.Keys.{IsKeyed, token_key, code_key, device_key}
use pgedge_postgres_mcp.Oauth.Store.Tokens.{
  delete_token, delete_devices, delete_by_subject, delete_family, in_family, delete_token_locked,
  of_subject, device_of_subject, code_of_subject,
}
use pgedge_postgres_mcp.GoMap.{get, has, keys_where, delete_where}
use pgedge_postgres_mcp.GoMap.Keyed.{Keyed-Distinct}
use pgedge_postgres_mcp.GoMap.Distinct.{keep, get-delete_where, contains-keys_where}
use pgedge_postgres_mcp.Oauth.Store.Devices.{delete_device_locked}
use pgedge_postgres_mcp.GoMap.Laws.{get-delete}
use pgedge_postgres_mcp.Oauth.Store.Tokens.Cascade.{delete_token_locked_refresh}
use pgedge_postgres_mcp.Oauth.Store.Tokens.After.{
  tokens-notify, tokens-delete_family, tokens-delete_by_subject, codes-delete_by_subject,
}

-- Whether a revocation of every token that meets a test returns an entry's hash: it returns those
-- of the access tokens.
abbrev pub returned : (Token → Bool) → Option Token → Bool
returned p none = false
returned p (some t) = p t && not t.is_refresh

module _ (s : Store) (v : IsKeyed s) where
  -- On a well-formed store the revocation of a named family removes exactly its tokens, and
  -- returns exactly the hashes of the access tokens among them.
  pub delete_family_lem :
      (family : String)
      → family ≢ ""
      → (h : String)
      → (get h (delete_family family s).0.tokens
          ≡ keep (λ t. str_eq t.family family) (get h s.tokens))
        × (contains (delete_family family s).1 h
            ≡ returned (λ t. str_eq t.family family) (get h s.tokens))
  unfolding delete_family
  delete_family_lem family named h =
      let d = Keyed-Distinct token_key s.tokens v.tokens in
      let q = λ (k : String) (t : Token). in_family family k t && not t.is_refresh in
      (
        ground (
          arith,
          eq_iff family "",
          tokens-delete_family family s,
          get-delete_where (in_family family) h s.tokens d,
        ),
        ground (arith, eq_iff family "", contains-keys_where q h s.tokens d),
      )

  get-delete_devices :
      (hs : List String) (r : Store) (h : String)
      → get h (delete_devices hs r).devices ≡ (if contains hs h then none else get h r.devices)
  unfolding delete_devices
  get-delete_devices [] r h = refl
  get-delete_devices (k ∷ hs) r h =
      ground (arith, get-delete_devices hs (delete_device_locked k r) h, get-delete k h r.devices)

  -- On a well-formed store the revocation of a named subject removes exactly its tokens,
  -- authorisation codes and device codes, and returns exactly the hashes of the access tokens
  -- among them.
  pub delete_by_subject_lem :
      (subject : String)
      → subject ≢ ""
      → (h : String)
      → (get h (delete_by_subject subject s).0.tokens
          ≡ keep (λ t. str_eq t.subject subject) (get h s.tokens))
        × (contains (delete_by_subject subject s).1 h
            ≡ returned (λ t. str_eq t.subject subject) (get h s.tokens))
        × (get h (delete_by_subject subject s).0.codes
            ≡ keep (λ c. str_eq c.subject subject) (get h s.codes))
        × (get h (delete_by_subject subject s).0.devices
            ≡ keep (λ d. str_eq d.subject subject) (get h s.devices))
  unfolding delete_by_subject
  delete_by_subject_lem subject named h =
      let d = Keyed-Distinct token_key s.tokens v.tokens in
      let dc = Keyed-Distinct code_key s.codes v.codes in
      let dd = Keyed-Distinct device_key s.devices v.devices in
      let q = λ (k : String) (t : Token). of_subject subject k t && not t.is_refresh in
      let hs = keys_where (device_of_subject subject) s.devices in
      let s₁ = record s {
        tokens = delete_where (of_subject subject) s.tokens;
        codes = delete_where (code_of_subject subject) s.codes;
      } in
      (
        ground (
          arith,
          eq_iff subject "",
          tokens-delete_by_subject subject s,
          get-delete_where (of_subject subject) h s.tokens d,
        ),
        ground (arith, eq_iff subject "", contains-keys_where q h s.tokens d),
        ground (
          arith,
          eq_iff subject "",
          codes-delete_by_subject subject s,
          get-delete_where (code_of_subject subject) h s.codes dc,
        ),
        ground (
          arith,
          eq_iff subject "",
          get-delete_devices hs s₁ h,
          contains-keys_where (device_of_subject subject) h s.devices dd,
        ),
      )

-- The deletion of a refresh token removes it and the tokens issued from it, and no other, and
-- returns those of them that were on file.
pub delete_token_cascade :
    (h : String) (t : Token) (s : Store)
    → get h s.tokens ≡ some t
    → t.is_refresh ≡ true
    → (j : String)
    → (get j (delete_token h s).0.tokens
        ≡ (if str_eq h j || contains t.issued j then none else get j s.tokens))
      × (contains (delete_token h s).1 j
          ≡ (contains t.issued j && (not (str_eq h j) && has j s.tokens)))
unfolding delete_token
delete_token_cascade h t s found refresh j =
    let (after, reported) = delete_token_locked_refresh h t s found refresh j in
    (rw (tokens-notify (delete_token_locked h s).1 (delete_token_locked h s).0) after, reported)
