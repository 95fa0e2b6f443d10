-- ===== src/Oauth/Server/CodeGrant/Redeem.antt =====
-- When the authorisation code grant issues tokens, and which.
use pgedge_postgres_mcp.Prelude.{
  ℕ, ◌+◌, ◌<◌, String, ◌≡◌, sym, ap, ◌∙◌, inl, inr, true, false, Option, none, some, arith, eq_iff,
  eq_refl, Bool-cases, Option-cases, subst,
}
use pgedge_postgres_mcp.Oauth.Types.{AuthCode, Store, UsedCode}
use pgedge_postgres_mcp.Oauth.Server.Errors.{
  granted, Config, External, Draws, Times, Form, TokenResponse,
}
use pgedge_postgres_mcp.Oauth.Server.Issue.{Issued, issue_tokens_with_hash}
use pgedge_postgres_mcp.Oauth.Server.Issue.Pair.{StoresPair, issue-StoresPair}
use pgedge_postgres_mcp.Oauth.Server.CodeGrant.{handle_authorization_code_grant, code_rejected}
use pgedge_postgres_mcp.GoMap.{delete, get, size}
use pgedge_postgres_mcp.Oauth.Store.Codes.{take_code, take_used_code, mark_code_used}
use pgedge_postgres_mcp.Oauth.Pkce.{valid_code_verifier, verify_pkce}
use pgedge_postgres_mcp.GoMap.Laws.{get-put, get-delete}
use pgedge_postgres_mcp.Oauth.Server.Issue.Held.{HoldsAccess, StoresPair-HoldsAccess}

module _ (ext : External) (config : Config) (f : Form) (times : Times) (draws : Draws)
    (s : Store) where
  abbrev code_hash : String
  code_hash = ext.hash_token f.code

  -- The store once the code is out of it.
  abbrev pub without_code : Store
  without_code = record s { codes = delete code_hash s.codes }

  abbrev issue_for : AuthCode → Store × Option Issued
  issue_for c =
      issue_tokens_with_hash ext config f.client_id c.subject c.scope "" draws times.issued
        without_code

  -- A successful redemption of code `c` with the pair `i`.
  pub record Redeems (c : AuthCode) (i : Issued) (s' : Store) (tr : TokenResponse) : Type 0 where
    pub on_file : get code_hash s.codes ≡ some c
    pub accepted : code_rejected ext config f times.checked c ≡ false
    pub response_is : i.response ≡ tr
    pub pair :
        StoresPair ext config f.client_id c.subject c.scope "" draws times.issued without_code
          (issue_for c).0
          i
    pub marked :
        s'
        ≡ mark_code_used code_hash i.refresh_hash i.family
            (c.expires_at + config.access_token_lifetime)
            (issue_for c).0

  pub granted-Redeems :
      (tr : TokenResponse)
      → (handle_authorization_code_grant ext config f times draws s).1 ≡ granted tr
      → (c : AuthCode) × (i : Issued) × Redeems c i
          (handle_authorization_code_grant ext config f times draws s).0
          tr
  unfolding handle_authorization_code_grant take_code take_used_code
  granted-Redeems tr ok = elim (Option-cases (get code_hash s.codes)) [
    | inl unknown ↦ absurd (ground (arith, unknown))
    | inr (c, on_file) ↦ elim (Bool-cases (code_rejected ext config f times.checked c)) [
      | inl bad ↦ absurd (ground (arith, on_file, bad))
      | inr good ↦ elim (Option-cases (issue_for c).1) [
        | inl failed ↦ absurd (ground (arith, on_file, good, failed))
        | inr (i, issued) ↦ (
          c,
          i,
          record {
            on_file = on_file;
            accepted = good;
            response_is = ground (arith, on_file, good, issued);
            pair =
                issue-StoresPair ext config f.client_id c.subject c.scope "" draws times.issued
                  without_code i issued;
            marked = ground (arith, on_file, good, issued);
          },
        )
      ]
    ]
  ]

-- What the code `c` and the request have to agree on for tokens to be issued.
pub record MayRedeem (ext : External) (f : Form) (now : ℕ) (c : AuthCode) : Type 0 where
  pub unexpired : now < c.expires_at
  pub same_client : c.client_id ≡ f.client_id
  pub same_redirect : c.redirect_uri ≡ f.redirect_uri
  pub valid_verifier : valid_code_verifier f.code_verifier ≡ true
  pub challenge_met : ext.s256 f.code_verifier ≡ c.code_challenge

code_accepted :
    (ext : External) (config : Config) (f : Form) (now : ℕ) (c : AuthCode)
    → code_rejected ext config f now c ≡ false
    → MayRedeem ext f now c
unfolding code_rejected verify_pkce
code_accepted ext config f now c e = record {
  unexpired = ground arith;
  same_client = ground (arith, eq_iff c.client_id f.client_id);
  same_redirect = ground (arith, eq_iff c.redirect_uri f.redirect_uri);
  valid_verifier = ground arith;
  challenge_met = ground (arith, eq_iff (ext.s256 f.code_verifier) c.code_challenge);
}

held-marked :
    (code refresh family : String) (until : ℕ) (s : Store) (h client_id subject scope : String)
    (expires : ℕ)
    → HoldsAccess s h client_id subject scope expires
    → HoldsAccess (mark_code_used code refresh family until s) h client_id subject scope expires
held-marked code refresh family until s h client_id subject scope expires held =
    let same : (mark_code_used code refresh family until s).tokens ≡ s.tokens =
      unfold mark_code_used in ground arith in
    record {
      token = held.token;
      present = ap (get h) same ∙ held.present;
      access = held.access;
      client_is = held.client_is;
      subject_is = held.subject_is;
      scope_is = held.scope_is;
      until_is = held.until_is;
    }

-- The authorisation code grant issues tokens only for a code on file that has not expired, to the
-- client and for the redirect URI that it was issued for, against a valid verifier of its
-- challenge; the access token is on file for the subject of the code, and the code is off the
-- file.
pub code_grant_sound :
    (ext : External) (config : Config) (f : Form) (times : Times) (draws : Draws) (s : Store)
    (tr : TokenResponse)
    → (handle_authorization_code_grant ext config f times draws s).1 ≡ granted tr
    → (c : AuthCode) × (get (ext.hash_token f.code) s.codes ≡ some c)
      × MayRedeem ext f times.checked c
      × HoldsAccess
          (handle_authorization_code_grant ext config f times draws s).0
          (ext.hash_token tr.access_token)
          f.client_id
          c.subject
          c.scope
          (times.issued + config.access_token_lifetime)
      × (get
            (ext.hash_token f.code)
            (handle_authorization_code_grant ext config f times draws s).0.codes
          ≡ none)
code_grant_sound ext config f times draws s tr ok =
    let (c, i, r) = granted-Redeems ext config f times draws s tr ok in
    let s₂ = (issue_for ext config f times draws s c).0 in
    let s' = (handle_authorization_code_grant ext config f times draws s).0 in
    let codes_same : s'.codes ≡ s₂.codes =
      ap (λ x. Store.codes x) r.marked ∙ (unfold mark_code_used in ground arith) in
    let after = StoresPair.after r.pair in
    (
      c,
      r.on_file,
      code_accepted ext config f times.checked c r.accepted,
      subst
          (λ x.
            HoldsAccess x (ext.hash_token tr.access_token) f.client_id c.subject c.scope
              (times.issued + config.access_token_lifetime))
          (sym r.marked)
          (held-marked (ext.hash_token f.code) i.refresh_hash i.family
            (c.expires_at + config.access_token_lifetime) s₂ _ _ _ _ _
            (StoresPair-HoldsAccess ext config f.client_id c.subject c.scope "" draws times.issued
              (without_code ext config f times draws s) s₂ i tr r.response_is r.pair)),
      rw codes_same (rw after (rw get-delete (rw (eq_refl (ext.hash_token f.code))))),
    )

-- A code that was redeemed is on record with the family and the refresh token that it gave rise
-- to, if there is room for the record.
pub redeemed_code_is_marked :
    (ext : External) (config : Config) (f : Form) (times : Times) (draws : Draws) (s : Store)
    (tr : TokenResponse)
    → (handle_authorization_code_grant ext config f times draws s).1 ≡ granted tr
    → size s.used_codes < s.limits.codes
    → (u : UsedCode) × (get
          (ext.hash_token f.code)
          (handle_authorization_code_grant ext config f times draws s).0.used_codes
        ≡ some u)
      × (draws.family ≡ some u.family)
      × (u.refresh_hash ≡ ext.hash_token tr.refresh_token)
redeemed_code_is_marked ext config f times draws s tr ok room =
    let (c, i, r) = granted-Redeems ext config f times draws s tr ok in
    let s₂ = (issue_for ext config f times draws s c).0 in
    let after = StoresPair.after r.pair in
    let until = c.expires_at + config.access_token_lifetime in
    let u : UsedCode = record { refresh_hash = i.refresh_hash; family = i.family; until = until } in
    let used_same : s₂.used_codes ≡ s.used_codes = ap (λ x. Store.used_codes x) after in
    let limits_same : s₂.limits ≡ s.limits = ap (λ x. Store.limits x) after in
    let h = ext.hash_token f.code in
    (
      u,
      ap (λ x. get h (Store.used_codes x)) r.marked
          ∙ (unfold mark_code_used in
              ground (arith, used_same, limits_same, get-put h h u s₂.used_codes, eq_refl h)),
      StoresPair.family_is r.pair,
      StoresPair.hash_is r.pair
          ∙ ap (λ x. ext.hash_token (TokenResponse.refresh_token x)) r.response_is,
    )
