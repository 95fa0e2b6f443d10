-- ===== src/Oauth/Server/RefreshGrant/Rotation.antt =====
-- A request of the refresh token grant that is answered with tokens, step by step.
use pgedge_postgres_mcp.Prelude.{
  ℕ, ◌+◌, String, ◌≡◌, refl, sym, inl, inr, true, false, Option, none, some, arith, Bool-cases,
  Option-cases, subst,
}
use pgedge_postgres_mcp.Oauth.Types.{Store, Token}
use pgedge_postgres_mcp.Oauth.Server.Errors.{
  granted, Config, External, Draws, Times, Form, TokenResponse,
}
use pgedge_postgres_mcp.Oauth.Server.Issue.{
  Issued, issue_tokens_with_hash, issue_tokens, response_only,
}
use pgedge_postgres_mcp.Oauth.Server.Issue.Pair.{StoresPair, issue-StoresPair}
use pgedge_postgres_mcp.Oauth.Server.RefreshGrant.{handle_refresh_token_grant, refresh_rejected}
use pgedge_postgres_mcp.Oauth.Store.Tokens.{take_token}
use pgedge_postgres_mcp.GoMap.{get}
use pgedge_postgres_mcp.Oauth.Store.Clients.{mark_refresh_rotated}

response_only-some :
    (ext : External) (config : Config) (r : Store × Option Issued) (tr : TokenResponse)
    → (response_only ext config r).1 ≡ some tr
    → (i : Issued) × (r.1 ≡ some i) × (i.response ≡ tr)
response_only-some ext config (s, none) tr e = cc
response_only-some ext config (s, some i) tr e = (i, refl, ground arith)

response_only-store :
    (ext : External) (config : Config) (r : Store × Option Issued)
    → (response_only ext config r).0 ≡ r.0
response_only-store ext config (s, none) = refl
response_only-store ext config (s, some i) = refl

-- The pair of tokens behind a response of `issueTokens`.
pub issue_tokens-StoresPair :
    (ext : External) (config : Config) (client_id subject scope family : String) (draws : Draws)
    (now : ℕ) (s : Store) (tr : TokenResponse)
    → (issue_tokens ext config client_id subject scope family draws now s).1 ≡ some tr
    → (i : Issued) × (i.response ≡ tr)
      × StoresPair ext config client_id subject scope family draws now s
          (issue_tokens ext config client_id subject scope family draws now s).0
          i
unfolding issue_tokens
issue_tokens-StoresPair ext config client_id subject scope family draws now s tr e =
    let r = issue_tokens_with_hash ext config client_id subject scope family draws now s in
    let (i, issued, same) = response_only-some ext config r tr e in
    (
      i,
      same,
      subst (λ x. StoresPair ext config client_id subject scope family draws now s x i)
          (sym (response_only-store ext config r))
          (issue-StoresPair ext config client_id subject scope family draws now s i issued),
    )

module _ (ext : External) (config : Config) (f : Form) (times : Times) (draws : Draws)
    (s : Store) where
  abbrev pub refresh_hash_of : String
  refresh_hash_of = ext.hash_token f.refresh_token

  abbrev pub without_refresh : Store
  without_refresh = (take_token refresh_hash_of s).0

  abbrev pub issue_after : Token → Store × Option TokenResponse
  issue_after t =
      issue_tokens ext config f.client_id t.subject t.scope t.family draws times.issued
        without_refresh

  -- A successful rotation of refresh token `t`.
  pub record Rotates (t : Token) (s' : Store) (tr : TokenResponse) : Type 0 where
    pub on_file : get refresh_hash_of s.tokens ≡ some t
    pub accepted : refresh_rejected ext config f times.checked t ≡ false
    pub active : ext.subject_active t.subject ≡ true
    pub issued : (issue_after t).1 ≡ some tr
    pub marked :
        s'
        ≡ mark_refresh_rotated refresh_hash_of t.family
            (times.marked + config.refresh_token_lifetime)
            (issue_after t).0

  taken_is :
      (t : Token)
      → get refresh_hash_of s.tokens ≡ some t
      → (take_token refresh_hash_of s).1 ≡ some t
  unfolding take_token
  taken_is t e = rw e

  taken_none : get refresh_hash_of s.tokens ≡ none → (take_token refresh_hash_of s).1 ≡ none
  unfolding take_token
  taken_none e = rw e

  pub granted-Rotates :
      (tr : TokenResponse)
      → (handle_refresh_token_grant ext config f times draws s).1 ≡ granted tr
      → (t : Token) × Rotates t (handle_refresh_token_grant ext config f times draws s).0 tr
  unfolding handle_refresh_token_grant
  granted-Rotates tr ok = elim (Option-cases (get refresh_hash_of s.tokens)) [
    | inl unknown ↦ absurd (ground (arith, taken_none unknown))
    | inr (t, on_file) ↦
        let taken = taken_is t on_file in
        elim (Bool-cases (refresh_rejected ext config f times.checked t)) [
          | inl bad ↦ absurd (ground (arith, taken, bad))
          | inr good ↦ elim (Bool-cases (ext.subject_active t.subject)) [
            | inr inactive ↦ absurd (ground (arith, taken, good, inactive))
            | inl active ↦ elim (Option-cases (issue_after t).1) [
              | inl failed ↦ absurd (ground (arith, taken, good, active, failed))
              | inr (tr', issued) ↦ (
                t,
                record {
                  on_file = on_file;
                  accepted = good;
                  active = active;
                  issued = ground (arith, taken, good, active, issued);
                  marked = ground (arith, taken, good, active, issued);
                },
              )
            ]
          ]
        ]
  ]
