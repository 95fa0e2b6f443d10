-- ===== src/Oauth/Server/Issue/Pair.antt =====
-- What an issue of tokens stores.
use pgedge_postgres_mcp.Prelude.{
  ℕ, String, ◌≡◌, sym, ap, ◌∙◌, inl, inr, some, arith, str_eq, if◌then◌else◌, Option-cases,
}
use pgedge_postgres_mcp.Oauth.Types.{Store}
use pgedge_postgres_mcp.Oauth.Server.Errors.{TokenResponse, Config, External, Draws}
use pgedge_postgres_mcp.Oauth.Server.Issue.{
  Issued, issue_tokens_with_hash, store_pair, access_token_of, refresh_token_of, response_of,
}
use pgedge_postgres_mcp.GoMap.{put}
use pgedge_postgres_mcp.Oauth.Store.Tokens.{put_token}

module _ (ext : External) (config : Config) where
  -- The pair `i`, for this client, subject, scope and family, is in `s'`, where `s` was before, and
  -- nothing else has changed. An empty family stands for a fresh one.
  pub record StoresPair (client_id subject scope family : String) (draws : Draws) (now : ℕ)
      (s s' : Store) (i : Issued) : Type 0 where
    pub access_drawn : draws.access ≡ some (TokenResponse.access_token i.response)
    pub refresh_drawn : draws.refresh ≡ some (TokenResponse.refresh_token i.response)
    pub family_is : (if str_eq family "" then draws.family else some family) ≡ some i.family
    pub hash_is : i.refresh_hash ≡ ext.hash_token (TokenResponse.refresh_token i.response)
    pub scope_is : TokenResponse.scope i.response ≡ scope
    pub after : s' ≡ record s {
      tokens =
          put
            (ext.hash_token (TokenResponse.access_token i.response))
            (access_token_of ext config client_id subject scope i.family
              (TokenResponse.access_token i.response)
              (TokenResponse.refresh_token i.response)
              now)
            (put
              (ext.hash_token (TokenResponse.refresh_token i.response))
              (refresh_token_of ext config client_id subject scope i.family
                (TokenResponse.access_token i.response)
                (TokenResponse.refresh_token i.response)
                now)
              s.tokens);
    }

  store_pair-stores :
      (client_id subject scope family a r : String) (now : ℕ) (s : Store) (i : Issued)
      → (store_pair ext config client_id subject scope family a r now s).1 ≡ some i
      → (i ≡ record {
        response = response_of ext config a r scope;
        refresh_hash = ext.hash_token r;
        family = family;
      })
        × ((store_pair ext config client_id subject scope family a r now s).0 ≡ record s {
          tokens =
              put
                (ext.hash_token a)
                (access_token_of ext config client_id subject scope family a r now)
                (put
                  (ext.hash_token r)
                  (refresh_token_of ext config client_id subject scope family a r now)
                  s.tokens);
        })
  unfolding store_pair put_token
  store_pair-stores client_id subject scope family a r now s i e = (ground arith, ground arith)

  -- The draws of an issue that succeeded
  issue-drawn :
      (client_id subject scope family : String) (draws : Draws) (now : ℕ) (s : Store) (i : Issued)
      → (issue_tokens_with_hash ext config client_id subject scope family draws now s).1 ≡ some i
      → (a : String) × (r : String) × (f : String) × (draws.access ≡ some a)
        × (draws.refresh ≡ some r)
        × ((if str_eq family "" then draws.family else some family) ≡ some f)
        × (issue_tokens_with_hash ext config client_id subject scope family draws now s
            ≡ store_pair ext config client_id subject scope f a r now s)
  unfolding issue_tokens_with_hash
  issue-drawn client_id subject scope family draws now s i e = elim (Option-cases draws.access) [
    | inl no_access ↦ absurd (ground (arith, no_access))
    | inr (a, access) ↦ elim (Option-cases draws.refresh) [
      | inl no_refresh ↦ absurd (ground (arith, access, no_refresh))
      | inr (r, refresh) ↦
          elim (Option-cases (if str_eq family "" then draws.family else some family)) [
            | inl no_family ↦ absurd (ground (arith, access, refresh, no_family))
            | inr (f, fam) ↦ (a, r, f, access, refresh, fam, ground (arith, access, refresh, fam))
          ]
    ]
  ]

  pub issue-StoresPair :
      (client_id subject scope family : String) (draws : Draws) (now : ℕ) (s : Store) (i : Issued)
      → (issue_tokens_with_hash ext config client_id subject scope family draws now s).1 ≡ some i
      → StoresPair client_id subject scope family draws now s
          (issue_tokens_with_hash ext config client_id subject scope family draws now s).0
          i
  issue-StoresPair client_id subject scope family draws now s i e =
      let (a, r, f, access, refresh, fam, is) =
        issue-drawn client_id subject scope family draws now s i e in
      let (i_is, s_is) =
        store_pair-stores client_id subject scope f a r now s i (ap (λ x. x.1) (sym is) ∙ e) in
      let was = ap (λ x. x.0) is ∙ s_is in
      record {
        access_drawn = ground (arith, access, i_is);
        refresh_drawn = ground (arith, refresh, i_is);
        family_is = ground (arith, fam, i_is);
        hash_is = ground (arith, i_is);
        scope_is = ground (arith, i_is);
        after = rw i_is was;
      }
