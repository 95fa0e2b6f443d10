-- ===== src/Oauth/Server/Issue/Succeeds.antt =====
-- When an issue of tokens succeeds.
use pgedge_postgres_mcp.Prelude.{ℕ, ◌+◌, ◌≤◌, String, ◌≡◌, some, arith}
use pgedge_postgres_mcp.Oauth.Types.{Store}
use pgedge_postgres_mcp.Oauth.Server.Errors.{Draws, External, Config}
use pgedge_postgres_mcp.GoMap.{size}
use pgedge_postgres_mcp.Oauth.Server.Issue.{
  store_pair, issue_tokens_with_hash, Issued, refresh_token_of, response_of,
}
use pgedge_postgres_mcp.Oauth.Store.Tokens.{put_token}
use pgedge_postgres_mcp.GoMap.Laws.{size-put}

-- The random draws succeed, and the store has room for two tokens.
pub record CanIssue (draws : Draws) (s : Store) : Type 0 where
  pub access : String
  pub refresh : String
  pub family : String
  pub access_drawn : draws.access ≡ some access
  pub refresh_drawn : draws.refresh ≡ some refresh
  pub family_drawn : draws.family ≡ some family
  pub room : size s.tokens + 2 ≤ s.limits.tokens

module _ (ext : External) (config : Config) where
  store_pair-succeeds :
      (client_id subject scope family a r : String) (now : ℕ) (s : Store)
      → size s.tokens + 2 ≤ s.limits.tokens
      → (i : Issued) × ((store_pair ext config client_id subject scope family a r now s).1 ≡ some i)
  unfolding store_pair put_token
  store_pair-succeeds client_id subject scope family a r now s room =
      let t = refresh_token_of ext config client_id subject scope family a r now in
      (
        record {
          response = response_of ext config a r scope;
          refresh_hash = ext.hash_token r;
          family = family;
        },
        ground (arith, size-put t.hash t s.tokens),
      )

  pub issue-succeeds :
      (client_id subject scope : String) (draws : Draws) (now : ℕ) (s : Store)
      → CanIssue draws s
      → (i : Issued) × ((issue_tokens_with_hash ext config client_id subject scope "" draws now s).1
          ≡ some i)
  unfolding issue_tokens_with_hash
  issue-succeeds client_id subject scope draws now s can =
      let (i, ok) =
        store_pair-succeeds client_id subject scope can.family can.access can.refresh now s
          can.room in
      (i, ground (arith, ok, can.access_drawn, can.refresh_drawn, can.family_drawn))
