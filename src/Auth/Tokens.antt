-- ===== src/Auth/Tokens.antt =====
-- internal/auth/auth.go: the API tokens. A nil map is the empty one. SHA-256 is a parameter, and the
-- reading of the clock an argument of the call.
pub mod Valid
pub mod Remove
use pgedge_postgres_mcp.Prelude.{
  ℕ, String, Bool, true, false, not, ◌&&◌, Option, none, some, List, [], ◌∷◌, str_eq, ltb, leb,
  ◌==◌, if◌then◌else◌, length, codes,
}
use pgedge_postgres_mcp.GoMap.{GoMap, has, delete, delete_where, put}

-- `Token`
pub record ApiToken : Type 0 where
  pub hash : String
  pub expires_at : Option ℕ
  pub annotation : String
  pub created_at : ℕ
  pub database : String

pub record TokenStore : Type 0 where
  pub tokens : GoMap ApiToken

-- `InitializeTokenStore`
abbrev pub initialize_token_store : TokenStore
initialize_token_store = record { tokens = [] }

-- `AddToken`; the result says whether there is no error
unfoldable pub add_token :
    String → String → String → Option ℕ → String → ℕ → TokenStore → TokenStore × Bool
add_token token_id hash annotation expires_at database now s =
    if has token_id s.tokens then (s, false) else (
      record s {
        tokens =
            put token_id
              (record {
                hash = hash;
                expires_at = expires_at;
                annotation = annotation;
                created_at = now;
                database = database;
              })
              s.tokens;
      },
      true,
    )

-- The loop of `GetTokenByHash`
unfoldable pub find_by_hash : String → GoMap ApiToken → Option ApiToken
find_by_hash hash [] = none
find_by_hash hash ((id, t) ∷ m) = if str_eq t.hash hash then some t else find_by_hash hash m

-- `GetTokenByHash`
unfoldable pub get_token_by_hash : String → TokenStore → Option ApiToken
unfolding find_by_hash
get_token_by_hash hash s = find_by_hash hash s.tokens

-- `token.Hash[:n] == identifier` for the length n of `identifier`; `none` where the slice panics
abbrev pub has_prefix : List ℕ → List ℕ → Option Bool
has_prefix hash [] = some true
has_prefix [] (c ∷ cs) = none
has_prefix (h ∷ hs) (c ∷ cs) = elim (has_prefix hs cs) [ none ↦ none | some b ↦ some (h == c && b) ]

-- The loop of `RemoveToken`: the map without the first token that the prefix names, `none` inside if
-- there is none, and `none` if the loop panics
unfoldable pub remove_by_prefix :
    String → GoMap ApiToken → GoMap ApiToken → Option (Option (GoMap ApiToken))
remove_by_prefix identifier all_tokens [] = some none
remove_by_prefix identifier all_tokens ((id, t) ∷ m) =
    let rest = remove_by_prefix identifier all_tokens m in
    if leb 8 (length (codes identifier))
    then elim (has_prefix (codes t.hash) (codes identifier)) [
      | none ↦ none
      | some found ↦ if found then some (some (delete id all_tokens)) else rest
    ]
    else rest

-- `RemoveToken`; `none` if it panics
unfoldable pub remove_token : String → TokenStore → Option (TokenStore × Bool)
unfolding remove_by_prefix
remove_token identifier s =
    if has identifier s.tokens
    then some (record s { tokens = delete identifier s.tokens }, true)
    else elim (remove_by_prefix identifier s.tokens s.tokens) [
      | none ↦ none
      | some none ↦ some (s, false)
      | some (some m) ↦ some (record s { tokens = m }, true)
    ]

-- `token.ExpiresAt != nil && token.ExpiresAt.Before(now)`
abbrev pub has_expired : ℕ → Option ℕ → Bool
has_expired now none = false
has_expired now (some t) = ltb t now

-- The loop of `ValidateToken`
unfoldable pub valid_in : String → ℕ → GoMap ApiToken → Bool
valid_in hash now [] = false
valid_in hash now ((id, t) ∷ m) =
    let rest = valid_in hash now m in
    if str_eq t.hash hash then not (has_expired now t.expires_at) else rest

-- `ValidateToken`: whether it answers true and no error
unfoldable pub validate_token : (String → String) → String → ℕ → TokenStore → Bool
unfolding valid_in
validate_token hash_token token now s = valid_in (hash_token token) now s.tokens

-- The hashes that the loop of `CleanupExpiredTokens` collects
unfoldable pub expired_hashes : ℕ → GoMap ApiToken → List String
expired_hashes now [] = []
expired_hashes now ((id, t) ∷ m) =
    let rest = expired_hashes now m in if has_expired now t.expires_at then t.hash ∷ rest else rest

-- `CleanupExpiredTokens`
unfoldable pub cleanup_expired_tokens : ℕ → TokenStore → TokenStore × (ℕ × List String)
unfolding expired_hashes
cleanup_expired_tokens now s =
    let hashes = expired_hashes now s.tokens in
    (
      record s { tokens = delete_where (λ id t. has_expired now (ApiToken.expires_at t)) s.tokens },
      (length hashes, hashes),
    )
