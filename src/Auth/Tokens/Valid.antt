-- ===== src/Auth/Tokens/Valid.antt =====
-- What an accepted API token proves, and what the removal of expired tokens leaves.
use pgedge_postgres_mcp.Prelude.{
  ℕ, ◌+◌, String, ◌≡◌, inl, inr, true, false, some, [], ◌∷◌, arith, eq_iff, eq_refl, str_eq,
  Bool-cases, length,
}
use pgedge_postgres_mcp.Auth.Tokens.{
  TokenStore, validate_token, valid_in, cleanup_expired_tokens, expired_hashes, ApiToken,
  has_expired,
}
use pgedge_postgres_mcp.GoMap.{delete_where, Distinct, get, GoMap, size}
use pgedge_postgres_mcp.GoMap.Distinct.{keep, get-delete_where}
use pgedge_postgres_mcp.GoMap.Laws.{has-get}

found_valid :
    (hash : String) (now : ℕ) (m : GoMap ApiToken)
    → Distinct m
    → valid_in hash now m ≡ true
    → (id : String) × (t : ApiToken) × (get id m ≡ some t)
      × (t.hash ≡ hash)
      × (has_expired now t.expires_at ≡ false)
unfolding valid_in get
found_valid hash now [] d e = cc
found_valid hash now ((id, t) ∷ m) d e = elim (Bool-cases (str_eq t.hash hash)) [
  | inl same ↦ (id, t, ground (arith, eq_refl id), ground (arith, eq_iff t.hash hash), ground arith)
  | inr other ↦
      let (j, u, at, its, live) = found_valid hash now m d.1 (ground arith) in
      (j, u, ground (arith, eq_iff id j, has-get j m u), its, live)
]

-- An API token that is accepted is on file by its hash, and has not expired, if the identifiers of
-- the tokens are distinct.
pub validate_token_sound :
    (hash_token : String → String) (token : String) (now : ℕ) (s : TokenStore)
    → Distinct s.tokens
    → validate_token hash_token token now s ≡ true
    → (id : String) × (t : ApiToken) × (get id s.tokens ≡ some t)
      × (t.hash ≡ hash_token token)
      × (has_expired now t.expires_at ≡ false)
unfolding validate_token
validate_token_sound hash_token token now s d e = found_valid (hash_token token) now s.tokens d e

hashes_counted :
    (now : ℕ) (m : GoMap ApiToken)
    → length (expired_hashes now m)
        + size (delete_where (λ id t. has_expired now (ApiToken.expires_at t)) m)
      ≡ size m
unfolding expired_hashes delete_where
hashes_counted now [] = omega arith
hashes_counted now ((id, t) ∷ m) = ground (arith, hashes_counted now m)

-- The cleanup of API tokens with distinct identifiers removes exactly those that have expired, and
-- counts them.
pub cleanup_expired_tokens_lem :
    (now : ℕ) (s : TokenStore) (id : String)
    → Distinct s.tokens
    → (get id (cleanup_expired_tokens now s).0.tokens
        ≡ keep (λ t. has_expired now (ApiToken.expires_at t)) (get id s.tokens))
      × ((cleanup_expired_tokens now s).1.0 + size (cleanup_expired_tokens now s).0.tokens
          ≡ size s.tokens)
unfolding cleanup_expired_tokens
cleanup_expired_tokens_lem now s id d = (
  get-delete_where (λ id t. has_expired now (ApiToken.expires_at t)) id s.tokens d,
  hashes_counted now s.tokens,
)
