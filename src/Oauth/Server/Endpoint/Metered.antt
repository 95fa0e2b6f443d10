-- ===== src/Oauth/Server/Endpoint/Metered.antt =====
-- The limiter in front of an endpoint.
use pgedge_postgres_mcp.Prelude.{
  ℕ, String, ◌≡◌, refl, ◌⊎◌, inl, inr, true, false, Option, none, some, arith,
}
use pgedge_postgres_mcp.Auth.RateLimiter.{RateLimiter, is_allowed, record_failed_attempt}
use pgedge_postgres_mcp.Oauth.Server.Endpoint.{blocked, record_failure}

-- There is no limiter, or it allows the address.
abbrev pub MayTry : Option RateLimiter → String → ℕ → Type 0
MayTry limiter ip now =
    (limiter ≡ none) ⊎ ((rl : RateLimiter) × (limiter ≡ some rl) × (is_allowed ip now rl ≡ true))

-- There is no limiter, or the address has a failed attempt more in it.
abbrev pub IsCounted : Option RateLimiter → Option RateLimiter → String → ℕ → Type 0
IsCounted limiter limiter' ip now =
    ((limiter ≡ none) × (limiter' ≡ none))
    ⊎ ((rl : RateLimiter) × (limiter ≡ some rl)
        × (limiter' ≡ some (record_failed_attempt ip now rl)))

pub blocked-MayTry :
    (limiter : Option RateLimiter) (ip : String) (now : ℕ)
    → blocked limiter ip now ≡ false
    → MayTry limiter ip now
blocked-MayTry none ip now e = inl refl
blocked-MayTry (some rl) ip now e = inr (rl, refl, ground (arith, e))

pub record_failure-IsCounted :
    (limiter : Option RateLimiter) (ip : String) (now : ℕ)
    → IsCounted limiter (record_failure limiter ip now) ip now
record_failure-IsCounted none ip now = inl (refl, refl)
record_failure-IsCounted (some rl) ip now = inr (rl, refl, refl)
