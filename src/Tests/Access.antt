-- ===== src/Tests/Access.antt =====
-- Requests at which the properties of the limiter, of the client address and of the middleware are
-- applied.
use pgedge_postgres_mcp.Prelude.{
  ℕ, String, ◌≡◌, refl, ◌⊎◌, Bool, true, false, ◌||◌, Option, none, some, List, [], ◌∷◌, arith,
  str_eq, ltb, ◌==◌, if◌then◌else◌,
}
use pgedge_postgres_mcp.Tests.Grants.{outside, lifetimes}
use pgedge_postgres_mcp.Tests.Endpoint.{oauth_only}
use pgedge_postgres_mcp.Auth.ClientIp.{
  ClientIpResolver, parse_candidate_addr, Incoming, AddressLibrary, is_trusted, resolve, candidates,
  named_parts,
}
use pgedge_postgres_mcp.Auth.RateLimiter.Refinement.{
  LimiterOp, failed_at, limiter_run, cleanup_at, reset_of, logged, log_run, limiter_run_refines,
}
use pgedge_postgres_mcp.Auth.RateLimiter.{is_allowed, new_rate_limiter}
use pgedge_postgres_mcp.Auth.Middleware.{HttpRequest, auth_middleware, pass_through, pass_as}
use pgedge_postgres_mcp.Auth.ClientIp.Vouched.{Vouched, resolve_sound, front_is_ignored}
use pgedge_postgres_mcp.Auth.Validator.{Identity}
use pgedge_postgres_mcp.Auth.Validator.Identified.{StandsFor}
use pgedge_postgres_mcp.Auth.Middleware.Bearer.{BearsToken}
use pgedge_postgres_mcp.Auth.Middleware.Guarded.{auth_middleware_guards, IsPublic}

abbrev calls : List LimiterOp
calls =
    failed_at "10.0.0.1" 3
    ∷ cleanup_at 4
    ∷ failed_at "10.0.0.2" 5
    ∷ reset_of "10.0.0.2"
    ∷ failed_at "10.0.0.1" 6
    ∷ []

limiter_run_refines_example :
    is_allowed "10.0.0.1" 7 (limiter_run calls (new_rate_limiter 1 2))
    ≡ ltb (logged "10.0.0.1" 7 60_000_000_000 (log_run calls [])) 2
limiter_run_refines_example =
    limiter_run_refines 1 2 calls "10.0.0.1" 7 (omega arith)
      (omega arith, (omega arith, (omega arith, (omega arith, tt)))) (omega arith)

-- Addresses are numbers, and the prefix 1 holds the address 1 only.
abbrev parse_digit : String → Option ℕ
parse_digit s =
    if str_eq s "1"
    then some 1
    else if str_eq s "2"
    then some 2
    else if str_eq s "3"
    then some 3
    else none

abbrev addresses : AddressLibrary ℕ ℕ
addresses = record {
  trim = λ s. s;
  split_commas = λ s. s ∷ [];
  lower = λ s. s;
  parse_addr = parse_digit;
  split_host_port = λ s. none;
  unbracket = λ s. none;
  normalise = λ a. a;
  show = λ a. if a == 2 then "2" else if a == 3 then "3" else "1";
  parse_prefix = λ s. none;
  canonical = λ p. p;
  single = λ a. a;
  has_slash = λ s. false;
  prefix_contains = λ p a. p == a;
}

abbrev behind_proxy : ClientIpResolver ℕ
behind_proxy = record { use_header = true; header = "X-Real-IP"; trusted = 1 ∷ [] }

abbrev forwarded : Incoming
forwarded = record { remote_addr = "1"; header_values = "3" ∷ "2" ∷ "1" ∷ [] }

resolve_sound_example :
    (resolve addresses (some behind_proxy) forwarded ≡ "1")
    ⊎ ((a : ℕ) × Vouched addresses behind_proxy forwarded 1 a
        × (resolve addresses (some behind_proxy) forwarded ≡ addresses.show a))
unfolding parse_candidate_addr
resolve_sound_example = resolve_sound addresses behind_proxy forwarded 1 refl

front_is_ignored_example : resolve addresses (some behind_proxy) forwarded ≡ "2"
unfolding parse_candidate_addr is_trusted candidates named_parts
front_is_ignored_example =
    front_is_ignored addresses behind_proxy forwarded 1 2 ("1" ∷ []) "2" ("3" ∷ []) refl refl refl
      refl ((1, refl, refl), tt) refl refl

abbrev bearer_request : HttpRequest
bearer_request = record { path = "/mcp/v1"; authorization = "bearer a1"; rpc = none }

abbrev any_case : String → String → Bool
any_case a b = str_eq a b || str_eq a "bearer"

auth_middleware_guards_example :
    let d = (auth_middleware outside lifetimes any_case true bearer_request 50 oauth_only).1 in
    (d ≡ pass_through
      → IsPublic oauth_only "/mcp/v1"
        ⊎ ((oauth_only.methods.password_login ≡ true)
            × (bearer_request.rpc ≡ some ("tools/call", some "authenticate_user"))))
    × ((id : Identity)
        → d ≡ pass_as id
        → (token : String) × BearsToken any_case "bearer a1" token
          × (id.token_hash ≡ outside.hash_token token)
          × StandsFor outside lifetimes token 50 oauth_only id.username id.kind)
auth_middleware_guards_example =
    auth_middleware_guards outside lifetimes any_case bearer_request 50 oauth_only
