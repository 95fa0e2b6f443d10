-- ===== src/Auth/Tokens/Remove.antt =====
-- The removal of a token by its name or by a prefix of its hash.
use pgedge_postgres_mcp.Prelude.{
  ℕ, ◌≤◌, ◌<◌, String, ◌≡◌, refl, Bool, true, false, ◌&&◌, none, some, List, [], ◌∷◌, arith, leb,
  ◌==◌, length, codes,
}
use pgedge_postgres_mcp.GoMap.{GoMap, has}
use pgedge_postgres_mcp.Auth.Tokens.{has_prefix, remove_token, ApiToken, remove_by_prefix}

-- Whether every hash has at least as many bytes as the identifier.
abbrev long_enough : List ℕ → GoMap ApiToken → Bool
long_enough identifier [] = true
long_enough identifier ((id, t) ∷ m) =
    leb (length identifier) (length (codes (ApiToken.hash t))) && long_enough identifier m

prefix_found : (hs cs : List ℕ) → length cs ≤ length hs → (b : Bool) × (has_prefix hs cs ≡ some b)
prefix_found hs [] e = (true, refl)
prefix_found [] (c ∷ cs) e = absurd (omega arith)
prefix_found (h ∷ hs) (c ∷ cs) e =
    let (b, found) = prefix_found hs cs (omega arith) in ((h == c && b), rw found refl)

prefix_panics : (hs cs : List ℕ) → length hs < length cs → has_prefix hs cs ≡ none
prefix_panics hs [] e = absurd (omega arith)
prefix_panics [] (c ∷ cs) e = refl
prefix_panics (h ∷ hs) (c ∷ cs) e = rw (prefix_panics hs cs (omega arith)) refl

-- An identifier of eight bytes or more that is the name of no token stops the program where the
-- first hash that the loop visits is shorter than it.
pub remove_token_panics :
    (identifier id : String) (t : ApiToken) (m : GoMap ApiToken)
    → has identifier ((id, t) ∷ m) ≡ false
    → 8 ≤ length (codes identifier)
    → length (codes t.hash) < length (codes identifier)
    → remove_token identifier (record { tokens = (id, t) ∷ m }) ≡ none
unfolding remove_token remove_by_prefix
remove_token_panics identifier id t m unnamed long short =
    let panics = prefix_panics (codes t.hash) (codes identifier) short in
    ground (arith, unnamed, panics)
