-- ===== src/Oauth/Pkce/Charset.antt =====
-- internal/oauth/pkce.go: the characters of verifiers and challenges.
use pgedge_postgres_mcp.Prelude.{ℕ, Bool, ◌&&◌, ◌||◌, leb, ◌==◌}

abbrev pub within : ℕ → ℕ → ℕ → Bool
within lo hi c = leb lo c && leb c hi

-- `isUnreservedChar`
unfoldable pub is_unreserved_char : ℕ → Bool
is_unreserved_char c =
    within b'A' b'Z' c
    || within b'a' b'z' c
    || within b'0' b'9' c
    || c == b'-'
    || c == b'.'
    || c == b'_'
    || c == b'~'

-- `isBase64URLChar`
unfoldable pub is_base64url_char : ℕ → Bool
is_base64url_char c =
    within b'A' b'Z' c || within b'a' b'z' c || within b'0' b'9' c || c == b'-' || c == b'_'
