-- ===== src/Oauth/Pkce.antt =====
-- internal/oauth/pkce.go. A text with a character that is not ASCII is refused whatever its length,
-- so its length may be counted in characters.
pub mod Charset
use pgedge_postgres_mcp.Prelude.{
  String, Bool, false, not, ◌||◌, str_eq, ltb, ◌==◌, if◌then◌else◌, length, all, codes,
}
use pgedge_postgres_mcp.Oauth.Pkce.Charset.{is_base64url_char, is_unreserved_char}

-- `validCodeVerifier`
unfoldable pub valid_code_verifier : String → Bool
valid_code_verifier v =
    let n = length (codes v) in
    if ltb n 43 || ltb 128 n then false else all is_unreserved_char (codes v)

-- `validCodeChallenge`
unfoldable pub valid_code_challenge : String → Bool
valid_code_challenge c =
    if not (length (codes c) == 43) then false else all is_base64url_char (codes c)

-- `verifyPKCE`, over the S256 transform: BASE64URL(SHA256(verifier))
unfoldable pub verify_pkce : (String → String) → String → String → String → Bool
verify_pkce s256 verifier challenge method =
    if not (str_eq method "S256")
    then false
    else if str_eq verifier "" || str_eq challenge ""
    then false
    else str_eq (s256 verifier) challenge
