-- ===== src/Oauth/Server/Authorize/Checked.antt =====
-- What the checks of an authorisation request establish.
use pgedge_postgres_mcp.Prelude.{
  ℕ, String, ◌≡◌, refl, sym, ◌∙◌, ◌≢◌, Bool, true, ◌&&◌, ◌||◌, none, List, [], ◌∷◌, arith, eq_iff,
  leb, ◌==◌, length, all, codes,
}
use pgedge_postgres_mcp.Oauth.Server.Authorize.{AuthorizeParams, check_authorize_params}
use pgedge_postgres_mcp.Oauth.Server.Scope.Only.{only_mcp, between, scope_permitted_lem}
use pgedge_postgres_mcp.Oauth.Pkce.{valid_code_challenge}
use pgedge_postgres_mcp.Oauth.Pkce.Charset.{is_base64url_char}

-- The letters of base64url.
abbrev pub is_challenge_letter : ℕ → Bool
is_challenge_letter c =
    (leb 65 c && leb c 90)
    || (leb 97 c && leb c 122)
    || (leb 48 c && leb c 57)
    || c == 45
    || c == 95

pub record HasValidParams (p : AuthorizeParams) : Type 0 where
  pub asks_for_code : p.response_type ≡ "code"
  pub some_state : p.state ≢ ""
  pub challenge_length : length (codes p.code_challenge) ≡ 43
  pub challenge_letters : all is_challenge_letter (codes p.code_challenge) ≡ true
  pub hashed : p.code_challenge_method ≡ "S256"
  pub scope_is_mcp : only_mcp between p.scope ≡ true

letters : (cs : List ℕ) → all is_base64url_char cs ≡ true → all is_challenge_letter cs ≡ true
unfolding is_base64url_char
letters [] e = refl
letters (c ∷ cs) e = ground (arith, letters cs)

challenge_lem :
    (c : String)
    → valid_code_challenge c ≡ true
    → (length (codes c) ≡ 43) × (all is_challenge_letter (codes c) ≡ true)
unfolding valid_code_challenge
challenge_lem c e = (ground arith, letters (codes c) (ground arith))

pub check_authorize_params_sound :
    (p : AuthorizeParams) → check_authorize_params p ≡ none → HasValidParams p
unfolding check_authorize_params
check_authorize_params_sound p e =
    let (size, chars) = challenge_lem p.code_challenge (ground arith) in
    record {
      asks_for_code = ground (arith, eq_iff p.response_type "code");
      some_state = λ h. ground (arith, eq_iff p.state "", h);
      challenge_length = size;
      challenge_letters = chars;
      hashed = ground (arith, eq_iff p.code_challenge_method "S256");
      scope_is_mcp = sym (scope_permitted_lem p.scope) ∙ ground arith;
    }
