-- ===== src/Tests/Pages.antt =====
-- Requests to the pages and the registration endpoint at which their properties are applied.
use Prim.Native.Char.{code}
use pgedge_postgres_mcp.Oauth.Store.Clients.{get_client, touch_client}
use pgedge_postgres_mcp.Prelude.{
  ℕ, zero, suc, ◌+◌, ◌*◌, String, ◌≡◌, refl, ap, ◌∙◌, Bool, true, false, ◌&&◌, none, some, List, [],
  ◌∷◌, arith, str_eq, leb, ◌==◌, if◌then◌else◌, ◌/◌, str_append,
}
use pgedge_postgres_mcp.Tests.Oauth.{signed_in}
use pgedge_postgres_mcp.Tests.Grants.{outside}
use pgedge_postgres_mcp.Oauth.Types.{DeviceCode}
use pgedge_postgres_mcp.Oauth.Server.Csrf.{
  issue, CsrfLibrary, verify, verify_bytes, put_uint64, uint64_from,
}
use pgedge_postgres_mcp.Oauth.Server.Authorize.{
  AuthorizeParams, EndpointOptions, AuthorizeRequest, PageLibrary, handle_authorize, redirect_code,
  method_post, validate_authorize, check_authorize_params, submit, issue_code,
}
use pgedge_postgres_mcp.Oauth.Server.Redirect.{
  Url, UrlLibrary, redirect_uri_allowed, any_permits, entry_permits, is_loopback_hostname,
}
use pgedge_postgres_mcp.Oauth.Server.SignIn.Verified.{
  Verified, user_store_authenticator, authenticate_sound,
}
use pgedge_postgres_mcp.Oauth.Server.SignIn.{
  Authenticator, Portal, Login, authenticate, authenticate_hooked,
}
use pgedge_postgres_mcp.Oauth.Server.Redirect.Permitted.{Permits, redirect_uri_allowed_sound}
use pgedge_postgres_mcp.Auth.RateLimiter.{new_rate_limiter, is_allowed, reset}
use pgedge_postgres_mcp.Oauth.Server.Csrf.Verified.{verify-issue}
use pgedge_postgres_mcp.Auth.Users.{new_user, notify_revoked}
use pgedge_postgres_mcp.Oauth.Server.Authorize.Issues.{CodeEarned, code_is_earned}
use pgedge_postgres_mcp.GoMap.{get, has, put, delete}
use pgedge_postgres_mcp.Auth.Users.Authenticate.{authenticate_user}
use pgedge_postgres_mcp.Oauth.Pkce.{valid_code_challenge}
use pgedge_postgres_mcp.Oauth.Pkce.Charset.{is_base64url_char}
use pgedge_postgres_mcp.Oauth.Server.Scope.{scope_permitted, fields, is_space, words}
use pgedge_postgres_mcp.Oauth.Store.Codes.{put_code}
use pgedge_postgres_mcp.Oauth.Server.Accounts.{revoke_all}

-- A text for every list of numbers, each as so many strokes and a comma.
abbrev strokes : ℕ → String → String
strokes zero s = s
strokes (suc n) s = str_append "x" (strokes n s)

abbrev pub in_strokes : List ℕ → String
in_strokes [] = ""
in_strokes (n ∷ ns) = strokes n (str_append "," (in_strokes ns))

abbrev from_strokes : ℕ → String → List ℕ
from_strokes k String.[] = []
from_strokes k (String.◌∷◌ c s) = elim (code c == b',') [
  | true ↦ k ∷ from_strokes 0 s
  | false ↦ from_strokes (k + 1) s
]

from-strokes :
    (k n : ℕ) (s : String)
    → from_strokes k (strokes n (str_append "," s)) ≡ (k + n) ∷ from_strokes 0 s
from-strokes k zero s = ap (λ i. i ∷ from_strokes 0 s) (omega arith)
from-strokes k (suc n) s = from-strokes (k + 1) n s ∙ ap (λ i. i ∷ from_strokes 0 s) (omega arith)

from-in_strokes : (ns : List ℕ) → from_strokes 0 (in_strokes ns) ≡ ns
from-in_strokes [] = refl
from-in_strokes (n ∷ ns) =
    from-strokes 0 n (in_strokes ns)
    ∙ ap (λ i. i ∷ from_strokes 0 (in_strokes ns)) (omega arith)
    ∙ ap (λ l. n ∷ l) (from-in_strokes ns)

abbrev zeros : ℕ → List ℕ
zeros zero = []
zeros (suc n) = 0 ∷ zeros n

abbrev pub toy_csrf : CsrfLibrary
toy_csrf = record {
  hmac = λ k m. zeros 32;
  encode = in_strokes;
  decode = λ s. some (from_strokes 0 s);
}

-- Ten and a half seconds after the epoch
abbrev half_past_ten : ℕ
half_past_ten = 62_135_596_810_500_000_000

verify-issue_example :
    verify toy_csrf []
      (issue toy_csrf [] half_past_ten (zeros 16))
      62_135_597_410_000_000_001
      600_000_000_000
    ≡ (leb 62_135_597_410_000_000_001
          (half_past_ten / 1_000_000_000 * 1_000_000_000 + 600_000_000_000)
        && leb
            (half_past_ten / 1_000_000_000 * 1_000_000_000)
            (62_135_597_410_000_000_001 + 60_000_000_000))
verify-issue_example =
    verify-issue toy_csrf [] half_past_ten 62_135_597_410_000_000_001 600_000_000_000 (zeros 16)
      (λ bs. ap some (from-in_strokes bs)) (λ m. refl) refl (omega arith) (omega arith)

-- A token of that time
abbrev pub ten_seconds : String
ten_seconds = issue toy_csrf [] half_past_ten (zeros 16)

abbrev callback : Url
callback = record {
  scheme = "http";
  host = "localhost";
  hostname = "localhost";
  path = "/cb";
  raw_query = "";
  fragment = "";
  has_user = false;
}

abbrev pub toy_urls : UrlLibrary
toy_urls = record {
  parse = λ s. if str_eq s "http://localhost/cb" then some callback else none;
  equal_fold = str_eq;
  is_loopback_ip = λ h. false;
}

redirect_uri_allowed_sound_example :
    Permits toy_urls ("http://localhost/cb" ∷ []) "http://localhost/cb"
unfolding redirect_uri_allowed any_permits entry_permits
redirect_uri_allowed_sound_example =
    redirect_uri_allowed_sound toy_urls "http://localhost/cb" ("http://localhost/cb" ∷ []) refl

abbrev pub pages : PageLibrary
pages = record { urls = toy_urls; csrf = toy_csrf; csrf_key = []; external = outside }

abbrev pub endpoint_options : EndpointOptions
endpoint_options = record {
  issuer = "https://mcp.example";
  allowed_redirect_uris = "http://localhost/cb" ∷ [];
  extra_redirects = [];
  allow_dynamic_registration = none;
  authorization_code_lifetime = 60;
  device_code_lifetime = 900;
}

abbrev pub pending_code : DeviceCode
pending_code = record {
  device_hash = "d2";
  user_code = "BCDF-GHJK";
  client_id = "c1";
  scope = "mcp";
  subject = "";
  approved = false;
  denied = false;
  expires_at = 60;
  last_polled = 0;
  interval = 5;
}

abbrev pub portal : Portal
portal = record {
  server = record {
    store = record signed_in {
      devices = ("d2", pending_code) ∷ [];
      user_codes = ("BCDF-GHJK", "d2") ∷ [];
    };
    rate_limiter = some (new_rate_limiter 1 5);
    anonymous_rate_limiter = some (new_rate_limiter 1 5);
  };
  users = record {
    users = ("alice", new_user "alice" "secret" "" 1) ∷ [];
    hooked = true;
    notified = [];
  };
}

abbrev pub verify_password : String → String → Bool
verify_password password hash = str_eq password hash

abbrev pub alice_login : Login
alice_login = record {
  username = "alice";
  ip = "10.0.0.1";
  attempt = record {
    password = "secret";
    token = some "s2";
    authenticated_at = 7;
    logged_in_at = 8;
  };
  limited_at = 6;
  failed_at = 9;
}

authenticate_sound_example :
    (alice_login.username ≡ "alice")
    × Verified verify_password alice_login portal
    × ((authenticate verify_password 3 alice_login portal).0.server.store ≡ portal.server.store)
unfolding authenticate is_allowed get authenticate_user
authenticate_sound_example = authenticate_sound verify_password 3 alice_login portal "alice" refl

abbrev pub alice_params : AuthorizeParams
alice_params = record {
  response_type = "code";
  client_id = "c1";
  redirect_uri = "http://localhost/cb";
  scope = "mcp";
  state = "st";
  code_challenge = "abcdefghijklmnopqrstuvwxyzabcdefghijklmnopq";
  code_challenge_method = "S256";
}

abbrev pub alice_request : AuthorizeRequest
alice_request = record {
  method = method_post;
  form_ok = true;
  params = alice_params;
  csrf_token = ten_seconds;
  login = alice_login;
  touched_at = 6;
  checked_at = 62_135_596_820_000_000_000;
  issued_at = 10;
  drawn = some "k2";
}

abbrev pub checked_users : Authenticator Portal
checked_users = user_store_authenticator verify_password 3

pub alice_gets_code :
    (handle_authorize pages endpoint_options checked_users alice_request portal).1
    ≡ redirect_code "http://localhost/cb" "k2" "st"
unfolding handle_authorize validate_authorize get_client get redirect_uri_allowed any_permits
    entry_permits check_authorize_params valid_code_challenge is_base64url_char scope_permitted
    submit verify verify_bytes issue put_uint64 uint64_from has put issue_code is_loopback_hostname
    fields is_space words touch_client put_code authenticate authenticate_hooked authenticate_user
    notify_revoked is_allowed revoke_all reset delete
alice_gets_code = refl

code_is_earned_example :
    CodeEarned pages endpoint_options checked_users alice_request portal "http://localhost/cb" "k2"
      "st"
code_is_earned_example =
    code_is_earned pages endpoint_options checked_users alice_request portal "http://localhost/cb"
      "k2" "st" alice_gets_code
