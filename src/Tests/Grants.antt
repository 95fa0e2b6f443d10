-- ===== src/Tests/Grants.antt =====
-- Token requests at which the properties of the grants are applied.
use pgedge_postgres_mcp.Prelude.{
  ◌+◌, String, ◌≡◌, refl, ◌≢◌, true, false, none, some, [], ◌∷◌, arith, eq_iff,
}
use pgedge_postgres_mcp.Tests.Oauth.{signed_in, refresh_token}
use pgedge_postgres_mcp.Oauth.Server.Errors.{
  Times, Config, Form, External, TokenResponse, Draws, granted,
}
use pgedge_postgres_mcp.Oauth.Server.DeviceGrant.{handle_device_code_grant}
use pgedge_postgres_mcp.Oauth.Server.RefreshGrant.{
  handle_refresh_token_grant, refresh_rejected, invalid_refresh,
}
use pgedge_postgres_mcp.Oauth.Server.CodeGrant.{
  handle_authorization_code_grant, invalid_code, code_rejected,
}
use pgedge_postgres_mcp.Oauth.Store.Codes.{take_code, take_used_code}
use pgedge_postgres_mcp.Oauth.Store.Tokens.{take_token, put_token, delete_token_locked}
use pgedge_postgres_mcp.Oauth.Server.Endpoint.{device_grant_type}
use pgedge_postgres_mcp.Oauth.Store.Devices.{
  get_device_by_hash, touch_device_poll, take_device_if_approved,
}
use pgedge_postgres_mcp.GoMap.{get, put, has, delete}
use pgedge_postgres_mcp.Oauth.Server.Issue.{issue_tokens_with_hash, issue_tokens, store_pair}
use pgedge_postgres_mcp.Oauth.Types.{UsedCode, Store, AuthCode, DeviceCode, Token}
use pgedge_postgres_mcp.Oauth.Pkce.{valid_code_verifier, verify_pkce}
use pgedge_postgres_mcp.Oauth.Server.RefreshGrant.Rotate.{MayRotate, refresh_grant_sound}
use pgedge_postgres_mcp.Oauth.Server.DeviceGrant.Approved.{MayIssue, device_grant_sound}
use pgedge_postgres_mcp.Oauth.Server.CodeGrant.Redeem.{MayRedeem, code_grant_sound}
use pgedge_postgres_mcp.Oauth.Server.RefreshGrant.Reuse.{refresh_twice_revokes}
use pgedge_postgres_mcp.Oauth.Server.CodeGrant.Replay.{replayed_code_revokes}
use pgedge_postgres_mcp.Oauth.Server.Issue.Held.{HoldsAccess}
use pgedge_postgres_mcp.Oauth.Pkce.Charset.{is_unreserved_char}
use pgedge_postgres_mcp.Oauth.Store.Clients.{rotated_refresh_family}

abbrev pub outside : External
outside = record { hash_token = λ x. x; s256 = λ x. x; subject_active = λ x. true }

abbrev pub gone : External
gone = record { hash_token = λ x. x; s256 = λ x. x; subject_active = λ x. false }

abbrev pub lifetimes : Config
lifetimes = record { access_token_lifetime = 100; refresh_token_lifetime = 1000 }

abbrev pub blank : Form
blank = record {
  grant_type = "";
  client_id = "c1";
  code = "";
  redirect_uri = "";
  code_verifier = "";
  refresh_token = "";
  device_code = "";
}

abbrev pub refresh_form : Form
refresh_form = record blank { grant_type = "refresh_token"; refresh_token = "r1" }

abbrev pub code_form : Form
code_form = record blank {
  grant_type = "authorization_code";
  code = "k1";
  redirect_uri = "http://localhost/cb";
  code_verifier = "abcdefghijklmnopqrstuvwxyzabcdefghijklmnopq";
}

abbrev pub device_form : Form
device_form = record blank { grant_type = device_grant_type; device_code = "d1" }

abbrev pub at_ten : Times
at_ten = record { checked = 10; issued = 11; marked = 12 }

abbrev pub fresh : Draws
fresh = record { access = some "a2"; refresh = some "r2"; family = some "f2" }

abbrev pub rotated_response : TokenResponse
rotated_response = record {
  access_token = "a2";
  token_type = "Bearer";
  expires_in = 0;
  refresh_token = "r2";
  scope = "mcp";
}

pub refresh_granted :
    (handle_refresh_token_grant outside lifetimes refresh_form at_ten fresh signed_in).1
    ≡ granted rotated_response
unfolding handle_refresh_token_grant take_token get issue_tokens issue_tokens_with_hash store_pair
    put_token refresh_rejected has delete_token_locked delete put
refresh_granted = refl

pub code_granted :
    (handle_authorization_code_grant outside lifetimes code_form at_ten fresh signed_in).1
    ≡ granted rotated_response
unfolding handle_authorization_code_grant take_code take_used_code get issue_tokens_with_hash
    store_pair put_token code_rejected valid_code_verifier is_unreserved_char verify_pkce has put
code_granted = refl

pub device_granted :
    (handle_device_code_grant outside lifetimes device_form at_ten fresh signed_in).1
    ≡ granted rotated_response
unfolding handle_device_code_grant get_device_by_hash touch_device_poll take_device_if_approved get
    issue_tokens issue_tokens_with_hash store_pair put_token put has
device_granted = refl

abbrev pub after_refresh : Store
after_refresh = (handle_refresh_token_grant outside lifetimes refresh_form at_ten fresh signed_in).0

abbrev pub after_code : Store
after_code = (handle_authorization_code_grant outside lifetimes code_form at_ten fresh signed_in).0

abbrev pub after_device : Store
after_device = (handle_device_code_grant outside lifetimes device_form at_ten fresh signed_in).0

refresh_grant_sound_example :
    (t : Token) × (get "r1" signed_in.tokens ≡ some t)
    × MayRotate outside refresh_form 10 t
    × HoldsAccess after_refresh "a2" "c1" t.subject t.scope (11 + 100)
    × (rotated_refresh_family "r1" after_refresh ≡ some t.family)
refresh_grant_sound_example =
    refresh_grant_sound outside lifetimes refresh_form at_ten fresh signed_in rotated_response
      refresh_granted

refresh_twice_revokes_example :
    ((handle_refresh_token_grant outside lifetimes refresh_form at_ten fresh after_refresh).1
      ≡ invalid_refresh)
    × ((h : String) (x : Token)
        → get h
            (handle_refresh_token_grant outside lifetimes refresh_form at_ten fresh
              after_refresh).0.tokens
          ≡ some x
        → x.family ≢ "f1")
unfolding get
refresh_twice_revokes_example =
    refresh_twice_revokes outside lifetimes refresh_form refresh_form at_ten at_ten fresh fresh
      signed_in rotated_response refresh_token refresh_granted refl (ground (arith, eq_iff "f1" ""))
      refl (ground (arith, eq_iff "r1" "")) (ground (arith, eq_iff "c1" ""))
      (ground (arith, eq_iff "a2" "r1")) (ground (arith, eq_iff "r2" "r1"))

code_grant_sound_example :
    (c : AuthCode) × (get "k1" signed_in.codes ≡ some c)
    × MayRedeem outside code_form 10 c
    × HoldsAccess after_code "a2" "c1" c.subject c.scope (11 + 100)
    × (get "k1" after_code.codes ≡ none)
code_grant_sound_example =
    code_grant_sound outside lifetimes code_form at_ten fresh signed_in rotated_response
      code_granted

device_grant_sound_example :
    (d : DeviceCode) × (get "d1" signed_in.devices ≡ some d)
    × MayIssue device_form 10 d
    × HoldsAccess after_device "a2" "c1" d.subject d.scope (11 + 100)
    × (get "d1" after_device.devices ≡ none)
device_grant_sound_example =
    device_grant_sound outside lifetimes device_form at_ten fresh signed_in rotated_response
      device_granted

abbrev pub redeemed : UsedCode
redeemed = record { refresh_hash = "r1"; family = "f1"; until = 90 }

abbrev pub replayed : Store
replayed = record signed_in { codes = []; used_codes = ("k1", redeemed) ∷ [] }

replayed_code_revokes_example :
    ((handle_authorization_code_grant outside lifetimes code_form at_ten fresh replayed).1
      ≡ invalid_code)
    × ((h : String) (t : Token)
        → get h
            (handle_authorization_code_grant outside lifetimes code_form at_ten fresh
              replayed).0.tokens
          ≡ some t
        → t.family ≢ "f1")
unfolding get
replayed_code_revokes_example =
    replayed_code_revokes outside lifetimes code_form at_ten fresh replayed redeemed refl refl refl
      (ground (arith, eq_iff "f1" ""))
