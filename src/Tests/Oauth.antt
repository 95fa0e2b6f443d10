-- ===== src/Tests/Oauth.antt =====
-- Stores at which the properties of the OAuth store are applied.
use pgedge_postgres_mcp.Prelude.{
  ◌≡◌, refl, true, false, none, [], ◌∷◌, arith, eq_iff, str_eq, contains,
}
use pgedge_postgres_mcp.Oauth.Types.{
  Store, Token, new_store, DeviceCode, AuthCode, Client, default_limits,
}
use pgedge_postgres_mcp.Oauth.Store.Keys.{IsKeyed}
use pgedge_postgres_mcp.Oauth.Store.Bounds.{IsBounded}
use pgedge_postgres_mcp.Oauth.Store.Bounds.Run.{run-IsBounded}
use pgedge_postgres_mcp.Oauth.Store.Reports.{Reports, apply-Reports}
use pgedge_postgres_mcp.Oauth.Store.Tokens.{take_token, delete_by_subject}
use pgedge_postgres_mcp.GoMap.{has, get}
use pgedge_postgres_mcp.Oauth.Store.Approval.{Answered, answer_is_final}
use pgedge_postgres_mcp.Oauth.Store.Ops.{run, apply, Op}
use pgedge_postgres_mcp.Oauth.Store.Revocation.{returned, delete_by_subject_lem}
use pgedge_postgres_mcp.GoMap.Distinct.{keep}
use pgedge_postgres_mcp.Oauth.Store.Devices.{approve_device, deny_device}
use pgedge_postgres_mcp.Oauth.Store.SingleUse.{take_token_once}
use pgedge_postgres_mcp.Oauth.Store.Keys.Steps.{run-IsKeyed}

abbrev pub tools : Client
tools = record {
  id = "c1";
  name = "tools";
  redirect_uris = "http://localhost/cb" ∷ [];
  created_at = 0;
  last_used = 5;
}

abbrev pub refresh_token : Token
refresh_token = record {
  hash = "r1";
  client_id = "c1";
  subject = "alice";
  scope = "mcp";
  expires_at = 1000;
  refresh_hash = "";
  is_refresh = true;
  issued = "a1" ∷ [];
  family = "f1";
}

abbrev pub access_token : Token
access_token = record {
  hash = "a1";
  client_id = "c1";
  subject = "alice";
  scope = "mcp";
  expires_at = 100;
  refresh_hash = "r1";
  is_refresh = false;
  issued = [];
  family = "f1";
}

abbrev pub login_code : AuthCode
login_code = record {
  hash = "k1";
  client_id = "c1";
  redirect_uri = "http://localhost/cb";
  subject = "alice";
  scope = "mcp";
  code_challenge = "abcdefghijklmnopqrstuvwxyzabcdefghijklmnopq";
  expires_at = 60;
}

abbrev pub tv_code : DeviceCode
tv_code = record {
  device_hash = "d1";
  user_code = "BCDFGHJK";
  client_id = "c1";
  scope = "mcp";
  subject = "alice";
  approved = true;
  denied = false;
  expires_at = 60;
  last_polled = 0;
  interval = 5;
}

abbrev pub signed_in : Store
signed_in = record (new_store default_limits 100) {
  clients = ("c1", tools) ∷ [];
  codes = ("k1", login_code) ∷ [];
  devices = ("d1", tv_code) ∷ [];
  user_codes = ("BCDFGHJK", "d1") ∷ [];
  tokens = ("r1", refresh_token) ∷ ("a1", access_token) ∷ [];
  hooked = true;
}

pub signed_in-IsKeyed : IsKeyed signed_in
unfolding has
signed_in-IsKeyed = record {
  clients = (refl, refl, tt);
  codes = (refl, refl, tt);
  devices = (refl, refl, tt);
  tokens = (refl, refl, (refl, refl, tt));
  user_codes = (refl, tt);
  used_codes = tt;
  rotated = tt;
}

run-IsBounded_example : IsBounded default_limits (
    run
      (Op.put_client tools ∷ Op.put_token access_token ∷ Op.sweep 200 ∷ [])
      (new_store default_limits 100))
run-IsBounded_example =
    run-IsBounded default_limits 100
      (Op.put_client tools ∷ Op.put_token access_token ∷ Op.sweep 200 ∷ []) (omega arith)

run-IsKeyed_example : IsKeyed (
    run
      (Op.put_client tools ∷ Op.put_token access_token ∷ Op.sweep 200 ∷ [])
      (new_store default_limits 100))
run-IsKeyed_example =
    run-IsKeyed default_limits 100
      (Op.put_client tools ∷ Op.put_token access_token ∷ Op.sweep 200 ∷ [])

apply-Reports_example : Reports signed_in (apply (Op.delete_token "r1") signed_in)
apply-Reports_example = apply-Reports (Op.delete_token "r1") signed_in signed_in-IsKeyed

take_token_once_example :
    (take_token "r1"
      (run (Op.sweep 10 ∷ Op.put_token access_token ∷ []) (take_token "r1" signed_in).0)).1
    ≡ none
take_token_once_example =
    take_token_once "r1" signed_in (Op.sweep 10 ∷ Op.put_token access_token ∷ []) (refl, (refl, tt))

answer_is_final_example :
    Answered true false "alice" (get "d1" (run (Op.deny_device "d1" ∷ []) signed_in).devices)
    × ((approve_device "d1" "bob" (run (Op.deny_device "d1" ∷ []) signed_in)).1 ≡ false)
    × ((deny_device "d1" (run (Op.deny_device "d1" ∷ []) signed_in)).1 ≡ false)
unfolding get
answer_is_final_example =
    answer_is_final "d1" tv_code signed_in (Op.deny_device "d1" ∷ []) "bob" signed_in-IsKeyed refl
      refl (refl, tt)

delete_by_subject_lem_example :
    (get "a1" (delete_by_subject "alice" signed_in).0.tokens
      ≡ keep (λ t. str_eq t.subject "alice") (get "a1" signed_in.tokens))
    × (contains (delete_by_subject "alice" signed_in).1 "a1"
        ≡ returned (λ t. str_eq t.subject "alice") (get "a1" signed_in.tokens))
    × (get "a1" (delete_by_subject "alice" signed_in).0.codes
        ≡ keep (λ c. str_eq c.subject "alice") (get "a1" signed_in.codes))
    × (get "a1" (delete_by_subject "alice" signed_in).0.devices
        ≡ keep (λ d. str_eq d.subject "alice") (get "a1" signed_in.devices))
delete_by_subject_lem_example =
    delete_by_subject_lem signed_in signed_in-IsKeyed "alice" (ground (arith, eq_iff "alice" ""))
      "a1"

abbrev tiny : Store
tiny = record (new_store (record default_limits { clients = 1 }) 100) {
  clients = ("c1", tools) ∷ [];
}

abbrev held : Store
held = record tiny { tokens = ("a1", access_token) ∷ [] }

abbrev newcomer : Client
newcomer = record tools { id = "c2"; last_used = 10 }
