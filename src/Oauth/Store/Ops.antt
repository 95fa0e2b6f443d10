-- ===== src/Oauth/Store/Ops.antt =====
-- internal/oauth/store.go: the methods that change the store, as the steps that callers interleave.
-- Each of them holds the store's lock throughout, so a run of several goroutines is a sequence of
-- steps.
use pgedge_postgres_mcp.Prelude.{
  ℕ, String, ◌≡◌, refl, sym, Bool, true, false, false≢true, List, [], ◌∷◌, arith,
}
use pgedge_postgres_mcp.Oauth.Types.{Client, AuthCode, DeviceCode, Token, Store}
use pgedge_postgres_mcp.Oauth.Store.Clients
use pgedge_postgres_mcp.Oauth.Store.Codes
use pgedge_postgres_mcp.Oauth.Store.Devices
use pgedge_postgres_mcp.Oauth.Store.Tokens
use pgedge_postgres_mcp.Oauth.Store.Sweep

pub data Op : Type 0 where
  put_client : Client → Op
  touch_client : String → ℕ → Op
  mark_refresh_rotated : String → String → ℕ → Op
  put_code : AuthCode → Op
  take_code : String → Op
  mark_code_used : String → String → String → ℕ → Op
  take_used_code : String → Op
  put_device_code : DeviceCode → Op
  update_device : DeviceCode → Op
  approve_device : String → String → Op
  deny_device : String → Op
  delete_device : String → Op
  touch_device_poll : String → ℕ → Op
  take_device_if_approved : String → Op
  put_token : Token → Op
  delete_token : String → Op
  take_token : String → Op
  delete_family : String → Op
  delete_by_subject : String → Op
  sweep : ℕ → Op

unfoldable pub apply : Op → Store → Store
apply (put_client c) s = (Clients.put_client c s).0
apply (touch_client id now) s = Clients.touch_client id now s
apply (mark_refresh_rotated hash family until) s = Clients.mark_refresh_rotated hash family until s
apply (put_code c) s = (Codes.put_code c s).0
apply (take_code hash) s = (Codes.take_code hash s).0
apply (mark_code_used code refresh family until) s =
    Codes.mark_code_used code refresh family until s
apply (take_used_code hash) s = (Codes.take_used_code hash s).0
apply (put_device_code d) s = (Devices.put_device_code d s).0
apply (update_device d) s = Devices.update_device d s
apply (approve_device hash subject) s = (Devices.approve_device hash subject s).0
apply (deny_device hash) s = (Devices.deny_device hash s).0
apply (delete_device hash) s = Devices.delete_device hash s
apply (touch_device_poll hash now) s = (Devices.touch_device_poll hash now s).0
apply (take_device_if_approved hash) s = (Devices.take_device_if_approved hash s).0
apply (put_token t) s = (Tokens.put_token t s).0
apply (delete_token hash) s = (Tokens.delete_token hash s).0
apply (take_token hash) s = (Tokens.take_token hash s).0
apply (delete_family family) s = (Tokens.delete_family family s).0
apply (delete_by_subject subject) s = (Tokens.delete_by_subject subject s).0
apply (sweep now) s = (Sweep.sweep now s).0

unfoldable pub run : List Op → Store → Store
run [] s = s
run (op ∷ ops) s = run ops (apply op s)

-- An invariant of every step is one of every sequence of steps.
pub run_induction {ℓ} :
    (P : Store → Type ℓ)
    → ((op : Op) (s : Store) → P s → P (apply op s))
    → (ops : List Op) (s : Store) → P s
    → P (run ops s)
unfolding run
run_induction P step [] s h = h
run_induction P step (op ∷ ops) s h = run_induction P step ops (apply op s) (step op s h)

-- Which operations may change the tokens.
abbrev pub touches_tokens : Op → Bool
touches_tokens (put_token t) = true
touches_tokens (delete_token hash) = true
touches_tokens (take_token hash) = true
touches_tokens (delete_family family) = true
touches_tokens (delete_by_subject subject) = true
touches_tokens (sweep now) = true
touches_tokens _ = false

pub tokens-untouched :
    (op : Op) (s : Store) → touches_tokens op ≡ false → (apply op s).tokens ≡ s.tokens
unfolding apply
tokens-untouched (put_client c) s e = unfold Clients.put_client in ground arith
tokens-untouched (touch_client id now) s e = unfold Clients.touch_client in ground arith
tokens-untouched (mark_refresh_rotated h f u) s e = unfold Clients.mark_refresh_rotated in refl
tokens-untouched (put_code c) s e = unfold Codes.put_code in ground arith
tokens-untouched (take_code h) s e = unfold Codes.take_code in ground arith
tokens-untouched (mark_code_used h r f u) s e = unfold Codes.mark_code_used in ground arith
tokens-untouched (take_used_code h) s e = unfold Codes.take_used_code in ground arith
tokens-untouched (put_device_code d) s e = unfold Devices.put_device_code in ground arith
tokens-untouched (update_device d) s e = unfold Devices.update_device in ground arith
tokens-untouched (approve_device h u) s e = unfold Devices.approve_device in ground arith
tokens-untouched (deny_device h) s e = unfold Devices.deny_device in ground arith
tokens-untouched (delete_device h) s e = unfold Devices.delete_device in refl
tokens-untouched (touch_device_poll h now) s e = unfold Devices.touch_device_poll in ground arith
tokens-untouched (take_device_if_approved h) s e =
    unfold Devices.take_device_if_approved in ground arith
tokens-untouched _ s e = absurd (false≢true (sym e))
