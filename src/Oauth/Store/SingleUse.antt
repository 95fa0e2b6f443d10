-- ===== src/Oauth/Store/SingleUse.antt =====
-- The taking of tokens and authorisation codes, whatever other callers do in the meantime.
use pgedge_postgres_mcp.Prelude.{
  ℕ, String, ◌≡◌, inl, inr, Bool, true, false, false≢true, none, List, [], ◌∷◌, arith, eq_refl,
  str_eq, Bool-cases,
}
use pgedge_postgres_mcp.Oauth.Types.{Token, Store}
use pgedge_postgres_mcp.Oauth.Store.Ops.{Op, apply, run, touches_tokens, tokens-untouched}
use pgedge_postgres_mcp.GoMap.{GoMap, get, delete_where}
use pgedge_postgres_mcp.Oauth.Store.Sweep.{sweep_tokens, expired_token, code_expired}
use pgedge_postgres_mcp.Oauth.Store.Tokens.{
  put_token, take_token, in_family, of_subject, delete_family, code_of_subject,
}
use pgedge_postgres_mcp.GoMap.Laws.{get-put, get-none-has, has-delete_where, has-none, get-delete}
use pgedge_postgres_mcp.Oauth.Store.Tokens.Cascade.{
  deletion_adds_none, get-delete_token_locked_self,
}
use pgedge_postgres_mcp.Oauth.Store.Tokens.After.{
  tokens-delete_token, tokens-take_token, tokens-delete_family, tokens-delete_by_subject,
  tokens-sweep, swept_codes, codes-delete_token, codes-take_token, codes-delete_by_subject,
  codes-sweep,
}
use pgedge_postgres_mcp.Oauth.Store.Clients.{put_client, touch_client, mark_refresh_rotated}
use pgedge_postgres_mcp.Oauth.Store.Codes.{mark_code_used, take_used_code, put_code, take_code}
use pgedge_postgres_mcp.Oauth.Store.Devices.{
  put_device_code, update_device, approve_device, deny_device, delete_device, touch_device_poll,
  take_device_if_approved,
}

-- Whether an operation stores something under a hash.
abbrev pub puts_token : String → Op → Bool
puts_token h (Op.put_token t) = str_eq t.hash h
puts_token h _ = false

abbrev pub puts_code : String → Op → Bool
puts_code h (Op.put_code c) = str_eq c.hash h
puts_code h _ = false

-- No operation of a sequence meets a test.
abbrev pub NoneOf : (Op → Bool) → List Op → Type 0
NoneOf p [] = Unit {0}
NoneOf p (op ∷ ops) = (p op ≡ false) × NoneOf p ops

pub run_keeps :
    (P : Store → Type 0) (p : Op → Bool)
    → ((op : Op) (s : Store) → p op ≡ false → P s → P (apply op s))
    → (ops : List Op) (s : Store) → NoneOf p ops
    → P s
    → P (run ops s)
unfolding run
run_keeps P p step [] s n h = h
run_keeps P p step (op ∷ ops) s n h = run_keeps P p step ops (apply op s) n.1 (step op s n.0 h)

swept_adds_none :
    (now : ℕ) (m : GoMap Token) (h : String) (s : Store)
    → get h s.tokens ≡ none
    → get h (sweep_tokens now m s).0.tokens ≡ none
unfolding sweep_tokens
swept_adds_none now [] h s e = e
swept_adds_none now ((k, x) ∷ m) h s e = elim (Bool-cases (expired_token now (get k s.tokens))) [
  | inr kept ↦ rw kept (swept_adds_none now m h s e)
  | inl old ↦ rw old (swept_adds_none now m h _ (deletion_adds_none k h s e))
]

pub get-delete_where-none :
    {V : Type 0} (p : String → V → Bool) (h : String) (m : GoMap V)
    → get h m ≡ none
    → get h (delete_where p m) ≡ none
get-delete_where-none p h m e =
    get-none-has h (delete_where p m) (has-delete_where p h m (has-none h m e))

touched_token_stays_gone :
    (h : String) (op : Op) (s : Store)
    → touches_tokens op ≡ true
    → puts_token h op ≡ false
    → get h s.tokens ≡ none
    → get h (apply op s).tokens ≡ none
unfolding apply
touched_token_stays_gone h (Op.put_token t) s on other e =
    unfold put_token in ground (arith, get-put t.hash h t s.tokens)
touched_token_stays_gone h (Op.delete_token k) s on other e =
    rw (tokens-delete_token k s) (deletion_adds_none k h s e)
touched_token_stays_gone h (Op.take_token k) s on other e =
    rw (tokens-take_token k s) (deletion_adds_none k h s e)
touched_token_stays_gone h (Op.delete_family f) s on other e =
    rw (tokens-delete_family f s) (ground (arith, get-delete_where-none (in_family f) h s.tokens e))
touched_token_stays_gone h (Op.delete_by_subject u) s on other e =
    rw (tokens-delete_by_subject u s)
      (ground (arith, get-delete_where-none (of_subject u) h s.tokens e))
touched_token_stays_gone h (Op.sweep now) s on other e =
    rw (tokens-sweep now s) (swept_adds_none now s.tokens h (swept_codes now s) e)
touched_token_stays_gone h _ s on other e = absurd (false≢true on)

token_stays_gone :
    (h : String) (op : Op) (s : Store)
    → puts_token h op ≡ false
    → get h s.tokens ≡ none
    → get h (apply op s).tokens ≡ none
token_stays_gone h op s other e = elim (Bool-cases (touches_tokens op)) [
  | inl on ↦ touched_token_stays_gone h op s on other e
  | inr off ↦ rw (tokens-untouched op s off) e
]

take_token-gone : (h : String) (s : Store) → get h s.tokens ≡ none → (take_token h s).1 ≡ none
unfolding take_token
take_token-gone h s e = rw e

-- After a caller has taken a token, or failed to, no later caller gets it, whatever operations run
-- in between, unless one of them stores a token under its hash.
pub take_token_once :
    (h : String) (s : Store) (ops : List Op)
    → NoneOf (puts_token h) ops
    → (take_token h (run ops (take_token h s).0)).1 ≡ none
take_token_once h s ops n = take_token-gone h _ (
    run_keeps (λ r. get h r.tokens ≡ none) (puts_token h) (token_stays_gone h) ops _ n
      (rw (tokens-take_token h s) (get-delete_token_locked_self h s)))

code_stays_gone :
    (h : String) (op : Op) (s : Store)
    → puts_code h op ≡ false
    → get h s.codes ≡ none
    → get h (apply op s).codes ≡ none
unfolding apply put_client touch_client mark_refresh_rotated mark_code_used take_used_code
    put_device_code update_device approve_device deny_device delete_device touch_device_poll
    take_device_if_approved put_token delete_family
code_stays_gone h (Op.put_code c) s other e =
    unfold put_code in ground (arith, get-put c.hash h c s.codes)
code_stays_gone h (Op.take_code k) s other e =
    unfold take_code in ground (arith, get-delete k h s.codes)
code_stays_gone h (Op.delete_token k) s other e = rw (codes-delete_token k s) e
code_stays_gone h (Op.take_token k) s other e = rw (codes-take_token k s) e
code_stays_gone h (Op.delete_by_subject u) s other e =
    rw (codes-delete_by_subject u s)
      (ground (arith, get-delete_where-none (code_of_subject u) h s.codes e))
code_stays_gone h (Op.sweep now) s other e =
    rw (codes-sweep now s) (get-delete_where-none (code_expired now) h s.codes e)
code_stays_gone h _ s other e = ground arith

take_code-gone : (h : String) (s : Store) → get h s.codes ≡ none → (take_code h s).1 ≡ none
unfolding take_code
take_code-gone h s e = rw e

take_code-removes : (h : String) (s : Store) → get h (take_code h s).0.codes ≡ none
unfolding take_code
take_code-removes h s = ground (arith, get-delete h h s.codes, eq_refl h)

-- After a caller has taken an authorisation code, or failed to, no later caller gets it, whatever
-- operations run in between, unless one of them stores a code under its hash.
pub take_code_once :
    (h : String) (s : Store) (ops : List Op)
    → NoneOf (puts_code h) ops
    → (take_code h (run ops (take_code h s).0)).1 ≡ none
take_code_once h s ops n = take_code-gone h _ (
    run_keeps (λ r. get h r.codes ≡ none) (puts_code h) (code_stays_gone h) ops _ n
      (take_code-removes h s))
