-- ===== src/Oauth/Store/Reports.antt =====
-- What the revocation hook is told.
use pgedge_postgres_mcp.Prelude.{
  ℕ, String, ◌≡◌, refl, sym, ap, ◌∙◌, ◌⊎◌, inl, inr, Bool, true, false, not, ◌&&◌, false≢true,
  Option, none, some, List, [], ◌∷◌, arith, eq_iff, str_eq, Bool-cases, Option-cases, contains,
  contains-append, some_not_none,
}
use pgedge_postgres_mcp.Oauth.Types.{Token, Store, notify_revoked}
use pgedge_postgres_mcp.Oauth.Store.Tokens.Cascade.{
  SameBut, delete_token_locked_refresh, delete_token_locked_access, get-delete_links_access,
  survivor,
}
use pgedge_postgres_mcp.Oauth.Store.Tokens.{
  delete_token_locked, delete_links, put_token, delete_token, take_token, delete_family, in_family,
  delete_by_subject, of_subject, code_of_subject, device_of_subject, delete_devices,
}
use pgedge_postgres_mcp.GoMap.{GoMap, get, delete, Distinct, delete_where, keys_where}
use pgedge_postgres_mcp.Oauth.Store.Sweep.{
  sweep_tokens, expired_token, code_expired, sweep_user_codes, device_expired, used_expired,
  rotated_expired, client_idle, sweep,
}
use pgedge_postgres_mcp.GoMap.Laws.{has-get, get-delete, get-put}
use pgedge_postgres_mcp.Oauth.Store.Ops.{apply, Op, touches_tokens, tokens-untouched}
use pgedge_postgres_mcp.Oauth.Store.Keys.{IsKeyed, token_key}
use pgedge_postgres_mcp.Oauth.Store.Tokens.Frame.{
  delete_token_locked-frame, delete_devices-frame, sweep_tokens-frame,
}
use pgedge_postgres_mcp.GoMap.Distinct.{get-delete_where, contains-keys_where}
use pgedge_postgres_mcp.GoMap.Keyed.{Keyed-Distinct}
use pgedge_postgres_mcp.Oauth.Store.Clients.{clients_with_live_tokens_locked}

abbrev IsAccessAt : String → GoMap Token → Type 0
IsAccessAt h m = (t : Token) × (get h m ≡ some t) × (t.is_refresh ≡ false)

-- With a hook installed, an access token that was there before and is gone after has been passed
-- to it.
abbrev pub Reports : Store → Store → Type 0
Reports s s' =
    (h : String) (t : Token)
    → s.hooked ≡ true
    → get h s.tokens ≡ some t
    → t.is_refresh ≡ false
    → get h s'.tokens ≡ none
    → contains s'.notified h ≡ true

none-ne-SameBut : (t : Token) (o : Option Token) → SameBut o (some t) → o ≡ none → ⊥
none-ne-SameBut t none h e = h
none-ne-SameBut t (some u) h e = cc

-- What one deletion removes it returns.
deleted_is_returned :
    (k h : String) (t : Token) (s : Store)
    → get h s.tokens ≡ some t
    → t.is_refresh ≡ false
    → get h (delete_token_locked k s).0.tokens ≡ none
    → contains (delete_token_locked k s).1 h ≡ true
unfolding delete_token_locked
deleted_is_returned k h t s found access gone = elim (Option-cases (get k s.tokens)) [
  | inl nothing ↦ some_not_none (get h s.tokens) t found (rw (nothing, delete_token_locked) at gone)
  | inr (u, at_k) ↦ elim (Bool-cases u.is_refresh) [
    | inl refresh ↦
        let (after, returned) = delete_token_locked_refresh k u s at_k refresh h in
        ground (arith, after, returned, eq_iff k h, has-get h s.tokens t found)
    | inr single ↦ elim (Bool-cases (str_eq k h)) [
      | inl same ↦ rw (delete_token_locked_access k u s at_k single) (rw same)
      | inr other ↦
          let m = delete k s.tokens in
          let still : get h m ≡ some t = rw get-delete (rw other found) in
          absurd (
            none-ne-SameBut t (get h (delete_links k u m).0)
              (rw still at (get-delete_links_access k h u m single))
              (rw (at_k, delete_token_locked) at gone))
    ]
  ]
]

contains-notify :
    (hs : List String) (s : Store) (h : String)
    → s.hooked ≡ true
    → (contains hs h ≡ true) ⊎ (contains s.notified h ≡ true)
    → contains (notify_revoked hs s).notified h ≡ true
contains-notify [] s h on c = ground arith
contains-notify (x ∷ xs) s h on c = ground (arith, contains-append s.notified (x ∷ xs) h)

tokens-notify : (hs : List String) (s : Store) → (notify_revoked hs s).tokens ≡ s.tokens
tokens-notify hs s = ground arith

-- What a loop over all tokens removes, it collects if it is an access token.
removed_is_collected :
    (p : String → Token → Bool) (h : String) (t : Token) (m : GoMap Token)
    → Distinct m
    → get h m ≡ some t
    → t.is_refresh ≡ false
    → get h (delete_where p m) ≡ none
    → contains (keys_where (λ k x. p k x && not x.is_refresh) m) h ≡ true
removed_is_collected p h t m d found access gone =
    let q = λ (k : String) (x : Token). p k x && not x.is_refresh in
    ground (arith, get-delete_where p h m d, contains-keys_where q h m d)

swept_is_returned :
    (now : ℕ) (m : GoMap Token) (s : Store) (h : String) (t : Token)
    → get h s.tokens ≡ some t
    → t.is_refresh ≡ false
    → get h (sweep_tokens now m s).0.tokens ≡ none
    → contains (sweep_tokens now m s).1 h ≡ true
unfolding sweep_tokens
swept_is_returned now [] s h t found access gone = some_not_none (get h s.tokens) t found gone
swept_is_returned now ((k, x) ∷ m) s h t found access gone =
    elim (Bool-cases (expired_token now (get k s.tokens))) [
      | inr kept ↦
          rw kept (swept_is_returned now m s h t found access (rw (kept, sweep_tokens) at gone))
      | inl old ↦
          let s' = (delete_token_locked k s).0 in
          let one = (delete_token_locked k s).1 in
          let more = (sweep_tokens now m s').1 in
          rw old (
            rw (contains-append one more h) (elim (Option-cases (get h s'.tokens)) [
              | inl deleted ↦ rw (deleted_is_returned k h t s found access deleted)
              | inr (t', left) ↦
                  let kept = survivor k h s t t' found left in
                  let access' : t'.is_refresh ≡ false = ground (arith, kept) in
                  ground (
                    arith,
                    swept_is_returned now m s' h t' left access' (rw (old, sweep_tokens) at gone),
                  )
            ]))
    ]

tokens_same : (s s' : Store) → s'.tokens ≡ s.tokens → Reports s s'
tokens_same s s' e h t on found access gone =
    some_not_none (get h s.tokens) t found (ap (get h) (sym e) ∙ gone)

report_by :
    (s s' : Store) (hs : List String)
    → s'.hooked ≡ s.hooked
    → ((h : String) (t : Token)
        → get h s.tokens ≡ some t
        → t.is_refresh ≡ false
        → get h s'.tokens ≡ none
        → contains hs h ≡ true)
    → Reports s (notify_revoked hs s')
report_by s s' hs same returned h t on found access gone =
    contains-notify hs s' h (same ∙ on)
      (inl (returned h t found access (ap (get h) (sym (tokens-notify hs s')) ∙ gone)))

delete_family-Reports : (f : String) (s : Store) → IsKeyed s → Reports s (delete_family f s).0
unfolding delete_family
delete_family-Reports f s v = elim (Bool-cases (str_eq f "")) [
  | inl unnamed ↦ rw unnamed (tokens_same s s refl)
  | inr named ↦ rw named (
      report_by s (record s { tokens = delete_where (in_family f) s.tokens })
        (keys_where (λ h t. in_family f h t && not t.is_refresh) s.tokens) refl
        (λ h t found access gone.
          removed_is_collected (in_family f) h t s.tokens
            (Keyed-Distinct token_key s.tokens v.tokens) found access gone))
]

delete_by_subject-Reports :
    (u : String) (s : Store) → IsKeyed s → Reports s (delete_by_subject u s).0
unfolding delete_by_subject
delete_by_subject-Reports u s v = elim (Bool-cases (str_eq u "")) [
  | inl nobody ↦ rw nobody (tokens_same s s refl)
  | inr named ↦
      let s₁ = record s {
        tokens = delete_where (of_subject u) s.tokens;
        codes = delete_where (code_of_subject u) s.codes;
      } in
      let gone_devices = keys_where (device_of_subject u) s.devices in
      let frame = delete_devices-frame gone_devices s₁ in
      rw named (
        report_by s (delete_devices gone_devices s₁)
          (keys_where (λ h t. of_subject u h t && not t.is_refresh) s.tokens)
          (ap (λ y. Store.hooked y) frame)
          (λ h t found access gone.
            removed_is_collected (of_subject u) h t s.tokens
              (Keyed-Distinct token_key s.tokens v.tokens) found access
              (ap (λ y. get h (Store.tokens y)) (sym frame) ∙ gone)))
]

sweep-Reports : (now : ℕ) (s : Store) → IsKeyed s → Reports s (sweep now s).0
unfolding sweep
sweep-Reports now s v =
    let s₁ = record s {
      codes = delete_where (code_expired now) s.codes;
      user_codes = sweep_user_codes now s.devices s.user_codes;
      devices = delete_where (device_expired now) s.devices;
    } in
    let s₂ = (sweep_tokens now s.tokens s₁).0 in
    let live = clients_with_live_tokens_locked now s₂ in
    let s₃ = record s₂ {
      used_codes = delete_where (used_expired now) s₂.used_codes;
      rotated = delete_where (rotated_expired now) s₂.rotated;
      clients = delete_where (client_idle now s₂.client_retention live) s₂.clients;
    } in
    report_by s s₃ (sweep_tokens now s.tokens s₁).1
      (ap (λ y. Store.hooked y) (sweep_tokens-frame now s.tokens s₁))
      (λ h t found access gone. swept_is_returned now s.tokens s₁ h t found access gone)

report_touching :
    (op : Op) (s : Store) → IsKeyed s → touches_tokens op ≡ true → Reports s (apply op s)
unfolding apply
report_touching (Op.put_token x) s v e =
    λ h t on found access gone. unfold put_token in ground (arith, get-put x.hash h x s.tokens)
report_touching (Op.delete_token k) s v e =
    unfold delete_token in
    report_by s (delete_token_locked k s).0 (delete_token_locked k s).1
      (ap (λ x. Store.hooked x) (delete_token_locked-frame k s))
      (λ h t found access gone. deleted_is_returned k h t s found access gone)
report_touching (Op.take_token k) s v e = elim (Option-cases (get k s.tokens)) [
  | inl nothing ↦ unfold take_token in rw (nothing, apply) (tokens_same s s refl)
  | inr (x, at_k) ↦
      unfold take_token in
      rw (at_k, apply)
        (report_by s (delete_token_locked k s).0 (delete_token_locked k s).1
          (ap (λ y. Store.hooked y) (delete_token_locked-frame k s))
          (λ h t found access gone. deleted_is_returned k h t s found access gone))
]
report_touching (Op.delete_family f) s v e = delete_family-Reports f s v
report_touching (Op.delete_by_subject u) s v e = delete_by_subject-Reports u s v
report_touching (Op.sweep now) s v e = sweep-Reports now s v
report_touching _ s v e = absurd (false≢true e)

-- Every operation on a well-formed store passes the hash of each access token that it removes to
-- the revocation hook, if one is installed.
pub apply-Reports : (op : Op) (s : Store) → IsKeyed s → Reports s (apply op s)
apply-Reports op s v = elim (Bool-cases (touches_tokens op)) [
  | inl touching ↦ report_touching op s v touching
  | inr other ↦ tokens_same s (apply op s) (tokens-untouched op s other)
]
