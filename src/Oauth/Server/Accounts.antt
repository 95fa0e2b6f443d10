-- ===== src/Oauth/Server/Accounts.antt =====
-- cmd/pgedge-pg-mcp-svr/main.go: the revocation hook of the user store, which revokes the OAuth
-- tokens of the users that it is called with.
use pgedge_postgres_mcp.Prelude.{
  String, ◌≡◌, sym, ap, ◌∙◌, ◌≢◌, inl, inr, Bool, true, false, false≢true, some, List, [], ◌∷◌,
  arith, eq_iff, str_eq, Bool-cases, Option-cases, contains, subst,
}
use pgedge_postgres_mcp.Oauth.Types.{Token, Store}
use pgedge_postgres_mcp.Oauth.Server.RefreshGrant.{revoke_subject}
use pgedge_postgres_mcp.Auth.Users.{UserStore, is_active}
use pgedge_postgres_mcp.Auth.Users.Withdrawal.{UserOp, apply_user, apply_user-Reports}
use pgedge_postgres_mcp.Oauth.Store.Keys.{IsKeyed}
use pgedge_postgres_mcp.GoMap.{get, Distinct}
use pgedge_postgres_mcp.Oauth.Store.Tokens.{delete_by_subject}
use pgedge_postgres_mcp.Oauth.Store.Ops.{apply, Op}
use pgedge_postgres_mcp.Oauth.Store.Tokens.After.{tokens-delete_by_subject}
use pgedge_postgres_mcp.Oauth.Store.Revocation.{delete_by_subject_lem}
use pgedge_postgres_mcp.Oauth.Store.Keys.Steps.{apply-IsKeyed}

-- The calls of the hook, one after the other
unfoldable pub revoke_all : List String → Store → Store
revoke_all [] s = s
revoke_all (u ∷ us) s = revoke_all us (revoke_subject u s).0

-- No token stands in the subject's name.
abbrev pub HoldsNothing : String → Store → Type 0
HoldsNothing k s = (h : String) (t : Token) → get h s.tokens ≡ some t → t.subject ≢ k

subject_emptied :
    (k : String) (s : Store) → IsKeyed s → k ≢ "" → HoldsNothing k (delete_by_subject k s).0
subject_emptied k s v named h t found same =
    let after = (delete_by_subject_lem s v k named h).0 in
    elim (Option-cases (get h s.tokens)) [
      | inl gone ↦ ground (arith, after, found, gone)
      | inr (u, e) ↦ ground (arith, after, found, e, eq_iff u.subject k, eq_iff t.subject k)
    ]

other_stays_empty :
    (u k : String) (s : Store)
    → IsKeyed s
    → HoldsNothing k s
    → HoldsNothing k (delete_by_subject u s).0
other_stays_empty u k s v none_held h t found same = elim (Bool-cases (str_eq u "")) [
  | inl nobody ↦
      none_held h t (ap (get h) (sym (tokens-delete_by_subject u s ∙ rw nobody)) ∙ found) same
  | inr named ↦ elim (Option-cases (get h s.tokens)) [
    | inl gone ↦
        ground (arith, (delete_by_subject_lem s v u (ground (arith, eq_iff u "")) h).0, found, gone)
    | inr (w, e) ↦ none_held h w e (
        ground
          (arith, (delete_by_subject_lem s v u (ground (arith, eq_iff u "")) h).0, found, e, same))
  ]
]

revoked-IsKeyed : (u : String) (s : Store) → IsKeyed s → IsKeyed (delete_by_subject u s).0
revoked-IsKeyed u s v = unfold apply in apply-IsKeyed (Op.delete_by_subject u) s v

stays_empty :
    (us : List String) (k : String) (s : Store)
    → IsKeyed s
    → HoldsNothing k s
    → HoldsNothing k (revoke_all us s)
unfolding revoke_all
stays_empty [] k s v none_held = none_held
stays_empty (u ∷ us) k s v none_held =
    stays_empty us k (delete_by_subject u s).0 (revoked-IsKeyed u s v)
      (other_stays_empty u k s v none_held)

named_are_emptied :
    (us : List String) (k : String) (s : Store)
    → IsKeyed s
    → k ≢ ""
    → contains us k ≡ true
    → HoldsNothing k (revoke_all us s)
unfolding revoke_all
named_are_emptied [] k s v named inside = absurd (false≢true inside)
named_are_emptied (u ∷ us) k s v named inside = elim (Bool-cases (str_eq u k)) [
  | inl same ↦ stays_empty us k (delete_by_subject u s).0 (revoked-IsKeyed u s v) (
      subst (λ x. HoldsNothing k (delete_by_subject x s).0) (sym ((eq_iff u k).0 same))
        (subject_emptied k s v named))
  | inr other ↦
      named_are_emptied us k (delete_by_subject u s).0 (revoked-IsKeyed u s v) named (ground arith)
]

-- A user that loses access, by whatever operation of the user store, has no OAuth token in a well-
-- formed store once the hook has run over the names that the operation leaves reported, if the
-- hook is installed, the name is not empty and the names of the accounts are distinct.
pub withdrawn_user_loses_tokens :
    (verify : String → String → Bool) (k : String) (op : UserOp) (accounts : UserStore) (s : Store)
    → k ≢ ""
    → Distinct accounts.users
    → accounts.hooked ≡ true
    → IsKeyed s
    → is_active k accounts ≡ true
    → is_active k (apply_user verify op accounts) ≡ false
    → HoldsNothing k (revoke_all (apply_user verify op accounts).notified s)
withdrawn_user_loses_tokens verify k op accounts s named d hook v on off =
    named_are_emptied (apply_user verify op accounts).notified k s v named
      (apply_user-Reports verify k named op accounts d hook on off)
