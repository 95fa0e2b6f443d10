-- ===== src/Database/ClientManager/Revoked.antt =====
-- cmd/pgedge-pg-mcp-svr/main.go: the revocation hook of the OAuth store, `OnTokensRevoked`, which
-- releases the connections of the tokens that it is called with.
use pgedge_postgres_mcp.Prelude.{
  ℕ, String, ◌≡◌, refl, ap, ◌∙◌, inl, inr, true, false, false≢true, none, some, List, [], ◌∷◌,
  arith, eq_iff, str_eq, if◌then◌else◌, Option-cases, is_empty, contains, some_not_none,
}
use pgedge_postgres_mcp.GoMap.{get, GoMap}
use pgedge_postgres_mcp.Database.ClientManager.{ClientManager, clients_of, is_closed}
use pgedge_postgres_mcp.Database.ClientManager.Changes.{remove_clients, remove_client}
use pgedge_postgres_mcp.Oauth.Store.Ops.{Op, apply}
use pgedge_postgres_mcp.Oauth.Types.{Store, Token}
use pgedge_postgres_mcp.GoMap.Laws.{get-delete}
use pgedge_postgres_mcp.Oauth.Store.Keys.{IsKeyed}
use pgedge_postgres_mcp.Oauth.Store.Reports.{apply-Reports}
use pgedge_postgres_mcp.Database.ClientManager.Kept.Changes.{removes-KeptOrClosed}

-- The call of the hook
unfoldable pub on_tokens_revoked : List String → ClientManager → ClientManager
on_tokens_revoked hashes cm = if is_empty hashes then cm else remove_clients hashes cm

remove_client-get :
    (k h : String) (cm : ClientManager)
    → get h (remove_client k cm).clients ≡ (if str_eq k h then none else get h cm.clients)
unfolding remove_client
remove_client-get k h cm = elim (Option-cases (get k cm.clients)) [
  | inl nothing ↦ ground (arith, nothing, eq_iff k h)
  | inr (inner, found) ↦ ground (arith, found, get-delete k h cm.clients)
]

-- The removal leaves nothing of the tokens that are named, and everything of the others.
pub remove_clients-get :
    (hs : List String) (h : String) (cm : ClientManager)
    → get h (remove_clients hs cm).clients ≡ (if contains hs h then none else get h cm.clients)
unfolding remove_clients
remove_clients-get [] h cm = refl
remove_clients-get (k ∷ hs) h cm =
    ground (arith, remove_clients-get hs h (remove_client k cm), remove_client-get k h cm)

named_not_empty : (hs : List String) (h : String) → contains hs h ≡ true → is_empty hs ≡ false
named_not_empty [] h e = absurd (false≢true e)
named_not_empty (k ∷ hs) h e = refl

nothing_left :
    (name h : String) (m : GoMap (GoMap ℕ)) → get h m ≡ none → get name (clients_of h m) ≡ none
nothing_left name h m e = rw (e, clients_of) (unfold get in refl)

-- An access token that an operation removes from a well-formed OAuth store with a hook has no
-- client left once the hook has run over the hashes that were reported, and every client that it
-- had is closed.
pub revoked_token_loses_clients :
    (op : Op) (s : Store) (h name : String) (t : Token) (cm : ClientManager)
    → IsKeyed s
    → s.hooked ≡ true
    → get h s.tokens ≡ some t
    → t.is_refresh ≡ false
    → get h (apply op s).tokens ≡ none
    → let after = on_tokens_revoked (apply op s).notified cm in
      (get h after.clients ≡ none)
      × ((c : ℕ) → get name (clients_of h cm.clients) ≡ some c → is_closed c after.closed ≡ true)
revoked_token_loses_clients op s h name t cm v hook found access gone =
    let hs = (apply op s).notified in
    let reported : contains hs h ≡ true = apply-Reports op s v h t hook found access gone in
    let is : on_tokens_revoked hs cm ≡ remove_clients hs cm =
      unfold on_tokens_revoked in ground (arith, named_not_empty hs h reported) in
    let left : get h (on_tokens_revoked hs cm).clients ≡ none =
      ap (λ x. get h x.clients) is ∙ remove_clients-get hs h cm ∙ rw reported in
    (
      left,
      λ c before. elim (removes-KeptOrClosed h name c hs cm (inl before)) [
        | inr over ↦ ap (λ x. is_closed c x.closed) is ∙ over
        | inl kept ↦ some_not_none _ c kept (
            nothing_left name h (remove_clients hs cm).clients
              (remove_clients-get hs h cm ∙ rw reported))
      ],
    )
