-- ===== src/Oauth/Store/Tokens/Sizes.antt =====
-- The sizes of the collections after deletions.
use pgedge_postgres_mcp.Prelude.{
  ℕ, ◌≤◌, String, inl, inr, List, [], ◌∷◌, arith, Bool-cases, Option-cases,
}
use pgedge_postgres_mcp.GoMap.Laws.{size-put, size-delete-le, has-get}
use pgedge_postgres_mcp.Oauth.Types.{Store}
use pgedge_postgres_mcp.Oauth.Store.Tokens.{
  delete_devices, cascade, delete_links, delete_token_locked, Token, unlinked, delete_device_locked,
  remove_first,
}
use pgedge_postgres_mcp.Oauth.Store.Sweep.{sweep_tokens, expired_token}
use pgedge_postgres_mcp.GoMap.{GoMap, size, get, delete}

size-cascade : (hs : List String) (m : GoMap Token) → size (cascade hs m).0 ≤ size m
unfolding cascade
size-cascade [] m = omega arith
size-cascade (h ∷ hs) m = omega (arith, size-cascade hs (delete h m), size-delete-le h m)

size-unlinked : (h p : String) (m : GoMap Token) → size (unlinked h p m (get p m)) ≤ size m
size-unlinked h p m = elim (Option-cases (get p m)) [
  | inl gone ↦ rw gone (omega arith)
  | inr (t, found) ↦ rw found (
      ground
        (arith, size-put p (record t { issued = remove_first h t.issued }) m, has-get p m t found))
]

size-delete_links :
    (h : String) (t : Token) (m : GoMap Token) → size (delete_links h t m).0 ≤ size m
unfolding delete_links
size-delete_links h t m = ground (arith, size-cascade t.issued m, size-unlinked h t.refresh_hash m)

pub size-delete_token_locked :
    (h : String) (s : Store) → size (delete_token_locked h s).0.tokens ≤ size s.tokens
unfolding delete_token_locked
size-delete_token_locked h s = elim (Option-cases (get h s.tokens)) [
  | inl gone ↦ rw gone (omega arith)
  | inr (t, found) ↦ rw found (
      unfold delete_links in
      ground (
        arith,
        size-delete-le h s.tokens,
        size-cascade t.issued (delete h s.tokens),
        size-unlinked h t.refresh_hash (delete h s.tokens),
      ))
]

pub size-sweep_tokens :
    (now : ℕ) (m : GoMap Token) (s : Store) → size (sweep_tokens now m s).0.tokens ≤ size s.tokens
unfolding sweep_tokens
size-sweep_tokens now [] s = omega arith
size-sweep_tokens now ((h, t) ∷ m) s = elim (Bool-cases (expired_token now (get h s.tokens))) [
  | inl old ↦ rw old (
      omega
        (arith, size-delete_token_locked h s, size-sweep_tokens now m (delete_token_locked h s).0))
  | inr kept ↦ rw kept (size-sweep_tokens now m s)
]

pub size-delete_devices :
    (hs : List String) (s : Store) → size (delete_devices hs s).devices ≤ size s.devices
unfolding delete_devices
size-delete_devices [] s = omega arith
size-delete_devices (h ∷ hs) s =
    omega (arith, size-delete_devices hs (delete_device_locked h s), size-delete-le h s.devices)
