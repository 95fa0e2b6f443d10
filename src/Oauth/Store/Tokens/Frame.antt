-- ===== src/Oauth/Store/Tokens/Frame.antt =====
-- What the deletions of tokens and devices leave alone.
use pgedge_postgres_mcp.Prelude.{ℕ, String, ◌≡◌, refl, inl, inr, List, [], ◌∷◌, arith, Bool-cases}
use pgedge_postgres_mcp.Oauth.Types.{Store}
use pgedge_postgres_mcp.Oauth.Store.Tokens.{
  delete_token_locked, delete_devices, delete_device_locked, GoMap, Token, get,
}
use pgedge_postgres_mcp.Oauth.Store.Sweep.{sweep_tokens, expired_token}

-- Deleting a token touches the tokens only.
pub delete_token_locked-frame :
    (h : String) (s : Store)
    → (delete_token_locked h s).0 ≡ record s { tokens = (delete_token_locked h s).0.tokens }
unfolding delete_token_locked
delete_token_locked-frame h s = ground arith

pub sweep_tokens-frame :
    (now : ℕ) (m : GoMap Token) (s : Store)
    → (sweep_tokens now m s).0 ≡ record s { tokens = (sweep_tokens now m s).0.tokens }
unfolding sweep_tokens
sweep_tokens-frame now [] s = refl
sweep_tokens-frame now ((h, t) ∷ m) s = elim (Bool-cases (expired_token now (get h s.tokens))) [
  | inl old ↦ rw old (
      ground (
        arith,
        delete_token_locked-frame h s,
        sweep_tokens-frame now m (delete_token_locked h s).0,
      ))
  | inr kept ↦ rw kept (sweep_tokens-frame now m s)
]

-- Deleting devices touches the devices and their index only.
pub delete_devices-frame :
    (hs : List String) (s : Store)
    → delete_devices hs s ≡ record s {
      devices = (delete_devices hs s).devices;
      user_codes = (delete_devices hs s).user_codes;
    }
unfolding delete_devices
delete_devices-frame [] s = refl
delete_devices-frame (h ∷ hs) s = ground (arith, delete_devices-frame hs (delete_device_locked h s))
