-- ===== src/Auth/RateLimiter/Cleanup.antt =====
-- The answers of the limiter before and after its background cleanup.
use pgedge_postgres_mcp.Prelude.{
  ℕ, ◌≤◌, ◌<◌, String, ◌≡◌, refl, inl, inr, true, false, false≢true, Option, none, some, List, [],
  ◌∷◌, arith, eq_iff, if◌then◌else◌, Option-cases, is_empty,
}
use pgedge_postgres_mcp.Auth.RateLimiter.{
  RateLimiter, valid_attempts, still_valid, cleanup_loop, is_allowed, get_remaining_attempts, GoMap,
  cleanup,
}
use pgedge_postgres_mcp.GoMap.{has, Distinct, get}
use pgedge_postgres_mcp.GoMap.Laws.{get-none-has}

-- What has left the window by one time has left it for good.
pub valid_attempts-still_valid :
    (before now w : ℕ) (ts : List ℕ)
    → before ≤ now
    → valid_attempts now w (still_valid before w ts) ≡ valid_attempts now w ts
unfolding valid_attempts still_valid
valid_attempts-still_valid before now w [] le = refl
valid_attempts-still_valid before now w (t ∷ ts) le =
    ground (arith, valid_attempts-still_valid before now w ts le)

abbrev pub cleaned : ℕ → ℕ → Option (List ℕ) → Option (List ℕ)
cleaned now w none = none
cleaned now w (some ts) =
    if is_empty (still_valid now w ts) then none else some (still_valid now w ts)

pub has-cleanup_loop :
    (now w : ℕ) (ip : String) (m : GoMap (List ℕ))
    → has ip m ≡ false
    → has ip (cleanup_loop now w m) ≡ false
unfolding cleanup_loop has
has-cleanup_loop now w ip [] e = refl
has-cleanup_loop now w ip ((k, ts) ∷ m) e = ground (arith, has-cleanup_loop now w ip m)

pub get-cleanup_loop :
    (now w : ℕ) (ip : String) (m : GoMap (List ℕ))
    → Distinct m
    → get ip (cleanup_loop now w m) ≡ cleaned now w (get ip m)
unfolding cleanup_loop get
get-cleanup_loop now w ip [] d = refl
get-cleanup_loop now w ip ((k, ts) ∷ m) d =
    ground (arith, eq_iff k ip, get-none-has ip m, get-cleanup_loop now w ip m d.1)

-- Nothing valid is left when the cleaned list is empty.
pub empty_has_none : (now w : ℕ) (ts : List ℕ) → is_empty ts ≡ true → valid_attempts now w ts ≡ 0
unfolding valid_attempts
empty_has_none now w [] e = refl
empty_has_none now w (t ∷ ts) e = absurd (false≢true e)

-- A cleanup at an earlier time changes no later answer of `IsAllowed` or `GetRemainingAttempts`,
-- provided that the limiter allows any attempt at all and its addresses are distinct.
pub cleanup_lem :
    (ip : String) (before now : ℕ) (rl : RateLimiter)
    → Distinct rl.attempts
    → before ≤ now
    → 0 < rl.max_attempts
    → (is_allowed ip now (cleanup before rl) ≡ is_allowed ip now rl)
      × (get_remaining_attempts ip now (cleanup before rl) ≡ get_remaining_attempts ip now rl)
unfolding is_allowed get_remaining_attempts cleanup
cleanup_lem ip before now rl d le pos =
    let w = rl.window_duration in
    let after : get ip (cleanup before rl).attempts ≡ cleaned before w (get ip rl.attempts) =
      get-cleanup_loop before w ip rl.attempts d in
    elim (Option-cases (get ip rl.attempts)) [
      | inl nothing ↦ ground (arith, after, nothing)
      | inr (ts, found) ↦ ground (
        arith,
        after,
        found,
        valid_attempts-still_valid before now w ts le,
        empty_has_none now w (still_valid before w ts),
      )
    ]
