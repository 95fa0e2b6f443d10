-- ===== src/Auth/RateLimiter.antt =====
-- internal/auth/rate_limiter.go: failed attempts by IP address in a sliding window. The time of a
-- call is an argument. The configured number of attempts is not negative.
pub mod Window
pub mod Cleanup
pub mod Refinement
use pgedge_postgres_mcp.Prelude.{
  ℕ, ◌+◌, ◌-◌, ◌*◌, String, Bool, true, Option, none, some, List, [], ◌∷◌, ◌++◌, ltb, if◌then◌else◌,
  is_empty,
}
use pgedge_postgres_mcp.GoMap.{GoMap, get, put, delete}

pub record RateLimiter : Type 0 where
  pub attempts : GoMap (List ℕ)
  pub window_duration : ℕ
  pub max_attempts : ℕ

-- `NewRateLimiter`; a minute is 60 * 10^9 nanoseconds
abbrev pub new_rate_limiter : ℕ → ℕ → RateLimiter
new_rate_limiter window_minutes max_attempts = record {
  attempts = [];
  window_duration = window_minutes * 60_000_000_000;
  max_attempts = max_attempts;
}

-- `timestamp.After(now.Add(-window))`
abbrev pub in_window : ℕ → ℕ → ℕ → Bool
in_window now window t = ltb now (t + window)

-- The loops that count the attempts within the window
unfoldable pub valid_attempts : ℕ → ℕ → List ℕ → ℕ
valid_attempts now window [] = 0
valid_attempts now window (t ∷ ts) =
    (if in_window now window t then 1 else 0) + valid_attempts now window ts

-- `IsAllowed`
unfoldable pub is_allowed : String → ℕ → RateLimiter → Bool
unfolding valid_attempts
is_allowed ip now rl = elim (get ip rl.attempts) [
  | none ↦ true
  | some ts ↦ ltb (valid_attempts now rl.window_duration ts) rl.max_attempts
]

abbrev pub recorded : Option (List ℕ) → List ℕ
recorded none = []
recorded (some ts) = ts

-- `RecordFailedAttempt`; a missing entry is the nil slice
unfoldable pub record_failed_attempt : String → ℕ → RateLimiter → RateLimiter
record_failed_attempt ip now rl = record rl {
  attempts = put ip (recorded (get ip rl.attempts) ++ now ∷ []) rl.attempts;
}

-- `Reset`
unfoldable pub reset : String → RateLimiter → RateLimiter
reset ip rl = record rl { attempts = delete ip rl.attempts }

-- The inner loop of `cleanup`
unfoldable pub still_valid : ℕ → ℕ → List ℕ → List ℕ
still_valid now window [] = []
still_valid now window (t ∷ ts) =
    let rest = still_valid now window ts in if in_window now window t then t ∷ rest else rest

-- The outer loop of `cleanup`
unfoldable pub cleanup_loop : ℕ → ℕ → GoMap (List ℕ) → GoMap (List ℕ)
unfolding still_valid
cleanup_loop now window [] = []
cleanup_loop now window ((ip, ts) ∷ m) =
    let rest = cleanup_loop now window m in
    let kept = still_valid now window ts in if is_empty kept then rest else (ip, kept) ∷ rest

-- `cleanup`
unfoldable pub cleanup : ℕ → RateLimiter → RateLimiter
unfolding cleanup_loop
cleanup now rl = record rl { attempts = cleanup_loop now rl.window_duration rl.attempts }

-- `GetRemainingAttempts`
unfoldable pub get_remaining_attempts : String → ℕ → RateLimiter → ℕ
unfolding valid_attempts
get_remaining_attempts ip now rl = elim (get ip rl.attempts) [
  | none ↦ rl.max_attempts
  | some ts ↦
      let valid = valid_attempts now rl.window_duration ts in
      if ltb rl.max_attempts valid then 0 else rl.max_attempts - valid
]
