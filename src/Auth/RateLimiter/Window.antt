-- ===== src/Auth/RateLimiter/Window.antt =====
-- How many failures within the window block an address.
use pgedge_postgres_mcp.Prelude.{
  ℕ, ◌+◌, ◌<◌, String, ◌≡◌, refl, ◌∙◌, ◌≢◌, inl, inr, true, List, [], ◌∷◌, ◌++◌, arith, eq_iff,
  eq_refl, ltb, Option-cases,
}
use pgedge_postgres_mcp.Auth.RateLimiter.{
  RateLimiter, record_failed_attempt, valid_attempts, is_allowed, get, reset, recorded,
  get_remaining_attempts,
}
use pgedge_postgres_mcp.GoMap.Laws.{get-delete, get-put}

pub valid_attempts-append :
    (now w : ℕ) (xs ys : List ℕ)
    → valid_attempts now w (xs ++ ys) ≡ valid_attempts now w xs + valid_attempts now w ys
unfolding valid_attempts
valid_attempts-append now w [] ys = omega arith
valid_attempts-append now w (x ∷ xs) ys = omega (arith, valid_attempts-append now w xs ys)

-- The failures of an address within the window, none where nothing is on record.
unfoldable pub failures : String → ℕ → RateLimiter → ℕ
failures ip now rl = valid_attempts now rl.window_duration (recorded (get ip rl.attempts))

-- Recording failures at several times, one after the other.
pub record_all : String → List ℕ → RateLimiter → RateLimiter
record_all ip [] rl = rl
record_all ip (t ∷ ts) rl = record_all ip ts (record_failed_attempt ip t rl)

window-record_all :
    (ip : String) (ts : List ℕ) (rl : RateLimiter)
    → ((record_all ip ts rl).window_duration ≡ rl.window_duration)
      × ((record_all ip ts rl).max_attempts ≡ rl.max_attempts)
unfolding record_all
window-record_all ip [] rl = (refl, refl)
window-record_all ip (t ∷ ts) rl =
    let (a, b) = window-record_all ip ts (record_failed_attempt ip t rl) in
    (a ∙ (unfold record_failed_attempt in refl), b ∙ (unfold record_failed_attempt in refl))

pub failures-record :
    (ip : String) (t now : ℕ) (rl : RateLimiter)
    → failures ip now (record_failed_attempt ip t rl)
      ≡ failures ip now rl + valid_attempts now rl.window_duration (t ∷ [])
unfolding failures record_failed_attempt
failures-record ip t now rl =
    let old = recorded (get ip rl.attempts) in
    rw (get-put, eq_refl ip) (valid_attempts-append now rl.window_duration old (t ∷ []))

failures-record_all :
    (ip : String) (ts : List ℕ) (rl : RateLimiter) (now : ℕ)
    → failures ip now (record_all ip ts rl)
      ≡ failures ip now rl + valid_attempts now rl.window_duration ts
unfolding record_all record_failed_attempt
failures-record_all ip [] rl now = unfold valid_attempts in omega arith
failures-record_all ip (t ∷ ts) rl now =
    let rl' = record_failed_attempt ip t rl in
    let later : failures ip now (record_all ip ts rl')
        ≡ failures ip now rl' + valid_attempts now rl.window_duration ts =
      failures-record_all ip ts rl' now in
    omega (
      arith,
      later,
      failures-record ip t now rl,
      valid_attempts-append now rl.window_duration (t ∷ []) ts,
    )

-- `IsAllowed` compares the failures within the window, but lets every address through that has
-- nothing on record.
pub is_allowed-failures :
    (ip : String) (now : ℕ) (rl : RateLimiter)
    → 0 < rl.max_attempts
    → is_allowed ip now rl ≡ ltb (failures ip now rl) rl.max_attempts
unfolding is_allowed failures
is_allowed-failures ip now rl pos = elim (Option-cases (get ip rl.attempts)) [
  | inl nothing ↦ rw (nothing, is_allowed) (unfold valid_attempts in ground arith)
  | inr (ts, found) ↦ rw (found, is_allowed) refl
]

-- After failures at given times an address is allowed exactly if those of them, and of the ones on
-- record before, that are within the window are fewer than the maximum, provided that this is
-- positive.
pub is_allowed-record_all :
    (ip : String) (ts : List ℕ) (now : ℕ) (rl : RateLimiter)
    → 0 < rl.max_attempts
    → is_allowed ip now (record_all ip ts rl)
      ≡ ltb (failures ip now rl + valid_attempts now rl.window_duration ts) rl.max_attempts
is_allowed-record_all ip ts now rl pos =
    let max_same = (window-record_all ip ts rl).1 in
    is_allowed-failures ip now (record_all ip ts rl) (rw max_same pos)
    ∙ rw (failures-record_all ip ts rl now) (rw max_same)

record_all-other :
    (ip other : String) (ts : List ℕ) (rl : RateLimiter)
    → ip ≢ other
    → get other (record_all ip ts rl).attempts ≡ get other rl.attempts
unfolding record_all record_failed_attempt
record_all-other ip other [] rl ne = refl
record_all-other ip other (t ∷ ts) rl ne =
    let old = recorded (get ip rl.attempts) in
    ground (
      arith,
      record_all-other ip other ts (record_failed_attempt ip t rl) ne,
      eq_iff ip other,
      get-put ip other (old ++ t ∷ []) rl.attempts,
    )

-- The failures of one address do not count against another.
pub is_allowed-other :
    (ip other : String) (ts : List ℕ) (now : ℕ) (rl : RateLimiter)
    → ip ≢ other
    → is_allowed other now (record_all ip ts rl) ≡ is_allowed other now rl
unfolding is_allowed
is_allowed-other ip other ts now rl ne =
    let (w, m) = window-record_all ip ts rl in
    ground (arith, record_all-other ip other ts rl ne, w, m)

-- A reset lets the address through at once, whatever was on record.
pub is_allowed-reset :
    (ip : String) (now : ℕ) (rl : RateLimiter) → is_allowed ip now (reset ip rl) ≡ true
unfolding is_allowed reset
is_allowed-reset ip now rl = ground (arith, get-delete ip ip rl.attempts, eq_refl ip)

-- The attempts left to an address are positive exactly if it is allowed, provided that the limiter
-- allows any attempt at all.
pub get_remaining_attempts-is_allowed :
    (ip : String) (now : ℕ) (rl : RateLimiter)
    → 0 < rl.max_attempts
    → is_allowed ip now rl ≡ ltb 0 (get_remaining_attempts ip now rl)
unfolding is_allowed get_remaining_attempts
get_remaining_attempts-is_allowed ip now rl pos = elim (Option-cases (get ip rl.attempts)) [
  | inl nothing ↦ rw (nothing, is_allowed, get_remaining_attempts) (ground arith)
  | inr (ts, found) ↦ rw (found, is_allowed, get_remaining_attempts) (ground arith)
]
