-- ===== src/Auth/RateLimiter/Refinement.antt =====
-- The limiter against its specification, a log of the failures since the last reset, through any
-- sequence of calls, the background cleanup among them.
use pgedge_postgres_mcp.Prelude.{
  ℕ, ◌+◌, ◌*◌, ◌≤◌, ◌<◌, String, ◌≡◌, refl, ◌∙◌, inl, inr, true, false, ◌&&◌, List, [], ◌∷◌, ◌++◌,
  arith, eq_iff, str_eq, ltb, if◌then◌else◌, Bool-cases, Option-cases, subst,
}
use pgedge_postgres_mcp.Auth.RateLimiter.{
  RateLimiter, in_window, record_failed_attempt, cleanup, reset, valid_attempts, recorded,
  still_valid, new_rate_limiter, cleanup_loop, is_allowed,
}
use pgedge_postgres_mcp.GoMap.{Distinct, get, GoMap}
use pgedge_postgres_mcp.Auth.RateLimiter.Window.{failures, failures-record, is_allowed-failures}
use pgedge_postgres_mcp.GoMap.Laws.{get-put, get-delete}
use pgedge_postgres_mcp.GoMap.Distinct.{put-Distinct, delete-Distinct}
use pgedge_postgres_mcp.Auth.RateLimiter.Cleanup.{
  cleaned, get-cleanup_loop, valid_attempts-still_valid, empty_has_none, has-cleanup_loop,
}

pub data LimiterOp : Type 0 where
  failed_at : String → ℕ → LimiterOp
  reset_of : String → LimiterOp
  cleanup_at : ℕ → LimiterOp

-- The code
pub limiter_apply : LimiterOp → RateLimiter → RateLimiter
limiter_apply (failed_at ip t) rl = record_failed_attempt ip t rl
limiter_apply (reset_of ip) rl = reset ip rl
limiter_apply (cleanup_at t) rl = cleanup t rl

pub limiter_run : List LimiterOp → RateLimiter → RateLimiter
limiter_run [] rl = rl
limiter_run (op ∷ ops) rl = limiter_run ops (limiter_apply op rl)

-- The specification: the failures, the oldest first, less those of the addresses that were reset
abbrev pub Log : Type 0
Log = List (String × ℕ)

abbrev pub forget : String → Log → Log
forget ip [] = []
forget ip ((k, t) ∷ log) = if str_eq k ip then forget ip log else (k, t) ∷ forget ip log

abbrev pub log_apply : LimiterOp → Log → Log
log_apply (failed_at ip t) log = log ++ (ip, t) ∷ []
log_apply (reset_of ip) log = forget ip log
log_apply (cleanup_at t) log = log

abbrev pub log_run : List LimiterOp → Log → Log
log_run [] log = log
log_run (op ∷ ops) log = log_run ops (log_apply op log)

-- The failures of an address that are less than the window old
abbrev pub logged : String → ℕ → ℕ → Log → ℕ
logged ip now w [] = 0
logged ip now w ((k, t) ∷ log) =
    (if str_eq k ip && ltb now (t + w) then 1 else 0) + logged ip now w log

-- The clock of the calls does not go back.
abbrev pub InOrder : ℕ → List LimiterOp → Type 0
InOrder clock [] = Unit {0}
InOrder clock (failed_at ip t ∷ ops) = (clock ≤ t) × InOrder t ops
InOrder clock (reset_of ip ∷ ops) = InOrder clock ops
InOrder clock (cleanup_at t ∷ ops) = (clock ≤ t) × InOrder t ops

-- The time of the last call
abbrev pub last_time : ℕ → List LimiterOp → ℕ
last_time clock [] = clock
last_time clock (failed_at ip t ∷ ops) = last_time t ops
last_time clock (reset_of ip ∷ ops) = last_time clock ops
last_time clock (cleanup_at t ∷ ops) = last_time t ops

-- From `clock` on, the limiter and the log count the same failures.
pub record Refines (clock w max : ℕ) (rl : RateLimiter) (log : Log) : Type 0 where
  pub distinct : Distinct rl.attempts
  pub window_is : rl.window_duration ≡ w
  pub max_is : rl.max_attempts ≡ max
  pub agrees : (ip : String) (now : ℕ) → clock ≤ now → failures ip now rl ≡ logged ip now w log

logged-append :
    (ip : String) (now w : ℕ) (a b : Log)
    → logged ip now w (a ++ b) ≡ logged ip now w a + logged ip now w b
logged-append ip now w [] b = omega arith
logged-append ip now w ((k, t) ∷ a) b = omega (arith, logged-append ip now w a b)

logged-forget :
    (ip other : String) (now w : ℕ) (log : Log)
    → logged other now w (forget ip log) ≡ (if str_eq ip other then 0 else logged other now w log)
logged-forget ip other now w [] = ground arith
logged-forget ip other now w ((k, t) ∷ log) =
    ground (arith, eq_iff ip other, eq_iff k ip, eq_iff k other, logged-forget ip other now w log)

failures-other :
    (ip other : String) (t now : ℕ) (rl : RateLimiter)
    → str_eq ip other ≡ false
    → failures other now (record_failed_attempt ip t rl) ≡ failures other now rl
unfolding failures record_failed_attempt
failures-other ip other t now rl ne = rw (get-put, ne) refl

failures-reset :
    (ip other : String) (now : ℕ) (rl : RateLimiter)
    → failures other now (reset ip rl) ≡ (if str_eq ip other then 0 else failures other now rl)
unfolding failures reset
failures-reset ip other now rl =
    unfold valid_attempts in
    elim (Bool-cases (str_eq ip other)) [
      | inl same ↦ ground (arith, get-delete ip other rl.attempts, same)
      | inr ne ↦ ground (arith, get-delete ip other rl.attempts, ne)
    ]

failures-cleanup :
    (ip : String) (before now : ℕ) (rl : RateLimiter)
    → Distinct rl.attempts
    → before ≤ now
    → failures ip now (cleanup before rl) ≡ failures ip now rl
unfolding failures cleanup
failures-cleanup ip before now rl d le =
    let w = rl.window_duration in
    let after : get ip (cleanup before rl).attempts ≡ cleaned before w (get ip rl.attempts) =
      get-cleanup_loop before w ip rl.attempts d in
    elim (Option-cases (get ip rl.attempts)) [
      | inl nothing ↦ ground (arith, after, nothing)
      | inr (ts, found) ↦ ground (
        arith,
        after,
        found,
        valid_attempts-still_valid before now w ts le,
        empty_has_none now w (still_valid before w ts),
      )
    ]

failures-recorded :
    (ip other : String) (t now : ℕ) (rl : RateLimiter)
    → str_eq ip other ≡ true
    → failures other now (record_failed_attempt ip t rl)
      ≡ failures other now rl + (if in_window now rl.window_duration t then 1 else 0)
failures-recorded ip other t now rl same =
    let here =
      subst
        (λ x.
          failures x now (record_failed_attempt ip t rl)
          ≡ failures x now rl + valid_attempts now rl.window_duration (t ∷ []))
        ((eq_iff ip other).0 same) (failures-record ip t now rl) in
    here ∙ (unfold valid_attempts in ground arith)

cleanup_loop-Distinct :
    (now w : ℕ) (m : GoMap (List ℕ)) → Distinct m → Distinct (cleanup_loop now w m)
unfolding cleanup_loop
cleanup_loop-Distinct now w [] d = d
cleanup_loop-Distinct now w ((k, ts) ∷ m) d =
    ground (arith, has-cleanup_loop now w k m, cleanup_loop-Distinct now w m d.1)

pub limiter_apply-Refines :
    (clock w max : ℕ) (op : LimiterOp) (rl : RateLimiter) (log : Log)
    → InOrder clock (op ∷ [])
    → Refines clock w max rl log
    → Refines (last_time clock (op ∷ [])) w max (limiter_apply op rl) (log_apply op log)
unfolding limiter_apply
limiter_apply-Refines clock w max (failed_at ip t) rl log o r = record {
  distinct =
      unfold record_failed_attempt in
      put-Distinct ip (recorded (get ip rl.attempts) ++ t ∷ []) rl.attempts r.distinct;
  window_is = unfold record_failed_attempt in r.window_is;
  max_is = unfold record_failed_attempt in r.max_is;
  agrees = λ other now le.
      let before = r.agrees other now (omega arith) in
      let appended = logged-append other now w log ((ip, t) ∷ []) in
      elim (Bool-cases (str_eq ip other)) [
        | inl same ↦
            ground
              (arith, failures-recorded ip other t now rl same, before, appended, same, r.window_is)
        | inr ne ↦ ground (arith, failures-other ip other t now rl ne, before, appended, ne)
      ];
}
limiter_apply-Refines clock w max (reset_of ip) rl log o r = record {
  distinct = unfold reset in delete-Distinct ip rl.attempts r.distinct;
  window_is = unfold reset in r.window_is;
  max_is = unfold reset in r.max_is;
  agrees = λ other now le. ground (
    arith,
    failures-reset ip other now rl,
    logged-forget ip other now w log,
    r.agrees other now le,
  );
}
limiter_apply-Refines clock w max (cleanup_at t) rl log o r = record {
  distinct = unfold cleanup in cleanup_loop-Distinct t rl.window_duration rl.attempts r.distinct;
  window_is = unfold cleanup in r.window_is;
  max_is = unfold cleanup in r.max_is;
  agrees = λ ip now le. failures-cleanup ip t now rl r.distinct le ∙ r.agrees ip now (omega arith);
}

limiter_run-Refines :
    (w max : ℕ) (ops : List LimiterOp) (clock : ℕ) (rl : RateLimiter) (log : Log)
    → InOrder clock ops
    → Refines clock w max rl log
    → Refines (last_time clock ops) w max (limiter_run ops rl) (log_run ops log)
unfolding limiter_run
limiter_run-Refines w max [] clock rl log o r = r
limiter_run-Refines w max (failed_at ip t ∷ ops) clock rl log o r =
    limiter_run-Refines w max ops t (limiter_apply (failed_at ip t) rl)
      (log_apply (failed_at ip t) log) o.1
      (limiter_apply-Refines clock w max (failed_at ip t) rl log (o.0, tt) r)
limiter_run-Refines w max (reset_of ip ∷ ops) clock rl log o r =
    limiter_run-Refines w max ops clock (limiter_apply (reset_of ip) rl)
      (log_apply (reset_of ip) log) o (limiter_apply-Refines clock w max (reset_of ip) rl log tt r)
limiter_run-Refines w max (cleanup_at t ∷ ops) clock rl log o r =
    limiter_run-Refines w max ops t (limiter_apply (cleanup_at t) rl) (log_apply (cleanup_at t) log)
      o.1 (limiter_apply-Refines clock w max (cleanup_at t) rl log (o.0, tt) r)

new-Refines :
    (minutes max : ℕ) → Refines 0 (minutes * 60_000_000_000) max (new_rate_limiter minutes max) []
new-Refines minutes max = record {
  distinct = tt;
  window_is = refl;
  max_is = refl;
  agrees = λ ip now le. unfold failures valid_attempts get in refl;
}

-- After any sequence of failures, resets and cleanups on a new limiter, at times that do not go
-- back, an address is allowed at a later time exactly if the log of the failures since its last
-- reset has fewer of them within the window than the maximum, provided that this is positive.
pub limiter_run_refines :
    (minutes max : ℕ) (ops : List LimiterOp) (ip : String) (now : ℕ)
    → 0 < max
    → InOrder 0 ops
    → last_time 0 ops ≤ now
    → is_allowed ip now (limiter_run ops (new_rate_limiter minutes max))
      ≡ ltb (logged ip now (minutes * 60_000_000_000) (log_run ops [])) max
limiter_run_refines minutes max ops ip now pos o le =
    let rl = limiter_run ops (new_rate_limiter minutes max) in
    let r =
      limiter_run-Refines (minutes * 60_000_000_000) max ops 0 (new_rate_limiter minutes max) [] o
        (new-Refines minutes max) in
    ground (arith, is_allowed-failures ip now rl (rw r.max_is pos), r.max_is, r.agrees ip now le)
