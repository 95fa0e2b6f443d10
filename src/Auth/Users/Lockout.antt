-- ===== src/Auth/Users/Lockout.antt =====
-- An account under repeated failed attempts.
use pgedge_postgres_mcp.Prelude.{
  ℕ, ◌+◌, ◌<◌, String, ◌≡◌, ap, ◌∙◌, inl, inr, Bool, true, false, not, some, List, [], ◌∷◌, arith,
  eq_refl, ltb, Bool-cases, Option-cases, length, all,
}
use pgedge_postgres_mcp.Auth.Users.{UserStore, is_active, User, notify_revoked}
use pgedge_postgres_mcp.GoMap.{get}
use pgedge_postgres_mcp.GoMap.Laws.{get-put}
use pgedge_postgres_mcp.Auth.Users.Authenticate.{Attempt, authenticate_user, failed_once}

module _ (verify_password : String → String → Bool) (username : String)
    (max_failed_attempts : ℕ) where
  -- The attempts one after the other
  unfoldable pub authenticate_all : List Attempt → UserStore → UserStore
  authenticate_all [] s = s
  authenticate_all (a ∷ ts) s =
      authenticate_all ts (authenticate_user verify_password username max_failed_attempts a s).0

  -- Whether every attempt comes with a wrong password.
  abbrev pub all_wrong : String → List Attempt → Bool
  all_wrong password_hash ts =
      all (λ a. not (verify_password (Attempt.password a) password_hash)) ts

  refused_when_disabled :
      (a : Attempt) (s : UserStore)
      → is_active username s ≡ false
      → (authenticate_user verify_password username max_failed_attempts a s).0 ≡ s
  unfolding authenticate_user is_active
  refused_when_disabled a s off = elim (Option-cases (get username s.users)) [
    | inl e ↦ ground (arith, e)
    | inr (u, e) ↦ ground (arith, e)
  ]

  stays_disabled :
      (ts : List Attempt) (s : UserStore)
      → is_active username s ≡ false
      → is_active username (authenticate_all ts s) ≡ false
  unfolding authenticate_all
  stays_disabled [] s off = off
  stays_disabled (a ∷ ts) s off =
      ap (λ x. is_active username (authenticate_all ts x)) (refused_when_disabled a s off)
      ∙ stays_disabled ts s off

  -- An enabled account that is short of the threshold is, after any number of further attempts
  -- with wrong passwords, active if and only if the attempts in all are still short of the
  -- threshold.
  pub failures-lock :
      (ts : List Attempt) (u : User) (s : UserStore)
      → get username s.users ≡ some u
      → u.enabled ≡ true
      → u.failed_attempts < max_failed_attempts
      → all_wrong u.password_hash ts ≡ true
      → is_active username (authenticate_all ts s)
        ≡ ltb (u.failed_attempts + length ts) max_failed_attempts
  unfolding authenticate_all
  failures-lock [] u s found on short wrong = unfold is_active in ground (arith, found)
  failures-lock (a ∷ ts) u s found on short wrong =
      let s₁ = (authenticate_user verify_password username max_failed_attempts a s).0 in
      let wrong₁ : verify_password a.password u.password_hash ≡ false = ground arith in
      let u₁ = failed_once u max_failed_attempts in
      let found₁ : get username s₁.users ≡ some u₁ =
        unfold authenticate_user notify_revoked in
        ground (arith, found, get-put username username u₁ s.users, eq_refl username) in
      elim (Bool-cases (ltb (u.failed_attempts + 1) max_failed_attempts)) [
        | inl more ↦
            failures-lock ts u₁ s₁ found₁ (ground arith) (ground arith) (ground arith)
            ∙ ap (λ n. ltb n max_failed_attempts) (omega arith)
        | inr last ↦
            stays_disabled ts s₁ (unfold is_active in rw found₁ (ground arith)) ∙ ground arith
      ]
