-- ===== src/Auth/Users/Withdrawal.antt =====
-- Whose access an operation ends, and what the revocation hook is told of it.
use pgedge_postgres_mcp.Prelude.{
  ℕ, String, ◌≡◌, refl, ◌∙◌, ◌≢◌, inl, inr, Bool, true, false, Option, none, some, List, [], ◌∷◌,
  arith, eq_iff, Bool-cases, Option-cases, contains, contains-append,
}
use pgedge_postgres_mcp.Auth.Users.{
  UserStore, notify_revoked, named_only, add_user, is_active, update_user, remove_user, User,
  enabled_entry, reset_failed_attempts, enable_user, disable_user, new_user, annotated,
}
use pgedge_postgres_mcp.GoMap.{Distinct, GoMap, get, keys_where, put, has, delete}
use pgedge_postgres_mcp.GoMap.Laws.{get-put, get-none-has, get-delete}
use pgedge_postgres_mcp.GoMap.Distinct.{contains-keys_where}
use pgedge_postgres_mcp.Auth.Users.Authenticate.{
  Attempt, authenticate_user, failed_once, with_session,
}
use pgedge_postgres_mcp.Auth.Users.Reload.{reload, restore_sessions, session_tokens, withdrawn}

-- The operations of the user store, with what the outside gives to each.
pub data UserOp : Type 0 where
  adding : String → Option String → String → ℕ → UserOp
  updating : String → String → Option String → String → UserOp
  removing : String → UserOp
  authenticating : String → ℕ → Attempt → UserOp
  resetting : String → UserOp
  enabling : String → UserOp
  disabling : String → UserOp
  reloading : Option (GoMap User) → UserOp

module _ (verify_password : String → String → Bool) where
  abbrev pub apply_user : UserOp → UserStore → UserStore
  apply_user (adding name hashed annotation now) s = (add_user name hashed annotation now s).0
  apply_user (updating name password hashed annotation) s =
      (update_user name password hashed annotation s).0
  apply_user (removing name) s = (remove_user name s).0
  apply_user (authenticating name max a) s = (authenticate_user verify_password name max a s).0
  apply_user (resetting name) s = (reset_failed_attempts name s).0
  apply_user (enabling name) s = (enable_user name s).0
  apply_user (disabling name) s = (disable_user name s).0
  apply_user (reloading file) s = (reload file s).0

enabled-restore :
    (k : String) (sessions : GoMap (String × Option ℕ)) (users : GoMap User)
    → enabled_entry (get k (restore_sessions sessions users)) ≡ enabled_entry (get k users)
unfolding restore_sessions
enabled-restore k [] users = refl
enabled-restore k ((j, (token, expires)) ∷ m) users = elim (Option-cases (get j users)) [
  | inl e ↦ rw (restore_sessions, e) (enabled-restore k m users)
  | inr (u, e) ↦
      let u₁ : User = record u { session_token = token; session_expires = expires } in
      let same : enabled_entry (get k (put j u₁ users)) ≡ enabled_entry (get k users) =
        ground (arith, e, get-put j k u₁ users, eq_iff j k) in
      rw (restore_sessions, e) (enabled-restore k m (put j u₁ users) ∙ same)
]

contains-named_only :
    (xs : List String) (k : String) → k ≢ "" → contains (named_only xs) k ≡ contains xs k
contains-named_only [] k named = refl
contains-named_only (x ∷ xs) k named =
    ground (arith, eq_iff x k, eq_iff x "", contains-named_only xs k named)

notified-notify :
    (names : List String) (k : String) (s : UserStore)
    → s.hooked ≡ true
    → k ≢ ""
    → contains names k ≡ true
    → contains (notify_revoked names s).notified k ≡ true
unfolding notify_revoked
notified-notify names k s hook named inside =
    ground (arith, contains-append s.notified (named_only names) k, contains-named_only names k)

module _ (verify_password : String → String → Bool) (k : String) (named : k ≢ "") where
  -- A reload withdraws exactly what the file withdraws, and tells the hook of it.
  reload-notifies :
      (users : GoMap User) (s : UserStore)
      → Distinct s.users
      → s.hooked ≡ true
      → is_active k s ≡ true
      → is_active k (reload (some users) s).0 ≡ false
      → contains (reload (some users) s).0.notified k ≡ true
  unfolding reload
  reload-notifies users s d hook on off =
      let s₁ = record s { users = restore_sessions (session_tokens s.users) users } in
      notified-notify (keys_where (withdrawn users) s.users) k s₁ hook named (
        contains-keys_where (withdrawn users) k s.users d
        ∙ unfold is_active notify_revoked in
          ground (arith, enabled-restore k (session_tokens s.users) users))

  -- An operation on the user store that ends the access of an account by name tells the hook, if
  -- one is installed and the names of the accounts are distinct.
  pub apply_user-Reports :
      (op : UserOp) (s : UserStore)
      → Distinct s.users
      → s.hooked ≡ true
      → is_active k s ≡ true
      → is_active k (apply_user verify_password op s) ≡ false
      → contains (apply_user verify_password op s).notified k ≡ true
  apply_user-Reports (adding name hashed annotation now) s d hook on off =
      elim (Bool-cases (has name s.users)) [
        | inl e ↦ unfold add_user is_active in ground (arith, e)
        | inr e ↦ elim (Option-cases hashed) [
          | inl f ↦ unfold add_user is_active in ground (arith, e, f)
          | inr (h, f) ↦
              unfold add_user is_active in
              ground (
                arith,
                e,
                f,
                get-none-has name s.users,
                eq_iff name k,
                get-put name k (new_user name h annotation now) s.users,
              )
        ]
      ]
  apply_user-Reports (updating name password hashed annotation) s d hook on off =
      elim (Option-cases (get name s.users)) [
        | inl e ↦ unfold update_user is_active in ground (arith, e)
        | inr (u, e) ↦ elim (Option-cases hashed) [
          | inl f ↦
              unfold update_user is_active in
              ground (arith, e, f, eq_iff name k, get-put name k (annotated annotation u) s.users)
          | inr (h, f) ↦
              let u₁ : User = record u { password_hash = h } in
              unfold update_user is_active in
              ground (
                arith,
                e,
                f,
                eq_iff name k,
                get-put name k (annotated annotation u) s.users,
                get-put name k (annotated annotation u₁) s.users,
              )
        ]
      ]
  apply_user-Reports (removing name) s d hook on off =
      unfold remove_user is_active in
      ground (
        arith,
        eq_iff name k,
        get-delete name k s.users,
        notified-notify (name ∷ []) k (record s { users = delete name s.users }),
      )
  apply_user-Reports (authenticating name max a) s d hook on off =
      elim (Option-cases (get name s.users)) [
        | inl e ↦ unfold authenticate_user is_active in ground (arith, e)
        | inr (u, e) ↦ elim (Option-cases a.token) [
          | inl f ↦
              unfold authenticate_user is_active in
              ground (
                arith,
                e,
                f,
                eq_iff name k,
                get-put name k (failed_once u max) s.users,
                notified-notify (name ∷ []) k
                    (record s { users = put name (failed_once u max) s.users }),
              )
          | inr (token, f) ↦
              unfold authenticate_user is_active in
              ground (
                arith,
                e,
                f,
                eq_iff name k,
                get-put name k (failed_once u max) s.users,
                get-put name k (with_session u token a) s.users,
                notified-notify (name ∷ []) k
                    (record s { users = put name (failed_once u max) s.users }),
              )
        ]
      ]
  apply_user-Reports (resetting name) s d hook on off = elim (Option-cases (get name s.users)) [
    | inl e ↦ unfold reset_failed_attempts is_active in ground (arith, e)
    | inr (u, e) ↦
        unfold reset_failed_attempts is_active in
        ground (arith, e, eq_iff name k, get-put name k (record u { failed_attempts = 0 }) s.users)
  ]
  apply_user-Reports (enabling name) s d hook on off = elim (Option-cases (get name s.users)) [
    | inl e ↦ unfold enable_user is_active in ground (arith, e)
    | inr (u, e) ↦
        unfold enable_user is_active in
        ground (arith, e, eq_iff name k, get-put name k (record u { enabled = true }) s.users)
  ]
  apply_user-Reports (disabling name) s d hook on off = elim (Option-cases (get name s.users)) [
    | inl e ↦ unfold disable_user is_active in ground (arith, e)
    | inr (u, e) ↦
        let u₁ : User = record u { enabled = false } in
        unfold disable_user is_active in
        ground (
          arith,
          e,
          eq_iff name k,
          get-put name k u₁ s.users,
          notified-notify (name ∷ []) k (record s { users = put name u₁ s.users }),
        )
  ]
  apply_user-Reports (reloading none) s d hook on off = unfold reload in ground arith
  apply_user-Reports (reloading (some users)) s d hook on off =
      reload-notifies users s d hook on off
