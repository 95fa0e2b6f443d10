-- ===== src/Auth/Users/Sessions.antt =====
-- What a session token proves of its bearer.
use pgedge_postgres_mcp.Prelude.{
  ℕ, ◌≤◌, String, ◌≡◌, ◌≢◌, inl, inr, Bool, true, false, not, ◌&&◌, some, [], ◌∷◌, arith, eq_iff,
  eq_refl, str_eq, Option-cases,
}
use pgedge_postgres_mcp.Auth.Users.{
  UserStore, find_session, validate_session_token, User, session_of, is_over, logged_in,
}
use pgedge_postgres_mcp.GoMap.{get, Distinct, has, GoMap, keys_where, put}
use pgedge_postgres_mcp.GoMap.Distinct.{holds}
use pgedge_postgres_mcp.GoMap.Laws.{get-none-has}
use pgedge_postgres_mcp.Auth.Users.Authenticate.{authenticate_user, Attempt, with_session}

-- What `u`, the account of `username`, has where its session token `token` is accepted at `now`.
pub record HasSession (s : UserStore) (username token : String) (now : ℕ) (u : User) : Type 0 where
  pub on_file : get username s.users ≡ some u
  pub active : u.enabled ≡ true
  pub same : u.session_token ≡ token
  pub some_token : token ≢ ""
  pub current : is_over now u.session_expires ≡ false

-- The tests of the loop.
abbrev accepts : String → ℕ → User → Bool
accepts token now u =
    not (str_eq u.session_token "")
    && str_eq u.session_token token
    && not (is_over now u.session_expires)
    && u.enabled

found_session :
    (token : String) (now : ℕ) (m : GoMap User) (username : String)
    → Distinct m
    → find_session token now m ≡ session_of username
    → holds (accepts token now) (get username m) ≡ true
unfolding find_session get has
found_session token now [] username d e = cc
found_session token now ((k, v) ∷ m) username d e = ground (
  arith,
  eq_iff k username,
  eq_refl username,
  get-none-has k m,
  found_session token now m username d.1,
)

accepted :
    (token : String) (now : ℕ) (s : UserStore) (username : String) (u : User)
    → get username s.users ≡ some u
    → accepts token now u ≡ true
    → HasSession s username token now u
accepted token now s username u found ok = record {
  on_file = found;
  active = ground arith;
  same = ground (arith, eq_iff u.session_token token);
  some_token = ground (arith, eq_iff u.session_token token, eq_iff u.session_token "");
  current = ground arith;
}

-- A session token that is accepted stands with an account on file under the name that is returned,
-- which is enabled and whose session is not over, if the names of the accounts are distinct.
pub validate_session_token_sound :
    (token : String) (now : ℕ) (s : UserStore) (username : String)
    → Distinct s.users
    → validate_session_token token now s ≡ session_of username
    → (u : User) × HasSession s username token now u
unfolding validate_session_token
validate_session_token_sound token now s username d e =
    let ok = found_session token now s.users username d e in
    elim (Option-cases (get username s.users)) [
      | inl gone ↦ ground (arith, gone)
      | inr (u, found) ↦ (u, accepted token now s username u found (ground (arith, found)))
    ]

find-put :
    (token : String) (now : ℕ) (username : String) (u : User) (m : GoMap User)
    → accepts token now u ≡ true
    → keys_where (λ k v. str_eq (User.session_token v) token) m ≡ []
    → find_session token now (put username u m) ≡ session_of username
unfolding find_session put keys_where
find-put token now username u [] ok fresh = ground arith
find-put token now username u ((k, v) ∷ m) ok fresh =
    ground (arith, eq_iff k username, find-put token now username u m ok)

-- After a login the session token is accepted for the account until the session is over, if the
-- token is not empty and no account had it before.
pub login-validate :
    (verify : String → String → Bool) (username : String) (max : ℕ) (a : Attempt) (s : UserStore)
    (token : String) (expiration now : ℕ)
    → (authenticate_user verify username max a s).1 ≡ logged_in token expiration
    → token ≢ ""
    → keys_where (λ k v. str_eq (User.session_token v) token) s.users ≡ []
    → now ≤ expiration
    → validate_session_token token now (authenticate_user verify username max a s).0
      ≡ session_of username
unfolding authenticate_user validate_session_token
login-validate verify username max a s token expiration now e named fresh until =
    elim (Option-cases (get username s.users)) [
      | inl gone ↦ ground (arith, gone)
      | inr (u, found) ↦ ground (
        arith,
        found,
        eq_iff token "",
        eq_refl token,
        find-put token now username (with_session u token a) s.users,
      )
    ]
