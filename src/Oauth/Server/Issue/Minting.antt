-- ===== src/Oauth/Server/Issue/Minting.antt =====
-- Stores that hold no token which another did not, and the operations that lead from one to the other.
use pgedge_postgres_mcp.Prelude.{
  ℕ, String, ◌≡◌, refl, sym, ap, ◌∙◌, ◌⊎◌, inl, inr, Bool, Option, none, some, arith, eq_iff,
  str_eq, if◌then◌else◌, Bool-cases, Option-cases, subst,
}
use pgedge_postgres_mcp.Oauth.Types.{Token, Store, StoreError}
use pgedge_postgres_mcp.Oauth.Store.Tokens.Cascade.{
  SameBut, SameBut-refl, get-delete_token_locked, get-delete_token_locked_self,
}
use pgedge_postgres_mcp.GoMap.{get, GoMap, Distinct, delete_where, put}
use pgedge_postgres_mcp.Oauth.Store.Keys.{IsKeyed, token_key}
use pgedge_postgres_mcp.Oauth.Server.Errors.{External, Config, Draws}
use pgedge_postgres_mcp.Oauth.Store.Tokens.{
  take_token, delete_token, delete_by_subject, delete_family, of_subject, in_family, put_token,
  delete_token_locked,
}
use pgedge_postgres_mcp.Oauth.Store.Tokens.After.{
  tokens-take_token, tokens-delete_token, tokens-delete_family, tokens-delete_by_subject,
}
use pgedge_postgres_mcp.Oauth.Server.Issue.{
  store_pair, issue_tokens_with_hash, refresh_token_of, access_token_of, issue_tokens,
}
use pgedge_postgres_mcp.GoMap.Distinct.{get-delete_where}
use pgedge_postgres_mcp.GoMap.Keyed.{Keyed-Distinct}
use pgedge_postgres_mcp.GoMap.Laws.{get-put}

-- Every token of `s'` was in `s`, but for its list of issued tokens.
abbrev pub NotMinted : Store → Store → Type 0
NotMinted s s' =
    (h : String) → (get h s'.tokens ≡ none) ⊎ SameBut (get h s'.tokens) (get h s.tokens)

pub NotMinted-refl : (s : Store) → NotMinted s s
NotMinted-refl s h = inr (SameBut-refl (get h s.tokens))

SameBut-trans : (a b c : Option Token) → SameBut a b → SameBut b c → SameBut a c
SameBut-trans none none none p q = tt
SameBut-trans (some t) (some u) (some w) p q = ground (arith, p, q)
SameBut-trans none (some u) c p q = absurd p
SameBut-trans (some t) none c p q = absurd p
SameBut-trans none none (some w) p q = absurd q
SameBut-trans (some t) (some u) none p q = absurd q

SameBut-of-none : (a b : Option Token) → a ≡ none → SameBut b a → b ≡ none
SameBut-of-none none none e p = refl
SameBut-of-none none (some t) e p = absurd p
SameBut-of-none (some t) b e p = cc

pub NotMinted-trans : (s s' s'' : Store) → NotMinted s s' → NotMinted s' s'' → NotMinted s s''
NotMinted-trans s s' s'' p q h = elim (q h) [
  | inl gone ↦ inl gone
  | inr same ↦ elim (p h) [
    | inl absent ↦ inl (SameBut-of-none (get h s'.tokens) (get h s''.tokens) absent same)
    | inr before ↦
        inr (SameBut-trans (get h s''.tokens) (get h s'.tokens) (get h s.tokens) same before)
  ]
]

pub delete_token-NotMinted : (k : String) (s : Store) → NotMinted s (delete_token k s).0
delete_token-NotMinted k s h = rw (tokens-delete_token k s) (get-delete_token_locked k h s)

pub take_token-NotMinted : (k : String) (s : Store) → NotMinted s (take_token k s).0
take_token-NotMinted k s h = rw (tokens-take_token k s) (get-delete_token_locked k h s)

-- A loop that deletes tokens; the keys of the map are distinct.
delete_where-NotMinted :
    (p : String → Token → Bool) (h : String) (m : GoMap Token)
    → Distinct m
    → (get h (delete_where p m) ≡ none) ⊎ SameBut (get h (delete_where p m)) (get h m)
delete_where-NotMinted p h m d = elim (Option-cases (get h m)) [
  | inl gone ↦ inl (get-delete_where p h m d ∙ rw gone)
  | inr (t, found) ↦ elim (Bool-cases (p h t)) [
    | inl out ↦ inl (get-delete_where p h m d ∙ rw found (rw out))
    | inr stays ↦
        let same : get h (delete_where p m) ≡ some t =
          get-delete_where p h m d ∙ rw found (rw stays) in
        inr (rw same (rw found refl))
  ]
]

pub delete_family-NotMinted :
    (f : String) (s : Store) → IsKeyed s → NotMinted s (delete_family f s).0
delete_family-NotMinted f s v h = elim (Bool-cases (str_eq f "")) [
  | inl unnamed ↦ rw (tokens-delete_family f s) (rw unnamed (inr (SameBut-refl (get h s.tokens))))
  | inr named ↦ rw (tokens-delete_family f s) (
      rw named (
        delete_where-NotMinted (in_family f) h s.tokens
          (Keyed-Distinct token_key s.tokens v.tokens)))
]

pub delete_by_subject-NotMinted :
    (u : String) (s : Store) → IsKeyed s → NotMinted s (delete_by_subject u s).0
delete_by_subject-NotMinted u s v h = elim (Bool-cases (str_eq u "")) [
  | inl nobody ↦ rw (tokens-delete_by_subject u s) (rw nobody (inr (SameBut-refl (get h s.tokens))))
  | inr named ↦ rw (tokens-delete_by_subject u s) (
      rw named (
        delete_where-NotMinted (of_subject u) h s.tokens
          (Keyed-Distinct token_key s.tokens v.tokens)))
]

pub tokens_same-NotMinted : (s s' : Store) → s'.tokens ≡ s.tokens → NotMinted s s'
tokens_same-NotMinted s s' e h = inr (rw e (SameBut-refl (get h s.tokens)))

put_token-full :
    (t : Token) (s : Store) (e : StoreError) → (put_token t s).1 ≡ some e → (put_token t s).0 ≡ s
unfolding put_token
put_token-full t s e full = ground arith

put_token-fits :
    (t : Token) (s : Store)
    → (put_token t s).1 ≡ none
    → (put_token t s).0 ≡ record s { tokens = put t.hash t s.tokens }
unfolding put_token
put_token-fits t s fits = ground arith

-- A token put and deleted again leaves no trace but what it may have replaced.
put_then_delete :
    (t : Token) (s : Store)
    → NotMinted s (delete_token t.hash (record s { tokens = put t.hash t s.tokens })).0
put_then_delete t s h =
    let s' = record s { tokens = put t.hash t s.tokens } in
    elim (Bool-cases (str_eq t.hash h)) [
      | inl same ↦ inl (
          tokens-at h t.hash s'
          ∙ subst (λ k. get k (delete_token_locked t.hash s').0.tokens ≡ none)
              ((eq_iff t.hash h).0 same) (get-delete_token_locked_self t.hash s'))
      | inr other ↦
          let still : get h s'.tokens ≡ get h s.tokens = rw get-put (rw other) in
          rw still at (delete_token-NotMinted t.hash s' h)
    ]
  where
    tokens-at :
        (h k : String) (r : Store)
        → get h (delete_token k r).0.tokens ≡ get h (delete_token_locked k r).0.tokens
    tokens-at h k r = ap (get h) (tokens-delete_token k r)

module _ (ext : External) (config : Config) where
  -- An issue that fails leaves no token behind that was not there.
  store_pair-NotMinted :
      (client_id subject scope family a r : String) (now : ℕ) (s : Store)
      → (store_pair ext config client_id subject scope family a r now s).1 ≡ none
      → NotMinted s (store_pair ext config client_id subject scope family a r now s).0
  unfolding store_pair
  store_pair-NotMinted client_id subject scope family a r now s e =
      let refresh = refresh_token_of ext config client_id subject scope family a r now in
      let access = access_token_of ext config client_id subject scope family a r now in
      let s₁ = (put_token refresh s).0 in
      elim (Option-cases (put_token refresh s).1) [
        | inr (full, is_full) ↦
            let is : (store_pair ext config client_id subject scope family a r now s).0 ≡ s₁ =
              ground (arith, is_full) in
            subst (NotMinted s) (sym (is ∙ put_token-full refresh s full is_full))
              (NotMinted-refl s)
        | inl fits ↦ elim (Option-cases (put_token access s₁).1) [
          | inl both ↦ absurd (ground (arith, fits, both))
          | inr (full, is_full) ↦
              let is : (store_pair ext config client_id subject scope family a r now s).0
                  ≡ (delete_token refresh.hash (put_token access s₁).0).0 =
                ground (arith, fits, is_full) in
              let same = put_token-full access s₁ full is_full ∙ put_token-fits refresh s fits in
              subst (NotMinted s) (sym (is ∙ ap (λ x. (delete_token refresh.hash x).0) same))
                (put_then_delete refresh s)
        ]
      ]

  pub issue-NotMinted :
      (client_id subject scope family : String) (draws : Draws) (now : ℕ) (s : Store)
      → (issue_tokens_with_hash ext config client_id subject scope family draws now s).1 ≡ none
      → NotMinted s (issue_tokens_with_hash ext config client_id subject scope family draws now s).0
  unfolding issue_tokens_with_hash
  issue-NotMinted client_id subject scope family draws now s e = elim (Option-cases draws.access) [
    | inl no_access ↦ rw (no_access, issue_tokens_with_hash) (NotMinted-refl s)
    | inr (a, access) ↦ elim (Option-cases draws.refresh) [
      | inl no_refresh ↦ rw (access, no_refresh, issue_tokens_with_hash) (NotMinted-refl s)
      | inr (r, refresh) ↦
          elim (Option-cases (if str_eq family "" then draws.family else some family)) [
            | inl no_family ↦
                let is : issue_tokens_with_hash ext config client_id subject scope family draws now
                      s
                    ≡ (s, none) =
                  ground (arith, access, refresh, no_family) in
                subst (λ x. NotMinted s x.0) (sym is) (NotMinted-refl s)
            | inr (f, fam) ↦
                let is : issue_tokens_with_hash ext config client_id subject scope family draws now
                      s
                    ≡ store_pair ext config client_id subject scope f a r now s =
                  ground (arith, access, refresh, fam) in
                subst (λ x. NotMinted s x.0) (sym is)
                  (store_pair-NotMinted client_id subject scope f a r now s
                    (ap (λ x. x.1) (sym is) ∙ e))
          ]
    ]
  ]

  pub issue_tokens-NotMinted :
      (client_id subject scope family : String) (draws : Draws) (now : ℕ) (s : Store)
      → (issue_tokens ext config client_id subject scope family draws now s).1 ≡ none
      → NotMinted s (issue_tokens ext config client_id subject scope family draws now s).0
  unfolding issue_tokens
  issue_tokens-NotMinted client_id subject scope family draws now s e =
      let i = issue_tokens_with_hash ext config client_id subject scope family draws now s in
      elim (Option-cases i.1) [
        | inl failed ↦
            let is : (issue_tokens ext config client_id subject scope family draws now s).0 ≡ i.0 =
              ground (arith, failed) in
            subst (NotMinted s) (sym is)
              (issue-NotMinted client_id subject scope family draws now s failed)
        | inr (x, success) ↦ absurd (ground (arith, success))
      ]
