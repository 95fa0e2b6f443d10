-- ===== src/Oauth/Store/Tokens/Cascade.antt =====
-- What `deleteTokenLocked` removes, and what it reports.
use pgedge_postgres_mcp.Prelude.{
  String, ◌≡◌, refl, ◌⊎◌, inl, inr, true, false, not, ◌&&◌, ◌||◌, Option, none, some, List, [], ◌∷◌,
  arith, eq_iff, eq_refl, str_eq, if◌then◌else◌, Bool-cases, Option-cases, contains, subst,
  some_not_none,
}
use pgedge_postgres_mcp.Oauth.Types.{Token, Store}
use pgedge_postgres_mcp.GoMap.Laws.{get-put, get-delete, has-delete}
use pgedge_postgres_mcp.Oauth.Store.Tokens.{
  cascade, delete_token_locked, unlinked, remove_first, delete_links,
}
use pgedge_postgres_mcp.GoMap.{GoMap, has, get, delete}

pub get-cascade :
    (j : String) (hs : List String) (m : GoMap Token)
    → get j (cascade hs m).0 ≡ (if contains hs j then none else get j m)
unfolding cascade
get-cascade j [] m = refl
get-cascade j (h ∷ hs) m = ground (arith, get-cascade j hs (delete h m), get-delete h j m)

pub contains-cascade :
    (j : String) (hs : List String) (m : GoMap Token)
    → contains (cascade hs m).1 j ≡ (contains hs j && has j m)
unfolding cascade
contains-cascade j [] m = refl
contains-cascade j (h ∷ hs) m =
    ground (arith, contains-cascade j hs (delete h m), has-delete h j m, eq_iff h j)

-- An entry but for the list of tokens issued from it.
abbrev pub SameBut : Option Token → Option Token → Type 0
SameBut none none = Unit {0}
SameBut (some t) (some u) = t ≡ record u { issued = t.issued }
SameBut _ _ = ⊥

pub SameBut-refl : (o : Option Token) → SameBut o o
SameBut-refl none = tt
SameBut-refl (some t) = refl

pub get-unlinked :
    (h p j : String) (m : GoMap Token) → SameBut (get j (unlinked h p m (get p m))) (get j m)
get-unlinked h p j m = elim (Option-cases (get p m)) [
  | inl gone ↦ rw gone (SameBut-refl (get j m))
  | inr (t, found) ↦
      let t' = record t { issued = remove_first h t.issued } in
      elim (Bool-cases (str_eq p j)) [
        | inl same ↦
            rw found (rw (get-put p j t' m) (rw same (rw (← (eq_iff p j).0 same) (rw found refl))))
        | inr other ↦ rw found (rw (get-put p j t' m) (rw other (SameBut-refl (get j m))))
      ]
]

get-delete_links :
    (h j : String) (t : Token) (m : GoMap Token)
    → (get j (delete_links h t m).0 ≡ none) ⊎ SameBut (get j (delete_links h t m).0) (get j m)
unfolding delete_links
get-delete_links h j t m = elim (Bool-cases t.is_refresh) [
  | inl refresh ↦ elim (Bool-cases (contains t.issued j)) [
    | inl issued ↦ inl (rw refresh (rw get-cascade (rw issued)))
    | inr kept ↦ inr (rw refresh (rw get-cascade (rw kept (SameBut-refl (get j m)))))
  ]
  | inr access ↦ elim (Bool-cases (str_eq t.refresh_hash "")) [
    | inl alone ↦ inr (rw access (rw alone (SameBut-refl (get j m))))
    | inr child ↦ inr (rw access (rw child (get-unlinked h t.refresh_hash j m)))
  ]
]

SameBut-none : (o : Option Token) → SameBut o none → o ≡ none
SameBut-none none h = refl
SameBut-none (some t) h = absurd h

-- The token itself is gone.
pub get-delete_token_locked_self :
    (h : String) (s : Store) → get h (delete_token_locked h s).0.tokens ≡ none
unfolding delete_token_locked
get-delete_token_locked_self h s = elim (Option-cases (get h s.tokens)) [
  | inl gone ↦ rw gone gone
  | inr (t, found) ↦
      let absent : get h (delete h s.tokens) ≡ none = simp (get-delete, eq_refl) in
      rw found (elim (get-delete_links h h t (delete h s.tokens)) [
        | inl gone ↦ gone
        | inr same ↦ SameBut-none _ (rw absent at same)
      ])
]

-- Of the other tokens a deletion leaves what it was, or removes it; a list of issued tokens may
-- have become shorter.
pub get-delete_token_locked :
    (h j : String) (s : Store)
    → (get j (delete_token_locked h s).0.tokens ≡ none)
      ⊎ SameBut (get j (delete_token_locked h s).0.tokens) (get j s.tokens)
unfolding delete_token_locked
get-delete_token_locked h j s = elim (Option-cases (get h s.tokens)) [
  | inl gone ↦ rw gone (inr (SameBut-refl (get j s.tokens)))
  | inr (t, found) ↦ elim (Bool-cases (str_eq h j)) [
    | inl same ↦ inl (
        subst (λ k. get k (delete_token_locked h s).0.tokens ≡ none) ((eq_iff h j).0 same)
          (get-delete_token_locked_self h s))
    | inr other ↦
        let still : get j (delete h s.tokens) ≡ get j s.tokens = rw get-delete (rw other) in
        rw found (rw still at (get-delete_links h j t (delete h s.tokens)))
  ]
]

-- Deleting a refresh token removes it and every token issued from it, and no other; it reports
-- those issued that were there.
pub delete_token_locked_refresh :
    (h : String) (t : Token) (s : Store)
    → get h s.tokens ≡ some t
    → t.is_refresh ≡ true
    → (j : String)
    → (get j (delete_token_locked h s).0.tokens
        ≡ (if str_eq h j || contains t.issued j then none else get j s.tokens))
      × (contains (delete_token_locked h s).1 j
          ≡ (contains t.issued j && (not (str_eq h j) && has j s.tokens)))
unfolding delete_token_locked
delete_token_locked_refresh h t s found refresh j = rw found (
    rw refresh (
      ground (arith, get-cascade j t.issued (delete h s.tokens), get-delete h j s.tokens),
      ground (arith, contains-cascade j t.issued (delete h s.tokens), has-delete h j s.tokens),
    ))

-- Deleting an access token removes it alone, and reports it.
pub delete_token_locked_access :
    (h : String) (t : Token) (s : Store)
    → get h s.tokens ≡ some t
    → t.is_refresh ≡ false
    → (delete_token_locked h s).1 ≡ h ∷ []
unfolding delete_token_locked
delete_token_locked_access h t s found access = rw found (rw access (ground arith))

-- Where an access token is deleted, every other token stays.
pub get-delete_links_access :
    (h j : String) (t : Token) (m : GoMap Token)
    → t.is_refresh ≡ false
    → SameBut (get j (delete_links h t m).0) (get j m)
unfolding delete_links
get-delete_links_access h j t m access = elim (Bool-cases (str_eq t.refresh_hash "")) [
  | inl alone ↦ rw access (rw alone (SameBut-refl (get j m)))
  | inr child ↦ rw access (rw child (get-unlinked h t.refresh_hash j m))
]

-- A token that a deletion leaves differs from what it was in its list of issued tokens at most.
pub survivor :
    (k h : String) (s : Store) (t t' : Token)
    → get h s.tokens ≡ some t
    → get h (delete_token_locked k s).0.tokens ≡ some t'
    → t' ≡ record t { issued = t'.issued }
survivor k h s t t' before after = elim (get-delete_token_locked k h s) [
  | inl gone ↦ some_not_none (get h (delete_token_locked k s).0.tokens) t' after gone
  | inr same ↦ rw before at (rw after at same)
]

-- A deletion adds no token.
pub deletion_adds_none :
    (k h : String) (s : Store)
    → get h s.tokens ≡ none
    → get h (delete_token_locked k s).0.tokens ≡ none
deletion_adds_none k h s none_before = elim (get-delete_token_locked k h s) [
  | inl gone ↦ gone
  | inr same ↦ SameBut-none _ (rw none_before at same)
]
