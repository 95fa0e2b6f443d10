-- ===== src/Chat/QueryClassify/FirstWord.antt =====
-- The prefix test against the first word of a text.
use pgedge_postgres_mcp.Prelude.{
  ℕ, ◌≡◌, refl, sym, inl, inr, Bool, true, false, ◌&&◌, ◌||◌, false≢true, List, [], ◌∷◌, arith,
  ◌==◌, if◌then◌else◌, Bool-cases, subst, all,
}
use pgedge_postgres_mcp.Sqltext.{is_identifier_byte, strip_tag}
use pgedge_postgres_mcp.Chat.QueryClassify.{has_keyword, has_prefix, starts_by}

-- The identifier bytes that a text begins with.
abbrev pub first_word : List ℕ → List ℕ
first_word [] = []
first_word (c ∷ q) = if is_identifier_byte c then c ∷ first_word q else []

abbrev pub same_bytes : List ℕ → List ℕ → Bool
same_bytes [] [] = true
same_bytes [] (d ∷ ds) = false
same_bytes (c ∷ cs) [] = false
same_bytes (c ∷ cs) (d ∷ ds) = c == d && same_bytes cs ds

abbrev pub is_one_of : List (List ℕ) → List ℕ → Bool
is_one_of [] w = false
is_one_of (k ∷ ks) w = same_bytes w k || is_one_of ks w

pub same_bytes-≡ : (a b : List ℕ) → same_bytes a b ≡ true → a ≡ b
same_bytes-≡ [] [] e = refl
same_bytes-≡ [] (d ∷ ds) e = absurd (false≢true e)
same_bytes-≡ (c ∷ cs) [] e = absurd (false≢true e)
same_bytes-≡ (c ∷ cs) (d ∷ ds) e = ground (arith, same_bytes-≡ cs ds)

-- A keyword is found at the start exactly if it is the first word.
pub has_keyword_lem :
    (q kw : List ℕ)
    → all is_identifier_byte kw ≡ true
    → has_keyword q kw ≡ same_bytes (first_word q) kw
unfolding has_keyword strip_tag
has_keyword_lem [] [] e = refl
has_keyword_lem [] (d ∷ kw) e = refl
has_keyword_lem (c ∷ q) [] e = elim (Bool-cases (is_identifier_byte c)) [
  | inl y ↦ rw y refl
  | inr n ↦ rw n refl
]
has_keyword_lem (c ∷ q) (d ∷ kw) e = elim (Bool-cases (c == d)) [
  | inl same ↦
      let here : d ≡ c = ground arith in
      let known : is_identifier_byte c ≡ true =
        subst (λ x. is_identifier_byte x ≡ true) here (ground arith) in
      ground (arith, same, known, has_keyword_lem q kw (ground arith))
  | inr other ↦ elim (Bool-cases (is_identifier_byte c)) [
    | inl y ↦ ground (arith, y, other)
    | inr n ↦ ground (arith, n, other)
  ]
]

pub has_prefix_lem :
    (q : List ℕ) (kws : List (List ℕ))
    → all (all is_identifier_byte) kws ≡ true
    → has_prefix q kws ≡ is_one_of kws (first_word q)
unfolding has_prefix
has_prefix_lem q [] e = refl
has_prefix_lem q (kw ∷ kws) e =
    rw (has_keyword_lem q kw (ground arith), has_prefix_lem q kws (ground arith)) (ground arith)

-- Whether a text starts by a keyword shows in its first word.
pub starts_by_lem :
    (q kw : List ℕ)
    → all is_identifier_byte kw ≡ true
    → starts_by q kw ≡ starts_by (first_word q) kw
unfolding starts_by strip_tag
starts_by_lem [] kw e = refl
starts_by_lem (c ∷ q) [] e = refl
starts_by_lem (c ∷ q) (d ∷ kw) e = elim (Bool-cases (c == d)) [
  | inl same ↦
      let here : d ≡ c = ground arith in
      let known : is_identifier_byte c ≡ true =
        subst (λ x. is_identifier_byte x ≡ true) here (ground arith) in
      ground (arith, same, known, starts_by_lem q kw (ground arith))
  | inr other ↦ elim (Bool-cases (is_identifier_byte c)) [
    | inl y ↦ ground (arith, y, other)
    | inr n ↦ ground (arith, n, other)
  ]
]

-- What holds of every keyword of a list holds of a word that is one of them.
pub is_one_of-all :
    (p : List ℕ → Bool) (ks : List (List ℕ)) (w : List ℕ)
    → all p ks ≡ true
    → is_one_of ks w ≡ true
    → p w ≡ true
is_one_of-all p [] w ok e = absurd (false≢true e)
is_one_of-all p (k ∷ ks) w ok e = elim (Bool-cases (same_bytes w k)) [
  | inl same ↦ subst (λ x. p x ≡ true) (sym (same_bytes-≡ w k same)) (ground arith)
  | inr other ↦ is_one_of-all p ks w (ground arith) (ground arith)
]
