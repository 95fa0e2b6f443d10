-- ===== src/Sqltext/Cover.antt =====
-- How each routine of the scan splits the bytes that it is given.
use pgedge_postgres_mcp.Prelude.{
  ℕ, ◌+◌, ◌-◌, ◌≡◌, refl, sym, ap, ◌∙◌, inl, inr, Bool, true, false, ◌&&◌, Option, some, List, [],
  ◌∷◌, ◌++◌, arith, ◌==◌, Bool-cases, Option-cases,
}
use pgedge_postgres_mcp.Sqltext.{
  dollar_quote_tag, end_of_dollar_quote, end_of_quoted, strip_tag, skip_block_comment,
  skip_line_comment_body, scan, Segment, noise, consume_quoted, starts_with, consume_dollar_quote,
  plain, is_line_comment_start, is_block_comment_start, rest_of, before, escape_string_start,
  dollar_quote_can_start_at,
}

abbrev pub whole : List ℕ × List ℕ → List ℕ
whole (a, b) = a ++ b

line_covers : (q : List ℕ) → whole (skip_line_comment_body q) ≡ q
unfolding skip_line_comment_body
line_covers [] = refl
line_covers (c ∷ q) = elim (Bool-cases (c == 10)) [
  | inl e ↦ rw e refl
  | inr e ↦ rw e (ap (λ x. c ∷ x) (line_covers q))
]

block_covers : (depth : ℕ) (q : List ℕ) → whole (skip_block_comment depth q) ≡ q
unfolding skip_block_comment
block_covers depth [] = refl
block_covers depth (c ∷ []) = refl
block_covers depth (c ∷ d ∷ q) =
    ground
      (arith, block_covers (depth + 1) q, block_covers (depth - 1) q, block_covers depth (d ∷ q))

quoted_covers :
    (quote : ℕ) (escapes : Bool) (q : List ℕ) → whole (end_of_quoted quote escapes q) ≡ q
unfolding end_of_quoted
quoted_covers quote escapes [] = refl
quoted_covers quote escapes (c ∷ []) = refl
quoted_covers quote escapes (c ∷ d ∷ q) =
    ground (arith, quoted_covers quote escapes q, quoted_covers quote escapes (d ∷ q))

tag_covers :
    (first : Bool) (q : List ℕ) (s : List ℕ × List ℕ)
    → dollar_quote_tag first q ≡ some s
    → whole s ≡ q
unfolding dollar_quote_tag
tag_covers first [] s e = cc
tag_covers first (c ∷ q) s e = elim (Option-cases (dollar_quote_tag false q)) [
  | inl gone ↦ ground (arith, gone)
  | inr (t, found) ↦ ground (arith, found, tag_covers false q t found)
]

strip_tag_covers : (tag q rest : List ℕ) → strip_tag tag q ≡ some rest → tag ++ rest ≡ q
unfolding strip_tag
strip_tag_covers [] q rest e = ground arith
strip_tag_covers (t ∷ ts) [] rest e = cc
strip_tag_covers (t ∷ ts) (c ∷ q) rest e = ground (arith, strip_tag_covers ts q rest)

body_covers :
    (tag q : List ℕ) (s : List ℕ × List ℕ) → end_of_dollar_quote tag q ≡ some s → whole s ≡ q
unfolding end_of_dollar_quote
body_covers tag [] s e = cc
body_covers tag (c ∷ q) s e = elim (Option-cases (strip_tag tag (c ∷ q))) [
  | inr (rest, found) ↦ ground (arith, found, strip_tag_covers tag (c ∷ q) rest found)
  | inl gone ↦ elim (Option-cases (end_of_dollar_quote tag q)) [
    | inl none_later ↦ ground (arith, gone, none_later)
    | inr (t, later) ↦ ground (arith, gone, later, body_covers tag q t later)
  ]
]

append_assoc : (a b c : List ℕ) → (a ++ b) ++ c ≡ a ++ (b ++ c)
append_assoc [] b c = refl
append_assoc (x ∷ a) b c = ap (λ y. x ∷ y) (append_assoc a b c)

started : (d : ℕ) (q : List ℕ) → starts_with d q ≡ true → d ∷ rest_of q ≡ q
started d [] e = cc
started d (b ∷ q) e = ground arith

-- A segment passes over the byte at hand, and loses none of those that follow.
abbrev pub Covers : ℕ → List ℕ → Segment → Type 0
Covers c q s = (ts : List ℕ) × (s.taken ≡ c ∷ ts) × (ts ++ s.rest ≡ q)

plain-Covers : (c : ℕ) (q : List ℕ) → Covers c q (plain c q)
plain-Covers c q = ([], refl, refl)

noise_line-Covers :
    (c : ℕ) (q : List ℕ) → c ≡ 45 → Covers c q (noise (skip_line_comment_body (c ∷ q)))
unfolding skip_line_comment_body
noise_line-Covers c q e =
    let dash : (c == 10) ≡ false = ground arith in
    rw dash ((skip_line_comment_body q).0, refl, line_covers q)

noise_block-Covers :
    (c : ℕ) (q : List ℕ)
    → starts_with 42 q ≡ true
    → Covers c q (noise (before (c ∷ 42 ∷ []) (skip_block_comment 1 (rest_of q))))
noise_block-Covers c q e = (
  42 ∷ (skip_block_comment 1 (rest_of q)).0,
  refl,
  ap (λ x. 42 ∷ x) (block_covers 1 (rest_of q)) ∙ started 42 q e,
)

escape-Covers :
    (c : ℕ) (q : List ℕ)
    → starts_with 39 q ≡ true
    → Covers c q (consume_quoted (c ∷ []) 39 (end_of_quoted 39 true (rest_of q)))
escape-Covers c q e = (
  39 ∷ (end_of_quoted 39 true (rest_of q)).0,
  refl,
  ap (λ x. 39 ∷ x) (quoted_covers 39 true (rest_of q)) ∙ started 39 q e,
)

quote-Covers :
    (c quote : ℕ) (q : List ℕ)
    → c ≡ quote
    → Covers c q (consume_quoted [] quote (end_of_quoted quote false q))
quote-Covers c quote q e = (
  (end_of_quoted quote false q).0,
  ap (λ x. x ∷ (end_of_quoted quote false q).0) (sym e),
  quoted_covers quote false q,
)

dollar-Covers :
    (c : ℕ) (q : List ℕ) → Covers c q (consume_dollar_quote c q (dollar_quote_tag true q))
dollar-Covers c q = elim (Option-cases (dollar_quote_tag true q)) [
  | inl e ↦ rw e (plain-Covers c q)
  | inr ((tag, body), e) ↦ elim (Option-cases (end_of_dollar_quote (c ∷ tag) body)) [
    | inl f ↦ rw (e, f) (plain-Covers c q)
    | inr ((a, b), f) ↦
        rw (e, f)
          (
            tag ++ a,
            refl,
            append_assoc tag a b
                ∙ ap (λ x. tag ++ x) (body_covers (c ∷ tag) body (a, b) f)
                ∙ tag_covers true q (tag, body) e,
          )
  ]
]

-- A turn of the scan passes over the byte at hand, and loses none of those that follow.
pub scan-Covers : (prev : Option ℕ) (c : ℕ) (q : List ℕ) → Covers c q (scan prev c q)
unfolding scan
scan-Covers prev c q = elim (Bool-cases (is_line_comment_start c q)) [
  | inl e ↦ rw e (noise_line-Covers c q (ground arith))
  | inr e ↦ rw e (elim (Bool-cases (is_block_comment_start c q)) [
    | inl f ↦ rw f (noise_block-Covers c q (ground arith))
    | inr f ↦ rw f (elim (Bool-cases (escape_string_start prev c q)) [
      | inl g ↦ rw g (escape-Covers c q (ground arith))
      | inr g ↦ rw g (elim (Bool-cases (c == 39)) [
        | inl h ↦ rw h (quote-Covers c 39 q (ground arith))
        | inr h ↦ rw h (elim (Bool-cases (c == 34)) [
          | inl i ↦ rw i (quote-Covers c 34 q (ground arith))
          | inr i ↦ rw i (elim (Bool-cases (c == 36 && dollar_quote_can_start_at prev)) [
            | inl j ↦ rw j (dollar-Covers c q)
            | inr j ↦ rw j (plain-Covers c q)
          ])
        ])
      ])
    ])
  ])
]
