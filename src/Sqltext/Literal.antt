-- ===== src/Sqltext/Literal.antt =====
-- What the scan makes of a literal, of a comment and of ordinary text.
use pgedge_postgres_mcp.Prelude.{
  ℕ, zero, suc, ◌≤◌, ◌≡◌, refl, ap, ◌∙◌, inl, inr, Bool, true, false, not, ◌&&◌, ◌||◌, Option, none,
  some, List, [], ◌∷◌, ◌++◌, arith, ◌==◌, if◌then◌else◌, Bool-cases, length, all,
}
use pgedge_postgres_mcp.Sqltext.{
  segments, scan, strip, skip_line_comment_body, last_byte, written, end_of_quoted, starts_with,
  plain, contains_byte, noise, before,
}

-- A text as it stands inside a literal: every quote twice.
abbrev pub doubled : ℕ → List ℕ → List ℕ
doubled quote [] = []
doubled quote (c ∷ q) = if c == quote then quote ∷ quote ∷ doubled quote q else c ∷ doubled quote q

closing :
    (quote : ℕ) (post : List ℕ)
    → starts_with quote post ≡ false
    → end_of_quoted quote false (quote ∷ post) ≡ (quote ∷ [], post)
unfolding end_of_quoted
closing quote [] e = refl
closing quote (d ∷ post) e = ground arith

passes :
    (quote c : ℕ) (q : List ℕ)
    → (c == quote) ≡ false
    → end_of_quoted quote false (c ∷ q) ≡ before (c ∷ []) (end_of_quoted quote false q)
unfolding end_of_quoted
passes quote c [] e = refl
passes quote c (d ∷ q) e = ground arith

passes_double :
    (quote : ℕ) (q : List ℕ)
    → end_of_quoted quote false (quote ∷ quote ∷ q)
      ≡ before (quote ∷ quote ∷ []) (end_of_quoted quote false q)
unfolding end_of_quoted
passes_double quote q = ground arith

end_of_doubled :
    (quote : ℕ) (body post : List ℕ)
    → starts_with quote post ≡ false
    → end_of_quoted quote false (doubled quote body ++ quote ∷ post)
      ≡ (doubled quote body ++ quote ∷ [], post)
end_of_doubled quote [] post e = closing quote post e
end_of_doubled quote (c ∷ body) post e =
    let later = end_of_doubled quote body post e in
    elim (Bool-cases (c == quote)) [
      | inl same ↦ rw same (
          passes_double quote (doubled quote body ++ quote ∷ post)
          ∙ ap (before (quote ∷ quote ∷ [])) later)
      | inr other ↦
          rw other
            (passes quote c (doubled quote body ++ quote ∷ post) other ∙ ap (before (c ∷ [])) later)
    ]

last_of : (prev : Option ℕ) (xs : List ℕ) (c : ℕ) → last_byte prev (xs ++ c ∷ []) ≡ some c
last_of prev [] c = refl
last_of prev (x ∷ xs) c = last_of (some x) xs c

-- Wherever the scan meets a text as a plain literal, its quotes doubled and no quote behind it,
-- the residue has two quotes in its place, whatever the text, and the bare form has the literal.
pub literal_is_hidden :
    (n : ℕ) (prev : Option ℕ) (body post : List ℕ)
    → starts_with 39 post ≡ false
    → (written (λ s. s.residue) (segments (suc n) prev (39 ∷ (doubled 39 body ++ 39 ∷ post)))
        ≡ 39 ∷ 39 ∷ written (λ s. s.residue) (segments n (some 39) post))
      × (written (λ s. s.bare) (segments (suc n) prev (39 ∷ (doubled 39 body ++ 39 ∷ post)))
          ≡ (39 ∷ (doubled 39 body ++ 39 ∷ []))
            ++ written (λ s. s.bare) (segments n (some 39) post))
unfolding segments scan
literal_is_hidden n prev body post e =
    rw (end_of_doubled 39 body post e, last_of (some 39) (doubled 39 body) 39) (refl, refl)

comment_ends :
    (body post : List ℕ)
    → contains_byte 10 body ≡ false
    → skip_line_comment_body (body ++ 10 ∷ post) ≡ (body, 10 ∷ post)
unfolding skip_line_comment_body
comment_ends [] post e = refl
comment_ends (c ∷ body) post e = ground (arith, comment_ends body post)

-- Wherever the scan meets a line comment, both forms have a space in its place, whatever its text,
-- and go on with the newline.
pub comment_is_dropped :
    (n : ℕ) (prev : Option ℕ) (body post : List ℕ)
    → contains_byte 10 body ≡ false
    → segments (suc n) prev (45 ∷ 45 ∷ (body ++ 10 ∷ post))
      ≡ noise (45 ∷ 45 ∷ body, 10 ∷ post) ∷ segments n (last_byte (some 45) body) (10 ∷ post)
unfolding segments scan skip_line_comment_body
comment_is_dropped n prev body post e = rw (comment_ends body post e) refl

-- The bytes that begin neither a comment nor a literal, whatever follows, but for an E before a quote.
abbrev pub is_ordinary : ℕ → Bool
is_ordinary c = not (c == 45 || c == 47) && (not (c == 39 || c == 34) && not (c == 36))

abbrev pub is_e : ℕ → Bool
is_e c = c == 69 || c == 101

pub ordinary_is_plain :
    (prev : Option ℕ) (c : ℕ) (q : List ℕ)
    → is_ordinary c ≡ true
    → (is_e c && starts_with 39 q) ≡ false
    → scan prev c q ≡ plain c q
unfolding scan
ordinary_is_plain prev c q ok unquoted = ground arith

pub ordinary_start : (q : List ℕ) → all is_ordinary q ≡ true → starts_with 39 q ≡ false
ordinary_start [] ok = refl
ordinary_start (c ∷ q) ok = ground arith

pub plain_segments :
    (n : ℕ) (prev : Option ℕ) (q : List ℕ)
    → length q ≤ n
    → all is_ordinary q ≡ true
    → (written (λ s. s.residue) (segments n prev q) ≡ q)
      × (written (λ s. s.bare) (segments n prev q) ≡ q)
unfolding segments
plain_segments zero prev [] enough ok = (refl, refl)
plain_segments zero prev (c ∷ q) enough ok = absurd (omega arith)
plain_segments (suc n) prev [] enough ok = (refl, refl)
plain_segments (suc n) prev (c ∷ q) enough ok =
    let unquoted = ordinary_start q (ground arith) in
    let one = ordinary_is_plain prev c q (ground arith) (ground (arith, unquoted)) in
    let (a, b) = plain_segments n (some c) q (omega arith) (ground arith) in
    rw one (ap (λ x. c ∷ x) a, ap (λ x. c ∷ x) b)

-- A statement without dashes, slashes, quotes and dollars is both of its forms.
pub strip-plain : (q : List ℕ) → all is_ordinary q ≡ true → strip q ≡ (q, q)
unfolding strip
strip-plain q ok = let (a, b) = plain_segments (length q) none q (omega arith) ok in rw (a, b) refl
