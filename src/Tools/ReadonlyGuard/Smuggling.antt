-- ===== src/Tools/ReadonlyGuard/Smuggling.antt =====
-- A second statement behind a literal.
use pgedge_postgres_mcp.Prelude.{
  ℕ, zero, suc, ◌+◌, ◌≤◌, ◌≡◌, refl, ap, ◌∙◌, ◌↔◌, inl, inr, Bool, true, false, ◌&&◌, false≢true,
  Option, none, some, List, [], ◌∷◌, ◌++◌, arith, Option-cases, length, length-append, all,
}
use pgedge_postgres_mcp.Tools.ReadonlyGuard.{
  validate_read_only_query, Patterns, multiple_statements, first_rejection,
}
use pgedge_postgres_mcp.Sqltext.{
  strip, written, segments, last_byte, has_multiple_statements, starts_with,
}
use pgedge_postgres_mcp.Sqltext.Literal.{
  is_ordinary, doubled, is_e, literal_is_hidden, ordinary_is_plain, ordinary_start, plain_segments,
}
use pgedge_postgres_mcp.Sqltext.Statements.{statement_follows, has_multiple_statements_lem}

-- Whether a text ends in a byte that may prefix an escape string.
abbrev pub ends_in_e : List ℕ → Bool
ends_in_e [] = false
ends_in_e (c ∷ []) = is_e c
ends_in_e (c ∷ d ∷ a) = ends_in_e (d ∷ a)

next_is_no_quote :
    (c : ℕ) (a q : List ℕ)
    → all is_ordinary a ≡ true
    → ends_in_e (c ∷ a) ≡ false
    → (is_e c && starts_with 39 (a ++ q)) ≡ false
next_is_no_quote c [] q ok apart = ground arith
next_is_no_quote c (d ∷ a) q ok apart = ground arith

apart_tail : (c : ℕ) (a : List ℕ) → ends_in_e (c ∷ a) ≡ false → ends_in_e a ≡ false
apart_tail c [] apart = refl
apart_tail c (d ∷ a) apart = apart

-- Ordinary text is copied, and the scan goes on behind it.
plain_prefix :
    (a q : List ℕ) (k n : ℕ) (prev : Option ℕ)
    → k ≡ length a + n
    → all is_ordinary a ≡ true
    → ends_in_e a ≡ false
    → written (λ s. s.residue) (segments k prev (a ++ q))
      ≡ a ++ written (λ s. s.residue) (segments n (last_byte prev a) q)
unfolding segments
plain_prefix [] q k n prev e ok apart =
    ap (λ x. written (λ s. s.residue) (segments x prev q)) (omega arith)
plain_prefix (c ∷ a) q zero n prev e ok apart = absurd (omega arith)
plain_prefix (c ∷ a) q (suc k) n prev e ok apart =
    let one =
      ordinary_is_plain prev c (a ++ q) (ground arith)
        (next_is_no_quote c a q (ground arith) apart) in
    rw one (
      ap (λ x. c ∷ x)
        (plain_prefix a q k n (some c) (omega arith) (ground arith) (apart_tail c a apart)))

-- The residue of a statement of ordinary text around a literal.
pub residue_around :
    (a body post : List ℕ)
    → all is_ordinary a ≡ true
    → ends_in_e a ≡ false
    → all is_ordinary post ≡ true
    → (strip (a ++ 39 ∷ (doubled 39 body ++ 39 ∷ post))).0 ≡ a ++ 39 ∷ 39 ∷ post
unfolding strip
residue_around a body post ok apart ok' =
    let q = 39 ∷ (doubled 39 body ++ 39 ∷ post) in
    let m = length (doubled 39 body ++ 39 ∷ post) in
    let fits : length post ≤ m = omega (arith, length-append (doubled 39 body) (39 ∷ post)) in
    let (hidden, _) = literal_is_hidden m (last_byte none a) body post (ordinary_start post ok') in
    let (rest, _) = plain_segments m (some 39) post fits ok' in
    (plain_prefix a q (length (a ++ q)) (suc m) none (length-append a q) ok apart
      ∙ ap (λ x. a ++ x) (hidden ∙ ap (λ x. 39 ∷ 39 ∷ x) rest))

-- The guard refuses as several exactly what has several statements in its residue.
refused_as_several :
    (p : Patterns) (q : List ℕ) (b : Bool)
    → has_multiple_statements (strip q).0 ≡ b
    → (validate_read_only_query p q ≡ some multiple_statements) ↔ (b ≡ true)
unfolding validate_read_only_query
refused_as_several p q true e = (λ h. refl, λ h. rw e refl)
refused_as_several p q false e =
    elim (Option-cases (first_rejection p.read_only_rejections (strip q).0)) [
      | inl nothing ↦ (λ h. absurd (ground (arith, nothing)), λ h. absurd (false≢true h))
      | inr (reason, found) ↦ (λ h. absurd (ground (arith, found)), λ h. absurd (false≢true h))
    ]

-- Whatever a plain literal between two pieces of ordinary text holds (no dash, slash, quote or
-- dollar, and no E right before the literal), the guard refuses the statement as several exactly
-- if the text without the contents of the literal has a semicolon that is followed by more than
-- separators.
pub guard_sees_behind_literal :
    (p : Patterns) (a body post : List ℕ)
    → all is_ordinary a ≡ true
    → ends_in_e a ≡ false
    → all is_ordinary post ≡ true
    → (validate_read_only_query p (a ++ 39 ∷ (doubled 39 body ++ 39 ∷ post))
        ≡ some multiple_statements)
      ↔ (statement_follows (a ++ 39 ∷ 39 ∷ post) ≡ true)
guard_sees_behind_literal p a body post ok apart ok' =
    let q = a ++ 39 ∷ (doubled 39 body ++ 39 ∷ post) in
    let r = a ++ 39 ∷ 39 ∷ post in
    let same : has_multiple_statements (strip q).0 ≡ statement_follows r =
      ap has_multiple_statements (residue_around a body post ok apart ok')
      ∙ has_multiple_statements_lem r in
    refused_as_several p q (statement_follows r) same
