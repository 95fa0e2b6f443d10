-- ===== src/Sqltext/Fuel.antt =====
-- The number of turns of the loop of `Strip`, and its segments.
use pgedge_postgres_mcp.Prelude.{
  ℕ, zero, suc, ◌≤◌, ◌≡◌, refl, ap, ◌∙◌, Option, List, [], ◌∷◌, ◌++◌, arith, length, length-append,
}
use pgedge_postgres_mcp.Sqltext.{segments, written, scan, last_byte}
use pgedge_postgres_mcp.Sqltext.Cover.{scan-Covers}

rest_is_shorter : (prev : Option ℕ) (c : ℕ) (q : List ℕ) → length (scan prev c q).rest ≤ length q
rest_is_shorter prev c q =
    let (ts, first, after) = scan-Covers prev c q in
    omega (arith, length-append ts (scan prev c q).rest, ap (λ x. length x) after)

-- As many turns as the statement has bytes are enough for the scan: any two numbers of turns that
-- are no smaller give the same segments.
pub segments_enough :
    (n m : ℕ) (prev : Option ℕ) (q : List ℕ)
    → length q ≤ n
    → length q ≤ m
    → segments n prev q ≡ segments m prev q
unfolding segments
segments_enough zero zero prev q a b = refl
segments_enough zero (suc m) prev [] a b = refl
segments_enough zero (suc m) prev (c ∷ q) a b = absurd (omega arith)
segments_enough (suc n) zero prev [] a b = refl
segments_enough (suc n) zero prev (c ∷ q) a b = absurd (omega arith)
segments_enough (suc n) (suc m) prev [] a b = refl
segments_enough (suc n) (suc m) prev (c ∷ q) a b =
    let s = scan prev c q in
    let shorter = rest_is_shorter prev c q in
    ap (λ x. s ∷ x)
      (segments_enough n m (last_byte prev s.taken) s.rest (omega (arith, shorter))
        (omega (arith, shorter)))

-- The bytes that the turns of the scan pass over, one turn after the other, are the statement, if
-- the turns are as many as its bytes.
pub segments_cover :
    (fuel : ℕ) (prev : Option ℕ) (q : List ℕ)
    → length q ≤ fuel
    → written (λ s. s.taken) (segments fuel prev q) ≡ q
unfolding segments
segments_cover zero prev [] enough = refl
segments_cover zero prev (c ∷ q) enough = absurd (omega arith)
segments_cover (suc fuel) prev [] enough = refl
segments_cover (suc fuel) prev (c ∷ q) enough =
    let s = scan prev c q in
    let shorter = rest_is_shorter prev c q in
    let later = segments_cover fuel (last_byte prev s.taken) s.rest (omega (arith, shorter)) in
    let (ts, first, after) = scan-Covers prev c q in
    ap (λ x. s.taken ++ x) later ∙ (ap (λ x. x ++ s.rest) first ∙ ap (λ x. c ∷ x) after)
