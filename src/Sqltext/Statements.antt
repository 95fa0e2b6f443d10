-- ===== src/Sqltext/Statements.antt =====
-- What `HasMultipleStatements` finds.
use pgedge_postgres_mcp.Prelude.{
  ℕ, ◌≡◌, refl, Bool, false, not, ◌&&◌, ◌||◌, List, [], ◌∷◌, arith, ◌==◌, is_empty, all,
}
use pgedge_postgres_mcp.Sqltext.{has_multiple_statements, trim_right, is_separator}

abbrev pub all_separators : List ℕ → Bool
all_separators q = all is_separator q

-- Whether a semicolon is followed, at any distance, by a byte that is no separator.
abbrev pub statement_follows : List ℕ → Bool
statement_follows [] = false
statement_follows (c ∷ q) = (c == 59 && not (all_separators q)) || statement_follows q

trimmed_away : (q : List ℕ) → is_empty (trim_right q) ≡ all_separators q
unfolding trim_right
trimmed_away [] = refl
trimmed_away (c ∷ q) = ground (arith, trimmed_away q)

-- A residue holds more than one statement exactly if some semicolon of it is followed by a byte
-- that is neither a semicolon nor white space.
pub has_multiple_statements_lem :
    (residue : List ℕ) → has_multiple_statements residue ≡ statement_follows residue
unfolding has_multiple_statements trim_right
has_multiple_statements_lem [] = refl
has_multiple_statements_lem (c ∷ q) = ground (arith, trimmed_away q, has_multiple_statements_lem q)
