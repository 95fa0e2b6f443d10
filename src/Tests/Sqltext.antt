-- ===== src/Tests/Sqltext.antt =====
-- Statements at which the scan is applied.
use pgedge_postgres_mcp.Prelude.{
  ℕ, ◌≡◌, refl, ◌↔◌, true, false, none, some, List, [], ◌∷◌, ◌++◌, arith, codes,
}
use pgedge_postgres_mcp.Sqltext.{segments}
use pgedge_postgres_mcp.Sqltext.Fuel.{segments_enough}
use pgedge_postgres_mcp.Sqltext.Literal.{doubled}
use pgedge_postgres_mcp.Sqltext.Statements.{statement_follows}
use pgedge_postgres_mcp.Tools.ReadonlyGuard.{
  Patterns, validate_read_only_query, multiple_statements,
}
use pgedge_postgres_mcp.Tools.ReadonlyGuard.Smuggling.{guard_sees_behind_literal}

-- select 1; drop
abbrev two_statements : List ℕ
two_statements = 115 ∷ 32 ∷ 49 ∷ 59 ∷ 32 ∷ 100 ∷ []

abbrev one_statement : List ℕ
one_statement = 115 ∷ 32 ∷ 49 ∷ 59 ∷ 32 ∷ []

segments_enough_example : segments 6 none two_statements ≡ segments 9 none two_statements
segments_enough_example = segments_enough 6 9 none two_statements (omega arith) (omega arith)

abbrev guard : Patterns
guard = record {
  read_only_rejections = [];
  read_only_guc = λ q. false;
  setting_change = λ q. false;
}

guard_sees_behind_literal_example :
    (validate_read_only_query guard
        (codes "select " ++ 39 ∷ (doubled 39 (codes "a';b") ++ 39 ∷ codes "; drop table t"))
      ≡ some multiple_statements)
    ↔ (statement_follows (codes "select " ++ 39 ∷ 39 ∷ codes "; drop table t") ≡ true)
guard_sees_behind_literal_example =
    guard_sees_behind_literal guard (codes "select ") (codes "a';b") (codes "; drop table t") refl
      refl refl
