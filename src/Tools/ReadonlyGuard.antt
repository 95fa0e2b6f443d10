-- ===== src/Tools/ReadonlyGuard.antt =====
-- internal/tools/readonly_guard.go: the check of a statement for a read-only connection. The matching
-- of its regular expressions, which Go's library does, is a parameter.
pub mod Smuggling
use pgedge_postgres_mcp.Prelude.{
  ℕ, String, Bool, ◌&&◌, Option, none, some, List, [], ◌∷◌, if◌then◌else◌,
}
use pgedge_postgres_mcp.Sqltext.{strip, has_multiple_statements}

-- `readOnlyRejection`: the matching of its pattern, and the reason
pub record ReadOnlyRejection : Type 0 where
  pub matches : List ℕ → Bool
  pub reason : String

-- `readOnlyRejections`, `readOnlyGUCPattern` and `settingChangePattern`
pub record Patterns : Type 0 where
  pub read_only_rejections : List ReadOnlyRejection
  pub read_only_guc : List ℕ → Bool
  pub setting_change : List ℕ → Bool

-- The error that is returned
pub data QueryRejected : Type 0 where
  multiple_statements : QueryRejected
  construct_refused : String → QueryRejected
  setting_refused : QueryRejected

-- The loop over the rejections
unfoldable pub first_rejection : List ReadOnlyRejection → List ℕ → Option String
first_rejection [] residue = none
first_rejection (r ∷ rs) residue =
    if ReadOnlyRejection.matches r residue
    then some (ReadOnlyRejection.reason r)
    else first_rejection rs residue

abbrev pub checked : Patterns → List ℕ × List ℕ → Option QueryRejected
checked p (residue, bare) =
    if has_multiple_statements residue
    then some multiple_statements
    else elim (first_rejection p.read_only_rejections residue) [
      | some reason ↦ some (construct_refused reason)
      | none ↦ if p.read_only_guc bare && p.setting_change bare then some setting_refused else none
    ]

-- `validateReadOnlyQuery`
unfoldable pub validate_read_only_query : Patterns → List ℕ → Option QueryRejected
validate_read_only_query p query = checked p (strip query)
