-- ===== src/Chat/QueryClassify.antt =====
-- internal/chat/query_classify.go: whether a statement reads or writes, which decides on the prompt
-- for confirmation. The case mapping and the trimming, which go by tables of Unicode, and the
-- matching of the regular expressions, all of Go's library, are parameters.
pub mod FirstWord
pub mod Reads
use pgedge_postgres_mcp.Prelude.{
  ℕ, Bool, true, false, not, ◌&&◌, none, some, List, [], ◌∷◌, if◌then◌else◌, codes,
}
use pgedge_postgres_mcp.Sqltext.{strip, strip_tag, is_identifier_byte}

-- `QueryType`
pub data QueryType : Type 0 where
  query_type_select : QueryType
  query_type_ddl : QueryType
  query_type_dml : QueryType
  query_type_other : QueryType

-- `strings.ToUpper`, `strings.TrimSpace`, and the matching of `dmlIndicator`, `ddlIndicator` and
-- `analyzeOption`; `row_lock_clause` replaces the matches of `rowLockClause` by a space
pub record Texts : Type 0 where
  pub to_upper : List ℕ → List ℕ
  pub trim_space : List ℕ → List ℕ
  pub dml_indicator : List ℕ → Bool
  pub ddl_indicator : List ℕ → Bool
  pub row_lock_clause : List ℕ → List ℕ
  pub analyze_option : List ℕ → Bool

-- `readPrefixes`
abbrev pub read_prefixes : List (List ℕ)
read_prefixes =
    codes "SELECT"
    ∷ codes "WITH"
    ∷ codes "TABLE"
    ∷ codes "VALUES"
    ∷ codes "EXPLAIN"
    ∷ codes "SHOW"
    ∷ []

-- `ddlPrefixes`
abbrev pub ddl_prefixes : List (List ℕ)
ddl_prefixes = codes "CREATE" ∷ codes "DROP" ∷ codes "ALTER" ∷ codes "TRUNCATE" ∷ []

-- `dmlPrefixes`
abbrev pub dml_prefixes : List (List ℕ)
dml_prefixes = codes "INSERT" ∷ codes "UPDATE" ∷ codes "DELETE" ∷ codes "MERGE" ∷ []

-- The statements that admit no write
abbrev pub passive_prefixes : List (List ℕ)
passive_prefixes = codes "TABLE" ∷ codes "VALUES" ∷ codes "SHOW" ∷ []

-- `rest == "" || !isIdentifierByte(rest[0])`
abbrev pub at_word_end : List ℕ → Bool
at_word_end [] = true
at_word_end (c ∷ q) = not (is_identifier_byte c)

-- A turn of the loop of `hasPrefix`
unfoldable pub has_keyword : List ℕ → List ℕ → Bool
unfolding strip_tag
has_keyword upper kw = elim (strip_tag kw upper) [ none ↦ false | some rest ↦ at_word_end rest ]

-- `hasPrefix`
unfoldable pub has_prefix : List ℕ → List (List ℕ) → Bool
unfolding has_keyword
has_prefix upper [] = false
has_prefix upper (kw ∷ kws) = if has_keyword upper kw then true else has_prefix upper kws

-- `strings.HasPrefix`
unfoldable pub starts_by : List ℕ → List ℕ → Bool
unfolding strip_tag
starts_by upper kw = elim (strip_tag kw upper) [ none ↦ false | some rest ↦ true ]

-- The last switch of `classifyReadPrefixed`
unfoldable pub classify_scanned : Texts → List ℕ → QueryType × Bool
classify_scanned t scanned =
    if t.dml_indicator scanned
    then (query_type_dml, true)
    else if t.ddl_indicator scanned
    then (query_type_ddl, true)
    else (query_type_select, false)

-- `classifyReadPrefixed`
unfoldable pub classify_read_prefixed : Texts → List ℕ → QueryType × Bool
unfolding has_prefix starts_by classify_scanned
classify_read_prefixed t upper =
    if has_prefix upper passive_prefixes
    then (query_type_select, false)
    else if starts_by upper (codes "EXPLAIN") && not (t.analyze_option upper)
    then (query_type_select, false)
    else classify_scanned t (t.row_lock_clause upper)

-- The switch of `ClassifyQuery`
unfoldable pub classify_upper : Texts → List ℕ → QueryType × Bool
unfolding has_prefix classify_read_prefixed
classify_upper t upper =
    if has_prefix upper ddl_prefixes
    then (query_type_ddl, true)
    else if has_prefix upper dml_prefixes
    then (query_type_dml, true)
    else if has_prefix upper read_prefixes
    then classify_read_prefixed t upper
    else (query_type_other, true)

-- `upper`
abbrev pub upper_residue : Texts → List ℕ → List ℕ
upper_residue t residue = t.to_upper (t.trim_space residue)

-- `ClassifyQuery`
unfoldable pub classify_query : Texts → List ℕ → QueryType × Bool
unfolding strip classify_upper
classify_query t sql = classify_upper t (upper_residue t (strip sql).0)
