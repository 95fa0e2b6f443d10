-- ===== src/Tests/Chat.antt =====
-- Statements at which the classifier is applied.
use pgedge_postgres_mcp.Prelude.{
  ℕ, ◌-◌, ◌≡◌, refl, Bool, true, false, not, ◌&&◌, ◌||◌, List, [], ◌∷◌, ◌++◌, leb, ◌==◌,
  if◌then◌else◌, codes,
}
use pgedge_postgres_mcp.Sqltext.{strip, trim_right, is_identifier_byte}
use pgedge_postgres_mcp.Sqltext.Literal.{doubled}
use pgedge_postgres_mcp.Chat.QueryClassify.{
  Texts, classify_query, upper_residue, query_type_select, query_type_dml,
}
use pgedge_postgres_mcp.Chat.QueryClassify.FirstWord.{first_word, is_one_of}
use pgedge_postgres_mcp.Chat.QueryClassify.Reads.{
  classify_query-literal, reads, classify_query_lem, classify_query-literal,
}

abbrev upper_bytes : List ℕ → List ℕ
upper_bytes [] = []
upper_bytes (c ∷ q) = (if leb 97 c && leb c 122 then c - 32 else c) ∷ upper_bytes q

abbrev trim_left : List ℕ → List ℕ
trim_left [] = []
trim_left (c ∷ q) = if c == 32 then trim_left q else c ∷ q

abbrev has_word : List (List ℕ) → Bool → List ℕ → Bool
has_word kws inside [] = false
has_word kws inside (c ∷ q) =
    (not inside && is_one_of kws (first_word (c ∷ q))) || has_word kws (is_identifier_byte c) q

abbrev ascii_texts : Texts
ascii_texts = record {
  to_upper = upper_bytes;
  trim_space = λ q. trim_left (trim_right q);
  dml_indicator =
      has_word (codes "INSERT" ∷ codes "UPDATE" ∷ codes "DELETE" ∷ codes "MERGE" ∷ []) false;
  ddl_indicator =
      has_word
        (codes "INTO"
          ∷ codes "CREATE"
          ∷ codes "DROP"
          ∷ codes "ALTER"
          ∷ codes "TRUNCATE"
          ∷ codes "GRANT"
          ∷ codes "REVOKE"
          ∷ [])
        false;
  row_lock_clause = λ q. q;
  analyze_option = has_word (codes "ANALYZE" ∷ []) false;
}

abbrev deleting_cte : List ℕ
deleting_cte = codes " /* x */ with t as (delete from a returning b) select b from t"

deleting_cte_is_dml : classify_query ascii_texts deleting_cte ≡ (query_type_dml, true)
unfolding classify_query trim_right
deleting_cte_is_dml = refl

plan_is_read :
    classify_query ascii_texts (codes "explain delete from a") ≡ (query_type_select, false)
unfolding classify_query trim_right
plan_is_read = refl

run_plan_is_write :
    classify_query ascii_texts (codes "explain analyze delete from a") ≡ (query_type_dml, true)
unfolding classify_query trim_right
run_plan_is_write = refl

classify_query_lem_example :
    (classify_query ascii_texts deleting_cte).1
    ≡ not (reads ascii_texts (upper_residue ascii_texts (strip deleting_cte).0))
classify_query_lem_example = classify_query_lem ascii_texts deleting_cte

classify_query-literal_example :
    classify_query ascii_texts
      (codes "select " ++ 39 ∷ (doubled 39 (codes "drop 'a'; --") ++ 39 ∷ codes " from t"))
    ≡ classify_query ascii_texts (codes "select " ++ 39 ∷ (39 ∷ codes " from t"))
classify_query-literal_example =
    classify_query-literal ascii_texts (codes "select ") (codes "drop 'a'; --") (codes " from t")
      refl refl refl
