-- ===== src/Chat/QueryClassify/Reads.antt =====
-- Which statements are reported as reads, and what a literal in them has to do with it.
use pgedge_postgres_mcp.Prelude.{
  ℕ, ◌≡◌, refl, sym, ap, ◌∙◌, inl, inr, Bool, true, false, not, ◌&&◌, ◌||◌, List, [], ◌∷◌, ◌++◌,
  arith, Bool-cases, all, codes,
}
use pgedge_postgres_mcp.Sqltext.{strip, strip_tag}
use pgedge_postgres_mcp.Sqltext.Literal.{is_ordinary, doubled}
use pgedge_postgres_mcp.Tools.ReadonlyGuard.Smuggling.{residue_around, ends_in_e}
use pgedge_postgres_mcp.Chat.QueryClassify.{
  Texts, classify_query, classify_upper, upper_residue, read_prefixes, ddl_prefixes, dml_prefixes,
  passive_prefixes, starts_by,
}
use pgedge_postgres_mcp.Chat.QueryClassify.FirstWord.{
  first_word, same_bytes, is_one_of, is_one_of-all, has_prefix_lem, starts_by_lem,
}

-- The first words of the statements that are read further.
abbrev pub scanned_prefixes : List (List ℕ)
scanned_prefixes = codes "SELECT" ∷ codes "WITH" ∷ codes "EXPLAIN" ∷ []

-- A statement that reads: one of `TABLE`, `VALUES` and `SHOW`, a plan that is not run, or one of
-- `SELECT`, `WITH` and `EXPLAIN` without a keyword of a write beside its row locks.
abbrev pub reads : Texts → List ℕ → Bool
reads t upper =
    let w = first_word upper in
    let scanned = t.row_lock_clause upper in
    is_one_of passive_prefixes w
    || ((same_bytes w (codes "EXPLAIN") && not (t.analyze_option upper))
        || (is_one_of scanned_prefixes w
            && not (t.dml_indicator scanned || t.ddl_indicator scanned)))

both_or_neither : (a b : Bool) → ((a && b) || (not a && not b)) ≡ true → a ≡ b
both_or_neither a b e = ground arith

module _ (w : List ℕ) (e : is_one_of read_prefixes w ≡ true) where
  not_ddl : is_one_of ddl_prefixes w ≡ false
  not_ddl =
      let no = is_one_of-all (λ k. not (is_one_of ddl_prefixes k)) read_prefixes w refl e in
      ground arith

  not_dml : is_one_of dml_prefixes w ≡ false
  not_dml =
      let no = is_one_of-all (λ k. not (is_one_of dml_prefixes k)) read_prefixes w refl e in
      ground arith

  explains : starts_by w (codes "EXPLAIN") ≡ same_bytes w (codes "EXPLAIN")
  unfolding starts_by strip_tag
  explains =
      let p : List ℕ → Bool = λ k.
        (starts_by k (codes "EXPLAIN") && same_bytes k (codes "EXPLAIN"))
        || (not (starts_by k (codes "EXPLAIN")) && not (same_bytes k (codes "EXPLAIN"))) in
      both_or_neither (starts_by w (codes "EXPLAIN")) (same_bytes w (codes "EXPLAIN"))
        (is_one_of-all p read_prefixes w refl e)

module _ (w : List ℕ) (e : is_one_of read_prefixes w ≡ false) where
  not_passive : is_one_of passive_prefixes w ≡ false
  not_passive = ground arith

  not_explain : same_bytes w (codes "EXPLAIN") ≡ false
  not_explain = ground arith

  not_scanned : is_one_of scanned_prefixes w ≡ false
  not_scanned = ground arith

classify_upper_lem : (t : Texts) (u : List ℕ) → (classify_upper t u).1 ≡ not (reads t u)
unfolding classify_upper
classify_upper_lem t u =
    let w = first_word u in
    rw
      (
        has_prefix_lem u ddl_prefixes refl,
        has_prefix_lem u dml_prefixes refl,
        has_prefix_lem u read_prefixes refl,
        has_prefix_lem u passive_prefixes refl,
        starts_by_lem u (codes "EXPLAIN") refl,
      )
      (elim (Bool-cases (is_one_of read_prefixes w)) [
        | inl y ↦ rw (y, not_ddl w y, not_dml w y, explains w y) (ground arith)
        | inr n ↦ rw (n, not_passive w n, not_scanned w n, not_explain w n) (ground arith)
      ])

-- A statement is reported as a write exactly if it does not read, where it reads if its first
-- word, outside of comments, is `TABLE`, `VALUES` or `SHOW`, or is `EXPLAIN` in a text without the
-- option `ANALYZE`, or is `SELECT`, `WITH` or `EXPLAIN` in a text without a keyword of a write
-- beside its row locks.
pub classify_query_lem :
    (t : Texts) (sql : List ℕ)
    → (classify_query t sql).1 ≡ not (reads t (upper_residue t (strip sql).0))
unfolding classify_query
classify_query_lem t sql = classify_upper_lem t (upper_residue t (strip sql).0)

-- What a plain literal between two pieces of ordinary text holds (no dash, slash, quote or dollar
-- in these, and no E right before the literal) has no effect on the type of the statement, nor on
-- whether it is reported as a write: both are those of the text with an empty literal.
pub classify_query-literal :
    (t : Texts) (a body post : List ℕ)
    → all is_ordinary a ≡ true
    → ends_in_e a ≡ false
    → all is_ordinary post ≡ true
    → classify_query t (a ++ 39 ∷ (doubled 39 body ++ 39 ∷ post))
      ≡ classify_query t (a ++ 39 ∷ (39 ∷ post))
unfolding classify_query
classify_query-literal t a body post ok apart ok' =
    let full = residue_around a body post ok apart ok' in
    let empty = residue_around a [] post ok apart ok' in
    ap (λ r. classify_upper t (upper_residue t r)) (full ∙ sym empty)
