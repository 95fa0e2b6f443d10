-- ===== src/Tools.antt =====
-- internal/tools: what the query tools check of a statement.
pub mod ReadonlyGuard
