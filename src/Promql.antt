-- ===== src/Promql.antt =====
-- internal/subresourceapi/promql_scope.go: PromQL queries are rewritten so that every selector in
-- them names the WAF, or the WAFs, that the caller may read.
pub mod Scan
pub mod Post
pub mod Matcher
pub mod Scope
pub mod Names
pub mod Selectors
pub mod Grammar
pub mod Rewrite
mod Tests
