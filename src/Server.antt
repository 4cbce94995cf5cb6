-- ===== src/Server.antt =====
-- internal/subresourceapi: the server of the subresource API, apart from the scoping of PromQL
-- (Promql) and the assembly of documents (Assembly).
pub mod Errors
pub mod Routes
pub mod Gate
pub mod Access
pub mod Query
pub mod Window
pub mod Traces
pub mod Tests
