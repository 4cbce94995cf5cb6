-- ===== src/Portable.antt =====
-- internal/dataplane/config/build.go: from a WAF to the configuration that the data plane attaches.
pub mod Labels
pub mod Provider
pub mod Filters
pub mod Tests
