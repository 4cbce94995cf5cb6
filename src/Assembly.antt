-- ===== src/Assembly.antt =====
-- internal/probeassemble, internal/references2/helpers.go and the directives of
-- internal/dataplane/config/build.go: rules and actions become one SecLang document.
pub mod Crs
pub mod ConfigCrs
pub mod Document
pub mod Order
pub mod PathB
pub mod RenderIds
pub mod Resolved
pub mod Directives
mod Tests
