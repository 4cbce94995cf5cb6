-- ===== src/IdPool.antt =====
-- internal/controller/seclang/id_pool.go: rule ids are taken from a pool that all SecRules share.
pub mod Pool
pub mod Allocate
pub mod Assign
pub mod Apply
mod Tests
