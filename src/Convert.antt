-- ===== src/Convert.antt =====
-- api/seclang/v1beta1/convert: from the custom resources to the rules of crslang.
pub mod Crslang
pub mod Transformations
pub mod Actions
pub mod Rule
pub mod Chain
pub mod Legacy
pub mod Tests
