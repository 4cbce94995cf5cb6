-- ===== src/Api.antt =====
-- api/seclang/v1beta1 and api/waf/v1beta1: the custom resources, as far as the modelled code reads
-- them. A pointer that may be nil is an `Option`. Ids are never compared below 1 by the code, so a
-- negative id is modelled by 0, the value of an absent one.
pub mod Atoi
pub mod SecRule
pub mod SecAction
