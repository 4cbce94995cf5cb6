-- ===== src/Api/SecAction.antt =====
-- api/seclang/v1beta1/secaction_types.go: SecAction. (Its status is not read by the assembly.)
use kubewaf.Prelude.{String, Option, List}
use kubewaf.Api.SecRule.{SecRuleMetadata, SecRuleActions}

pub record SecActionSpec : Type 0 where
  pub metadata : Option SecRuleMetadata
  pub actions : SecRuleActions
  pub transformations : List String

pub record SecAction : Type 0 where
  pub namespace : String
  pub name : String
  pub spec : SecActionSpec
