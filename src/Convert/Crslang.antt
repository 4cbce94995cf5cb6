-- ===== src/Convert/Crslang.antt =====
-- github.com/coreruleset/crslang, the copier, and the generated mappers between its names and those of
-- the API, as the conversion uses them.
use kubewaf.Prelude.{ℕ, String, Bool}
use kubewaf.Prelude.Result.{Result}
use kubewaf.Api.SecRule.{SecRuleMetadata}

pub data ConvertError : Type 0 where
  library : String → ConvertError
  empty_transformation : ConvertError
  unknown_transformation : ConvertError
  unsupported_transformation : String → ConvertError
  -- `transformations[%d]: %w`
  at_index : ℕ → ConvertError → ConvertError

-- An action type is what a generated mapper gives for an action of the API, by its kind.
pub record Crslang : Type 1 where
  pub Action : Type 0
  pub ActionType : Type 0
  pub Transformation : Type 0
  pub Metadata : Type 0
  pub data_action_type : String → ActionType
  pub disruptive_action_type : String → ActionType
  pub flow_action_type : String → ActionType
  pub non_disruptive_action_type : String → ActionType
  pub new_action_only : ActionType → Result ConvertError Action
  pub new_action_with_param : ActionType → String → Result ConvertError Action
  pub get_key : Action → String
  -- the generated mapper, `String()`, and `== types.UnknownTransformation`
  pub convert_transformation : String → Transformation
  pub transformation_name : Transformation → String
  pub is_unknown : Transformation → Bool
  pub normalise_path : Transformation
  pub normalise_path_win : Transformation
  pub copy_metadata : SecRuleMetadata → Result ConvertError Metadata
  pub convert_variable : String → String
  pub convert_collection : String → String
  pub convert_operator : String → String
