-- ===== src/Convert/Rule.antt =====
-- api/seclang/v1beta1/convert/secrule.go: one rule without its chain.
use kubewaf.Prelude.{
  String, Bool, false, ◌||◌, Option, none, some, List, [], ◌∷◌, ◌++◌, map, if◌then◌else◌, str_eq,
}
use kubewaf.Prelude.Result.{Result, ok, ◌>>=◌}
use kubewaf.Api.SecRule.{
  Action, SecRuleActions, SecRuleMetadata, Variable, Collection, Operator, Condition, Match,
  to_condition,
}
use kubewaf.Convert.Crslang.{Crslang, ConvertError}
use kubewaf.Convert.Transformations.{map_api_transformations}
use kubewaf.Convert.Actions.{SeclangActions, no_actions, sec_action_to_csr}

-- `hasChainInFlow` and `hasChainInActions` on a list of flow actions.
unfoldable pub has_chain : List Action → Bool
has_chain [] = false
has_chain (f ∷ fs) = str_eq f.type "chain" || has_chain fs

unfoldable pub has_chain_in_flow : Option SecRuleActions → Bool
unfolding has_chain
has_chain_in_flow none = false
has_chain_in_flow (some a) = has_chain a.flow

-- `stripDisruptiveActions`
abbrev pub strip_disruptive_actions : Option SecRuleActions → Option SecRuleActions
strip_disruptive_actions none = none
strip_disruptive_actions (some a) = some (record a { disruptive_action = none })

abbrev pub chain_action : Action
chain_action = record { type = "chain"; value = "" }

abbrev pub or_empty : Option SecRuleActions → SecRuleActions
or_empty (some a) = a
or_empty none = record {
  data_actions = [];
  disruptive_action = none;
  flow = [];
  non_disruptive = [];
}

unfoldable pub with_chain : SecRuleActions → SecRuleActions
unfolding has_chain
with_chain a = if has_chain a.flow then a else record a { flow = a.flow ++ (chain_action ∷ []) }

-- `ensureChainAction`
unfoldable pub ensure_chain_action : Option SecRuleActions → SecRuleActions
unfolding with_chain
ensure_chain_action actions = with_chain (or_empty actions)

module _ (crs : Crslang) where
  -- `types.Condition`; an operator without a name is the unknown one.
  pub record CrsCondition : Type 0 where
    pub variables : List Variable
    pub collections : List Collection
    pub operator : Operator
    pub transformations : List crs.Transformation
    pub always_match : Bool
    pub script : String

  -- `types.RuleWithCondition` without its chained rule. No metadata stands for its zero value.
  pub record Link : Type 0 where
    pub metadata : Option crs.Metadata
    pub conditions : List CrsCondition
    pub actions : SeclangActions crs

  unfoldable pub convert_variable : Variable → Variable
  convert_variable v = record { name = crs.convert_variable v.name; excluded = v.excluded }

  unfoldable pub convert_collection : Collection → Collection
  convert_collection c = record {
    name = crs.convert_collection c.name;
    arguments = c.arguments;
    excluded = c.excluded;
    count = c.count;
  }

  abbrev unknown_operator : Operator
  unknown_operator = record { negate = false; name = ""; value = "" }

  unfoldable pub convert_operator : Condition → Operator
  convert_operator c = if c.always_match then unknown_operator else record {
    negate = c.operator.negate;
    name = if str_eq c.operator.name "" then "" else crs.convert_operator c.operator.name;
    value = c.operator.value;
  }

  unfoldable pub convert_condition : Condition → Result ConvertError CrsCondition
  unfolding convert_variable convert_collection convert_operator map_api_transformations
  convert_condition c = do
    mapped ← map_api_transformations crs c.transformations
    ok (record {
      variables = map convert_variable c.variables;
      collections = map convert_collection c.collections;
      operator = convert_operator c;
      transformations = mapped;
      always_match = c.always_match;
      script = c.script;
    })

  unfoldable pub convert_conditions : List Condition → Result ConvertError (List CrsCondition)
  unfolding convert_condition
  convert_conditions [] = ok []
  convert_conditions (c ∷ cs) = do
    got ← convert_condition c
    more ← convert_conditions cs
    ok (got ∷ more)

  unfoldable pub convert_metadata :
      Option SecRuleMetadata → Result ConvertError (Option crs.Metadata)
  convert_metadata none = ok none
  convert_metadata (some m) = do got ← crs.copy_metadata m; ok (some got)

  unfoldable pub convert_actions : Option SecRuleActions → Result ConvertError (SeclangActions crs)
  unfolding sec_action_to_csr
  convert_actions none = ok (no_actions crs)
  convert_actions (some a) = sec_action_to_csr crs a

  -- `secLangSecRuleToRuleWithCondition`, by the fields that it reads.
  unfoldable pub rule_to_link :
      Option SecRuleMetadata → List Condition → Option SecRuleActions → Result ConvertError Link
  unfolding convert_metadata convert_conditions convert_actions
  rule_to_link meta conditions actions = do
    metadata ← convert_metadata meta
    converted ← convert_conditions conditions
    done ← convert_actions actions
    ok (record { metadata = metadata; conditions = converted; actions = done })

  -- `matchToRuleWithCondition`
  unfoldable pub match_to_link :
      Option SecRuleMetadata → Match → Option SecRuleActions → Bool → Result ConvertError Link
  unfolding rule_to_link to_condition ensure_chain_action
  match_to_link meta m actions need_chain =
      rule_to_link meta (to_condition m ∷ [])
        (if need_chain then some (ensure_chain_action actions) else actions)

  unfoldable pub filter_chain : List crs.Action → List crs.Action
  filter_chain [] = []
  filter_chain (a ∷ actions) =
      let rest = filter_chain actions in if str_eq (crs.get_key a) "chain" then rest else a ∷ rest

  -- `removeChainFromFlowActions`
  unfoldable pub remove_chain_from_flow_actions : Link → Link
  unfolding filter_chain
  remove_chain_from_flow_actions link = record link {
    actions = record link.actions { flow_actions = filter_chain link.actions.flow_actions };
  }
