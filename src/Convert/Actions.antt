-- ===== src/Convert/Actions.antt =====
-- api/seclang/v1beta1/convert/actions.go: the actions of a rule as those of crslang.
use kubewaf.Prelude.{String, Option, none, some, List, [], ◌∷◌, if◌then◌else◌, str_eq}
use kubewaf.Prelude.Result.{Result, ok, ◌>>=◌}
use kubewaf.Api.SecRule.{Action, SecRuleActions}
use kubewaf.Convert.Crslang.{Crslang, ConvertError}

module _ (crs : Crslang) where
  -- `types.SeclangActions`
  pub record SeclangActions : Type 0 where
    pub data_actions : List crs.Action
    pub disruptive_action : Option crs.Action
    pub flow_actions : List crs.Action
    pub non_disruptive_actions : List crs.Action

  -- `types.SeclangActions{}`
  abbrev pub no_actions : SeclangActions
  no_actions = record {
    data_actions = [];
    disruptive_action = none;
    flow_actions = [];
    non_disruptive_actions = [];
  }

  unfoldable pub action_to_csr : crs.ActionType → String → Result ConvertError crs.Action
  action_to_csr type value =
      if str_eq value "" then crs.new_action_only type else crs.new_action_with_param type value

  -- `ActionToCSR`, by the mapper of the action's kind.
  unfoldable pub actions_to_csr :
      (String → crs.ActionType) → List Action → Result ConvertError (List crs.Action)
  unfolding action_to_csr
  actions_to_csr mapper [] = ok []
  actions_to_csr mapper (a ∷ actions) = do
    got ← action_to_csr (mapper a.type) a.value
    more ← actions_to_csr mapper actions
    ok (got ∷ more)

  unfoldable pub disruptive_to_csr : Option Action → Result ConvertError (Option crs.Action)
  unfolding action_to_csr
  disruptive_to_csr none = ok none
  disruptive_to_csr (some a) = do
    got ← action_to_csr (crs.disruptive_action_type a.type) a.value
    ok (some got)

  -- `SecActionToCSR`
  unfoldable pub sec_action_to_csr : SecRuleActions → Result ConvertError SeclangActions
  unfolding actions_to_csr disruptive_to_csr
  sec_action_to_csr source = do
    data_actions ← actions_to_csr crs.data_action_type source.data_actions
    disruptive ← disruptive_to_csr source.disruptive_action
    flow ← actions_to_csr crs.flow_action_type source.flow
    others ← actions_to_csr crs.non_disruptive_action_type source.non_disruptive
    ok (record {
      data_actions = data_actions;
      disruptive_action = disruptive;
      flow_actions = flow;
      non_disruptive_actions = others;
    })
