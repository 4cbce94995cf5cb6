-- ===== src/Convert/Chain.antt =====
-- api/seclang/v1beta1/convert/secrule.go: the rule with its chain, in the canonical form of a SecRule.
pub mod Shape
use kubewaf.Prelude.{
  String, Bool, true, false, not, Option, none, some, List, [], ◌∷◌, if◌then◌else◌, str_eq, is_nil,
}
use kubewaf.Prelude.Result.{Result, ok, err, ◌>>=◌}
use kubewaf.Api.SecRule.{SecRuleActions, SecRuleSpec, Match, Operator}
use kubewaf.Convert.Crslang.{Crslang, ConvertError}
use kubewaf.Convert.Transformations.{map_api_transformations}
use kubewaf.Convert.Rule.{
  strip_disruptive_actions, Link, CrsCondition, match_to_link, remove_chain_from_flow_actions,
  convert_metadata, convert_actions,
}

-- `Match{AlwaysMatch: true}`
abbrev pub always : Match
always = record {
  variables = [];
  collections = [];
  operator = record { negate = false; name = ""; value = "" };
  transformations = [];
  always_match = true;
  script = "";
  actions = none;
}

module _ (crs : Crslang) where
  -- A directive: a rule with the links of its chain, the head first, or a marker.
  pub data Directive : Type 0 where
    rule : List (Link crs) → Directive
    marker : String → Directive

  unfoldable pub marker_after : String → List Directive
  marker_after name = if str_eq name "" then [] else marker name ∷ []

  -- The actions of a link behind the head.
  unfoldable pub child_actions : SecRuleSpec → Match → Bool → Option SecRuleActions
  child_actions spec m is_last = elim m.actions [
    | some a ↦ strip_disruptive_actions (some a)
    | none ↦ if is_last then strip_disruptive_actions spec.actions else none
  ]

  -- What is done to a link behind the head once it is converted.
  unfoldable pub finish_child : Bool → Link crs → Link crs
  unfolding remove_chain_from_flow_actions
  finish_child is_last link =
      let kept = if is_last then remove_chain_from_flow_actions crs link else link in
      record kept { actions = record kept.actions { disruptive_action = none } }

  -- The links behind the head, in the order of the matches.
  unfoldable pub child_links : SecRuleSpec → List Match → Result ConvertError (List (Link crs))
  unfolding match_to_link child_actions finish_child
  child_links spec [] = ok []
  child_links spec (m ∷ ms) = do
    link ← match_to_link crs none m (child_actions spec m (is_nil ms)) (not (is_nil ms))
    more ← child_links spec ms
    ok (finish_child (is_nil ms) link ∷ more)

  abbrev pub head_actions : SecRuleSpec → Match → Option SecRuleActions
  head_actions spec m = elim m.actions [ some a ↦ some a | none ↦ spec.actions ]

  -- The links of the whole chain.
  unfoldable pub chain_links :
      SecRuleSpec → Match → List Match → Result ConvertError (List (Link crs))
  unfolding match_to_link child_links
  chain_links spec m ms = do
    head ← match_to_link crs spec.metadata m (head_actions spec m) (not (is_nil ms))
    more ← child_links spec ms
    ok (head ∷ more)

  abbrev unknown_condition : List crs.Transformation → CrsCondition crs
  unknown_condition mapped = record {
    variables = [];
    collections = [];
    operator = record { negate = false; name = ""; value = "" };
    transformations = mapped;
    always_match = true;
    script = "";
  }

  -- `alwaysMatchToRuleWithCondition`
  unfoldable pub always_link : SecRuleSpec → Match → Result ConvertError (List (Link crs))
  unfolding map_api_transformations convert_metadata convert_actions
  always_link spec m = do
    mapped ← map_api_transformations crs m.transformations
    metadata ← convert_metadata crs spec.metadata
    actions ← convert_actions crs (head_actions spec m)
    ok (
        record {
          metadata = metadata;
          conditions = unknown_condition mapped ∷ [];
          actions = actions;
        }
        ∷ [])

  -- A lone match that always matches is no chain.
  unfoldable pub convert_matches : SecRuleSpec → List Match → Result ConvertError (List (Link crs))
  unfolding chain_links always_link
  convert_matches spec [] = always_link spec always
  convert_matches spec (m ∷ []) =
      if m.always_match then always_link spec m else chain_links spec m []
  convert_matches spec (m ∷ n ∷ ms) = chain_links spec m (n ∷ ms)

  -- `convertSingleRuleForm`
  unfoldable pub convert_single_rule_form : SecRuleSpec → Result ConvertError (List Directive)
  unfolding convert_matches marker_after
  convert_single_rule_form spec = do
    links ← convert_matches spec spec.matches
    ok (rule links ∷ marker_after spec.marker_after)
