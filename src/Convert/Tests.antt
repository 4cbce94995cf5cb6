-- ===== src/Convert/Tests.antt =====
-- Runs of the conversion with a crslang that keeps the API's own names.
use kubewaf.Prelude.{
  ◌≡◌, refl, String, true, false, Option, none, some, List, [], ◌∷◌, All, length, str_eq, if_ind,
}
use kubewaf.Prelude.Int.{pos}
use kubewaf.Prelude.Result.{ok, err, Returns}
use kubewaf.Api.SecRule.{
  Action, SecRuleActions, SecRuleSpec, Match, SecLangSecRule, to_condition, empty_metadata,
  SecRuleMetadata,
}
use kubewaf.Convert.Crslang.{Crslang, unknown_transformation, at_index}
use kubewaf.Convert.Transformations.{map_api_transformations, validate_api_transformations}
use kubewaf.Convert.Transformations.Agree.{
  IsKnown, error_of, validate_agrees, map_api_transformations-AreKnown,
}
use kubewaf.Convert.Actions.{action_to_csr}
use kubewaf.Convert.Rule.{Link}
use kubewaf.Convert.Chain.{
  always, Directive, rule, marker, convert_matches, convert_single_rule_form,
}
use kubewaf.Convert.Chain.Shape.{IsChain, NamesChain, convert_matches-IsChain}
use kubewaf.Convert.Legacy.{convert_legacy_sec_lang_rules}
use kubewaf.Convert.Legacy.Links.{count_links, EndsAtHead, legacy_bag_links}

-- An action is its key and its value.
abbrev crs : Crslang
crs = record {
  Action = Action;
  ActionType = String;
  Transformation = String;
  Metadata = SecRuleMetadata;
  data_action_type = λ t. t;
  disruptive_action_type = λ t. t;
  flow_action_type = λ t. t;
  non_disruptive_action_type = λ t. t;
  new_action_only = λ t. ok (record { type = t; value = "" });
  new_action_with_param = λ t v. ok (record { type = t; value = v });
  get_key = λ a. a.type;
  convert_transformation = λ t. t;
  transformation_name = λ t. t;
  is_unknown = λ t. false;
  normalise_path = "normalisePath";
  normalise_path_win = "normalisePathWin";
  copy_metadata = λ m. ok m;
  convert_variable = λ v. v;
  convert_collection = λ c. c;
  convert_operator = λ o. o;
}

names_chain : NamesChain crs
unfolding action_to_csr
names_chain value =
    if_ind (Returns λ (a : Action). str_eq a.type "chain" ≡ true) (str_eq value "") refl refl

validate_agrees_example :
    validate_api_transformations crs ("lowercase" ∷ "unknown" ∷ [])
    ≡ error_of (map_api_transformations crs ("lowercase" ∷ "unknown" ∷ []))
validate_agrees_example = validate_agrees crs ("lowercase" ∷ "unknown" ∷ [])

refuses_unknown :
    map_api_transformations crs ("lowercase" ∷ "unknown" ∷ [])
    ≡ err (at_index 1 unknown_transformation)
unfolding map_api_transformations
refuses_unknown = refl

map_api_transformations-AreKnown_example :
    Returns (All (IsKnown crs)) (map_api_transformations crs ("lowercase" ∷ "normalizePath" ∷ []))
map_api_transformations-AreKnown_example =
    map_api_transformations-AreKnown crs refl refl ("lowercase" ∷ "normalizePath" ∷ [])

abbrev on : String → Match
on name = record always {
  variables = record { name = name; excluded = false } ∷ [];
  operator = record { negate = false; name = "rx"; value = "x" };
  always_match = false;
}

abbrev deny : SecRuleActions
deny = record {
  data_actions = [];
  disruptive_action = some (record { type = "deny"; value = "" });
  flow = [];
  non_disruptive = [];
}

abbrev three : SecRuleSpec
three = record {
  order = pos 0;
  marker_after = "END";
  metadata = some empty_metadata;
  matches = on "ARGS" ∷ on "REQUEST_URI" ∷ on "REQUEST_BODY" ∷ [];
  actions = some deny;
  sec_rules = [];
}

abbrev keyed : String → Action
keyed key = record { type = key; value = "" }

abbrev link : Option SecRuleMetadata → String → Option Action → List Action → Link crs
link meta name disruptive flow = record {
  metadata = meta;
  conditions =
      record {
        variables = record { name = name; excluded = false } ∷ [];
        collections = [];
        operator = record { negate = false; name = "rx"; value = "x" };
        transformations = [];
        always_match = false;
        script = "";
      }
      ∷ [];
  actions = record {
    data_actions = [];
    disruptive_action = disruptive;
    flow_actions = flow;
    non_disruptive_actions = [];
  };
}

abbrev three_links : List (Link crs)
three_links =
    link (some empty_metadata) "ARGS" (some (keyed "deny")) (keyed "chain" ∷ [])
    ∷ link none "REQUEST_URI" none (keyed "chain" ∷ [])
    ∷ link none "REQUEST_BODY" none []
    ∷ []

converts_three : convert_single_rule_form crs three ≡ ok (rule three_links ∷ marker "END" ∷ [])
unfolding convert_single_rule_form
converts_three = refl

convert_matches-IsChain_example : IsChain crs three_links × (length three_links ≡ 3)
unfolding convert_matches
convert_matches-IsChain_example = convert_matches-IsChain crs names_chain three three_links refl

abbrev entry : String → List Action → SecLangSecRule
entry name flow = record {
  metadata = none;
  conditions = to_condition (on name) ∷ [];
  actions = some (record deny { disruptive_action = none; flow = flow });
  chained_rule = false;
  sec_marker = "";
}

abbrev bag : SecRuleSpec
bag = record {
  order = pos 0;
  marker_after = "";
  metadata = none;
  matches = [];
  actions = none;
  sec_rules =
      entry "ARGS" (keyed "chain" ∷ [])
      ∷ entry "REQUEST_URI" (keyed "chain" ∷ [])
      ∷ entry "REQUEST_BODY" []
      ∷ [];
}

abbrev bag_links : List (Directive crs)
bag_links =
    rule (
      link none "ARGS" none (keyed "chain" ∷ [])
      ∷ link none "REQUEST_URI" none []
      ∷ link none "REQUEST_BODY" none []
      ∷ [])
    ∷ []

legacy_bag_links_example : (count_links crs bag_links ≡ 3) × All (EndsAtHead crs) bag_links
unfolding convert_legacy_sec_lang_rules to_condition
legacy_bag_links_example = legacy_bag_links crs bag bag_links refl
