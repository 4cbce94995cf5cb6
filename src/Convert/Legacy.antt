-- ===== src/Convert/Legacy.antt =====
-- api/seclang/v1beta1/convert/secrule.go and secaction.go: the legacy bag of rules, and the conversions
-- of the two kinds.
pub mod Links
use kubewaf.Prelude.{
  ℕ, zero, suc, ◌+◌, ◌≡◌, refl, String, Bool, true, false, Option, none, some, List, [], ◌∷◌, ◌++◌,
  if◌then◌else◌, str_eq, length,
}
use kubewaf.Prelude.Int.{pos}
use kubewaf.Prelude.Result.{Result, ok, err, ◌>>=◌}
use kubewaf.Api.SecRule.{SecLangSecRule, SecRuleSpec, Match, is_single_rule_form}
use kubewaf.Api.SecAction.{SecActionSpec}
use kubewaf.Convert.Crslang.{Crslang, ConvertError}
use kubewaf.Convert.Rule.{Link, has_chain_in_flow, rule_to_link, remove_chain_from_flow_actions}
use kubewaf.Convert.Chain.{always, Directive, rule, marker, marker_after, convert_single_rule_form}

module _ (crs : Crslang) where
  unfoldable pub entry_link : SecLangSecRule → Result ConvertError (Link crs)
  unfolding rule_to_link
  entry_link r = rule_to_link crs r.metadata r.conditions r.actions

  -- The chain of some entries and the marker behind it: the last entry's, or else the first's.
  unfoldable pub emit : List (Link crs) → String → SecLangSecRule → List (Directive crs)
  unfolding marker_after
  emit links first last =
      rule links ∷ marker_after crs (if str_eq last.sec_marker "" then first else last.sec_marker)

  -- The entries behind `last`, with the links of the chain that it stands in and the marker of the
  -- entry that began the chain. The link of an entry that continues a chain loses its `chain`.
  unfoldable pub legacy_chain :
      List (Link crs)
      → String
      → SecLangSecRule
      → List SecLangSecRule
      → Result ConvertError (List (Directive crs))
  unfolding emit entry_link has_chain_in_flow remove_chain_from_flow_actions
  legacy_chain links first last [] = ok (emit links first last)
  legacy_chain links first last (next ∷ rules) = do
    link ← entry_link next
    if has_chain_in_flow last.actions
        then legacy_chain (links ++ (remove_chain_from_flow_actions crs link ∷ [])) first next rules
        else (do
          more ← legacy_chain (link ∷ []) next.sec_marker next rules
          ok (emit links first last ++ more))

  unfoldable pub legacy_rules : List SecLangSecRule → Result ConvertError (List (Directive crs))
  unfolding entry_link legacy_chain
  legacy_rules [] = ok []
  legacy_rules (r ∷ rules) = do link ← entry_link r; legacy_chain (link ∷ []) r.sec_marker r rules

  -- `convertLegacySecLangRules`
  unfoldable pub convert_legacy_sec_lang_rules :
      SecRuleSpec → Result ConvertError (List (Directive crs))
  unfolding legacy_rules marker_after
  convert_legacy_sec_lang_rules spec = do
    directives ← legacy_rules spec.sec_rules
    ok (directives ++ marker_after crs spec.marker_after)

  -- `ConvertSecRule`
  unfoldable pub convert_sec_rule : SecRuleSpec → Result ConvertError (List (Directive crs))
  unfolding is_single_rule_form convert_single_rule_form convert_legacy_sec_lang_rules
  convert_sec_rule spec =
      if is_single_rule_form spec
      then convert_single_rule_form crs spec
      else convert_legacy_sec_lang_rules spec

  -- `ConvertSecAction`, by way of a SecRule.
  unfoldable pub convert_sec_action : SecActionSpec → Result ConvertError (List (Directive crs))
  unfolding convert_sec_rule
  convert_sec_action a = convert_sec_rule (record {
    order = pos 0;
    marker_after = "";
    metadata = a.metadata;
    matches = record always { transformations = a.transformations } ∷ [];
    actions = some a.actions;
    sec_rules = [];
  })
