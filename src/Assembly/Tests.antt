-- ===== src/Assembly/Tests.antt =====
-- internal/probeassemble, internal/references2/helpers.go and the directives of
-- internal/dataplane/config/build.go on concrete input.
use kubewaf.Prelude.{
  ◌≢◌, inr, ap, ℕ, arith, ◌≡◌, refl, false, none, some, List, [], ◌∷◌, ◌++◌, String, inl,
}
use kubewaf.Prelude.Int.{pos}
use kubewaf.Prelude.Result.{ok, err}
use kubewaf.Prelude.Bytes.{trim_space, has_prefix, Bytes, codes}
use kubewaf.Api.SecAction.{SecAction}
use kubewaf.Assembly.Crs.{CrsTuning, preamble, crs_setup_actions, crs_exclusions}
use kubewaf.Assembly.Document.{split_newline, join_document, count_non_empty_lines, document_parts}
use kubewaf.Assembly.Document.Lines.{kept_line, blank, none_left, join_document_lines}
use kubewaf.Assembly.Order.{Item, action_item, item_less, sort_items}
use kubewaf.Assembly.Resolved.{
  probe_items, Converter, Object, action_object, items_of, get_sec_lang, rule_lines_of,
}
use kubewaf.Assembly.PathB.{path_b_action_item}
use kubewaf.Assembly.Order.Lexical.{AreInOrder, sort_items-AreInOrder}
use kubewaf.Assembly.Resolved.Agree.{get_sec_lang_unique, probe_agrees, lines_of}
use kubewaf.Assembly.ConfigCrs.{
  crs_setup_actions as config_setup_actions, crs_exclusions as config_exclusions,
}
use kubewaf.Assembly.Directives.{
  WafDirectives, build_directives, base_directives, concat_parts, path_b_agrees,
}
use mathlib.Core.List.{Permᴰ, cons-ne-nil}

abbrev tuning : CrsTuning
tuning = record {
  paranoia_level = some (pos 2);
  inbound_anomaly_threshold = none;
  outbound_anomaly_threshold = some (pos 4);
  remove_by_id = pos 942100 ∷ [];
  remove_by_tag = codes "attack-sqli" ∷ [];
  update_target_by_id =
      record { id = pos 7; remove_targets = codes "ARGS:q" ∷ codes "ARGS:r" ∷ [] } ∷ [];
}

writes_the_setup :
    crs_setup_actions (some tuning)
    ≡ codes
        "SecAction \"id:900990,phase:1,nolog,pass,setvar:tx.crs_setup_version=427,setvar:tx.detection_paranoia_level=2,setvar:tx.blocking_paranoia_level=2,setvar:tx.outbound_anomaly_score_threshold=4\""
      ∷ []
unfolding crs_setup_actions
writes_the_setup = refl

writes_the_exclusions :
    crs_exclusions (some tuning)
    ≡ codes "SecRuleRemoveById 942100"
      ∷ codes "SecRuleRemoveByTag attack-sqli"
      ∷ codes "SecRuleUpdateTargetById 7 \"!ARGS:q|!ARGS:r\""
      ∷ []
unfolding crs_exclusions
writes_the_exclusions = refl

abbrev waf : WafDirectives
waf = record {
  detection_only = false;
  log_level = pos 0;
  ftw_profile = some (codes " Yes ");
  crs_enable = false;
  crs = some tuning;
}

path_b_agrees_example :
    let common =
      config_setup_actions (some tuning)
      ++ ((codes "SecRule A" ∷ []) ++ config_exclusions (some tuning)) in
    (build_directives waf (codes "SecRule A" ∷ []) ≡ base_directives waf ++ common)
    × (concat_parts (document_parts (codes "SecRule A" ∷ []) false (some tuning))
        ≡ preamble ++ common)
path_b_agrees_example = path_b_agrees waf tuning (codes "SecRule A" ∷ []) false refl refl

abbrev two_parts : List (List Bytes)
two_parts = (codes " a " ∷ codes "" ∷ []) ∷ (codes "# b" ∷ []) ∷ []

join_document_lines_example :
    (split_newline (join_document two_parts) ≡ codes "a" ∷ codes "# b" ∷ [])
    × (count_non_empty_lines (join_document two_parts) ≡ 1)
unfolding trim_space has_prefix
join_document_lines_example =
    join_document_lines two_parts (codes "a" ∷ codes "# b" ∷ [])
      (kept_line refl (cons-ne-nil b'a' [])
        (blank refl (kept_line refl (cons-ne-nil b'#' (codes " b")) none_left)))
      (cons-ne-nil (codes "a") (codes "# b" ∷ []))
      (
        (cons-ne-nil b'a' [], refl, (refl, tt)),
        ((cons-ne-nil b'#' (codes " b"), refl, (refl, (refl, (refl, tt)))), tt),
      )

abbrev action : String → SecAction
action name = record {
  namespace = "shop";
  name = name;
  spec = record {
    metadata = none;
    actions = record {
      data_actions = [];
      disruptive_action = none;
      flow = [];
      non_disruptive = [];
    };
    transformations = [];
  };
}

abbrev names : Converter Unit Unit
names = record {
  convert_sec_rule = λ sr. err tt;
  is_empty = λ d. false;
  print = λ d. [];
  convert_sec_action = λ sa. ok (codes sa.name);
}

abbrev unsorted : List Item
unsorted = action_item (action "b") ∷ action_item (action "a") ∷ []

sort_items-AreInOrder_example :
    Permᴰ unsorted (sort_items unsorted) × AreInOrder (sort_items unsorted)
sort_items-AreInOrder_example = sort_items-AreInOrder unsorted

abbrev a_then_b : List Object
a_then_b = action_object (some (action "a")) ∷ action_object (some (action "b")) ∷ []

abbrev b_then_a : List Object
b_then_a = action_object (some (action "b")) ∷ action_object (some (action "a")) ∷ []

other_name : codes "a" ≢ codes "b"
other_name e = omega (arith, ap first e)
  where
    first : Bytes → ℕ
    first [] = 0
    first (c ∷ s) = c

get_sec_lang_unique_example : get_sec_lang names a_then_b ≡ get_sec_lang names b_then_a
unfolding items_of item_less action_item
get_sec_lang_unique_example =
    get_sec_lang_unique names a_then_b b_then_a
      (action_item (action "a") ∷ action_item (action "b") ∷ [])
      (action_item (action "b") ∷ action_item (action "a") ∷ []) refl refl (Permᴰ.swap refl refl)
      ((inr (inl other_name), tt), (tt, tt))

probe_agrees_example : codes "a" ∷ codes "b" ∷ [] ≡ lines_of (codes "a" ∷ codes "b" ∷ [])
unfolding probe_items get_sec_lang rule_lines_of action_item
probe_agrees_example =
    probe_agrees names b_then_a
      (path_b_action_item (action "a") ∷ path_b_action_item (action "b") ∷ [])
      (codes "a" ∷ codes "b" ∷ []) (codes "a" ∷ codes "b" ∷ []) refl refl refl
