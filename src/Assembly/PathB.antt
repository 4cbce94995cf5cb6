-- ===== src/Assembly/PathB.antt =====
-- internal/probeassemble/pathb.go: the sort keys and the order of the probe's document, which that package
-- has copies of.
use kubewaf.Prelude.{ℕ, ◌^◌, ◌-◌, Bool, true, false, List, [], ◌∷◌, ltb, if◌then◌else◌}
use kubewaf.Prelude.Int.{ℤ, pos, ltb_ℤ, eqb_ℤ}
use kubewaf.Prelude.Bytes.{codes, bytes_eq}
use kubewaf.Prelude.Order.{bytes_lt}
use kubewaf.Prelude.Sort.{sort_stable}
use kubewaf.Api.SecRule.{SecRule, SecLangSecRule, meta_id}
use kubewaf.Api.SecAction.{SecAction}
use kubewaf.Assembly.Order.{Item, Payload, sec_rule, sec_action}

-- The first id of the bag that is above 0, or else `math.MaxInt32`.
unfoldable pub path_b_bag_id : List SecLangSecRule → ℕ
path_b_bag_id [] = 2 ^ 31 - 1
path_b_bag_id (r ∷ rs) =
    let rest = path_b_bag_id rs in if ltb 0 (meta_id r.metadata) then meta_id r.metadata else rest

unfoldable pub path_b_rule_sort_key : SecRule → ℤ
unfolding path_b_bag_id
path_b_rule_sort_key sr =
    if eqb_ℤ sr.spec.order (pos 0)
    then (if ltb 0 sr.status.rule_id
        then pos sr.status.rule_id
        else if ltb 0 (meta_id sr.spec.metadata)
        then pos (meta_id sr.spec.metadata)
        else pos (path_b_bag_id sr.spec.sec_rules))
    else sr.spec.order

unfoldable pub path_b_action_sort_key : SecAction → ℤ
path_b_action_sort_key sa =
    if ltb 0 (meta_id sa.spec.metadata) then pos (meta_id sa.spec.metadata) else pos (2 ^ 31 - 1)

-- `pathBItemFromUnstructured` of an object that decodes.
unfoldable pub path_b_rule_item : SecRule → Item
unfolding path_b_rule_sort_key
path_b_rule_item sr = record {
  key = path_b_rule_sort_key sr;
  name = codes sr.name;
  payload = sec_rule sr;
}

unfoldable pub path_b_action_item : SecAction → Item
unfolding path_b_action_sort_key
path_b_action_item sa = record {
  key = path_b_action_sort_key sa;
  name = codes sa.name;
  payload = sec_action sa;
}

-- "SecAction" is before "SecRule".
abbrev pub path_b_kind_lt : Payload → Payload → Bool
path_b_kind_lt (sec_action sa) (sec_rule sr) = true
path_b_kind_lt p q = false

-- `items[i]` goes before `items[j]`.
unfoldable pub path_b_less : Item → Item → Bool
unfolding bytes_lt bytes_eq
path_b_less a b =
    if eqb_ℤ a.key b.key
    then (if bytes_eq a.name b.name
        then path_b_kind_lt a.payload b.payload
        else bytes_lt a.name b.name)
    else ltb_ℤ a.key b.key

unfoldable pub path_b_sort : List Item → List Item
unfolding path_b_less
path_b_sort items = sort_stable path_b_less items
