-- ===== src/IdPool/Apply.antt =====
-- internal/probeassemble/assigned_ids.go: the ids that the status carries are filled in where the spec
-- omits them. Assembly.RenderIds is the copy in internal/seclang/render.go.
pub mod RoundTrip
use kubewaf.Prelude.{
  ℕ, Bool, true, false, Option, none, some, List, [], ◌∷◌, ltb, if◌then◌else◌, map,
}
use kubewaf.Prelude.Result.{Result, ok, err}
use kubewaf.Api.SecRule.{
  SecRule, SecRuleSpec, SecRuleStatus, SecLangSecRule, SecRuleMetadata, empty_metadata,
  is_single_rule_form, meta_id,
}

-- `metadata.id` where it is not above 0, in a new block if there is none.
unfoldable pub with_id : Option SecRuleMetadata → ℕ → Option SecRuleMetadata
with_id none id = some (record empty_metadata { id = id })
with_id (some m) id = if ltb 0 m.id then some m else some (record m { id = id })

unfoldable pub apply_rule : SecLangSecRule → ℕ → SecLangSecRule
unfolding with_id
apply_rule r id = if ltb 0 id then record r { metadata = with_id r.metadata id } else r

unfoldable pub apply_rules : List SecLangSecRule → List ℕ → List SecLangSecRule
unfolding apply_rule
apply_rules [] ids = []
apply_rules (r ∷ rs) [] = r ∷ rs
apply_rules (r ∷ rs) (id ∷ ids) = apply_rule r id ∷ apply_rules rs ids

abbrev pub set_spec : SecRule → SecRuleSpec → SecRule
set_spec sr spec' = record sr { spec = spec' }

unfoldable pub apply_ids : SecRule → List ℕ → SecRule
unfolding apply_rules
apply_ids sr [] = sr
apply_ids sr (id ∷ ids) =
    if is_single_rule_form sr.spec
    then if ltb 0 id
      then set_spec sr (record sr.spec { metadata = with_id sr.spec.metadata id })
      else sr
    else set_spec sr (record sr.spec { sec_rules = apply_rules sr.spec.sec_rules (id ∷ ids) })

-- The given ids, or the status's if none are given.
unfoldable pub apply_assigned_ids : SecRule → List ℕ → SecRule
unfolding apply_ids
apply_assigned_ids sr [] = apply_ids sr sr.status.assigned_ids
apply_assigned_ids sr (id ∷ ids) = apply_ids sr (id ∷ ids)

abbrev pub bag_stated : List SecLangSecRule → List ℕ
bag_stated [] = []
bag_stated (r ∷ rs) = meta_id r.metadata ∷ bag_stated rs

-- The ids of the spec, in the order of the rules; 0 where one is missing.
abbrev pub stated_ids : SecRuleSpec → List ℕ
stated_ids s = if is_single_rule_form s then meta_id s.metadata ∷ [] else bag_stated s.sec_rules

pub data EnsureError : Type 0 where
  rule_ids_unresolved : EnsureError

unfoldable pub check_rules : List SecLangSecRule → Result EnsureError Unit
check_rules [] = ok tt
check_rules (r ∷ rs) =
    let rest = check_rules rs in
    if ltb 0 (meta_id r.metadata) then rest else err rule_ids_unresolved

-- An empty bag is unresolved too.
unfoldable pub check_bag : List SecLangSecRule → Result EnsureError Unit
unfolding check_rules
check_bag [] = err rule_ids_unresolved
check_bag (r ∷ rs) = check_rules (r ∷ rs)

unfoldable pub ensure_rule_ids : SecRule → Result EnsureError Unit
unfolding check_bag
ensure_rule_ids sr =
    if is_single_rule_form sr.spec
    then (if ltb 0 (meta_id sr.spec.metadata) then ok tt else err rule_ids_unresolved)
    else check_bag sr.spec.sec_rules
