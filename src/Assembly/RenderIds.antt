-- ===== src/Assembly/RenderIds.antt =====
-- internal/seclang/render.go: its copy of `ApplyAssignedIDs`, which fills in the ids of a rule before it is
-- rendered.
use kubewaf.Prelude.{ℕ, ◌≡◌, refl, ap, ◌∙◌, Option, none, some, List, [], ◌∷◌, ltb, if◌then◌else◌}
use kubewaf.Api.SecRule.{
  SecRule, SecLangSecRule, SecRuleMetadata, empty_metadata, is_single_rule_form,
}
use kubewaf.IdPool.Apply.{apply_assigned_ids, apply_ids, apply_rules, apply_rule, with_id, set_spec}

-- The metadata with the id, unless it states one.
unfoldable pub render_metadata : Option SecRuleMetadata → ℕ → Option SecRuleMetadata
render_metadata none id = some (record empty_metadata { id = id })
render_metadata (some m) id = if ltb 0 m.id then some m else some (record m { id = id })

unfoldable pub render_rule_id : SecLangSecRule → ℕ → SecLangSecRule
unfolding render_metadata
render_rule_id r id = if ltb 0 id then record r { metadata = render_metadata r.metadata id } else r

unfoldable pub render_bag_ids : List SecLangSecRule → List ℕ → List SecLangSecRule
unfolding render_rule_id
render_bag_ids [] ids = []
render_bag_ids (r ∷ rs) [] = r ∷ rs
render_bag_ids (r ∷ rs) (id ∷ ids) = render_rule_id r id ∷ render_bag_ids rs ids

unfoldable pub render_ids : SecRule → List ℕ → SecRule
unfolding render_bag_ids render_metadata
render_ids sr [] = sr
render_ids sr (id ∷ ids) =
    if is_single_rule_form sr.spec
    then if ltb 0 id
      then record sr { spec = record sr.spec { metadata = render_metadata sr.spec.metadata id } }
      else sr
    else record sr {
      spec = record sr.spec { sec_rules = render_bag_ids sr.spec.sec_rules (id ∷ ids) };
    }

-- `applyAssignedIDs`: the given ids, or the status's if none are given.
unfoldable pub render_assigned_ids : SecRule → List ℕ → SecRule
unfolding render_ids
render_assigned_ids sr [] = render_ids sr sr.status.assigned_ids
render_assigned_ids sr (id ∷ ids) = render_ids sr (id ∷ ids)

metadata_agree : (m : Option SecRuleMetadata) (id : ℕ) → render_metadata m id ≡ with_id m id
unfolding render_metadata with_id
metadata_agree none id = refl
metadata_agree (some m) id = refl

rule_agree : (r : SecLangSecRule) (id : ℕ) → render_rule_id r id ≡ apply_rule r id
unfolding render_rule_id apply_rule
rule_agree r id =
    ap (λ m. if ltb 0 id then record r { metadata = m } else r) (metadata_agree r.metadata id)

bag_agree : (rs : List SecLangSecRule) (ids : List ℕ) → render_bag_ids rs ids ≡ apply_rules rs ids
unfolding render_bag_ids apply_rules
bag_agree [] ids = refl
bag_agree (r ∷ rs) [] = refl
bag_agree (r ∷ rs) (id ∷ ids) =
    ap (λ x. x ∷ render_bag_ids rs ids) (rule_agree r id)
    ∙ ap (λ xs. apply_rule r id ∷ xs) (bag_agree rs ids)

ids_agree : (sr : SecRule) (ids : List ℕ) → render_ids sr ids ≡ apply_ids sr ids
unfolding render_ids apply_ids
ids_agree sr [] = refl
ids_agree sr (id ∷ ids) =
    ap
      (λ m.
        if is_single_rule_form sr.spec
        then if ltb 0 id then set_spec sr (record sr.spec { metadata = m }) else sr
        else set_spec sr
            (record sr.spec { sec_rules = render_bag_ids sr.spec.sec_rules (id ∷ ids) }))
      (metadata_agree sr.spec.metadata id)
    ∙ ap
        (λ rs.
          if is_single_rule_form sr.spec
          then if ltb 0 id
            then set_spec sr (record sr.spec { metadata = with_id sr.spec.metadata id })
            else sr
          else set_spec sr (record sr.spec { sec_rules = rs }))
        (bag_agree sr.spec.sec_rules (id ∷ ids))

-- The two copies fill in the same.
pub render_assigned_ids_agree :
    (sr : SecRule) (ids : List ℕ) → render_assigned_ids sr ids ≡ apply_assigned_ids sr ids
unfolding render_assigned_ids apply_assigned_ids
render_assigned_ids_agree sr [] = ids_agree sr sr.status.assigned_ids
render_assigned_ids_agree sr (id ∷ ids) = ids_agree sr (id ∷ ids)
