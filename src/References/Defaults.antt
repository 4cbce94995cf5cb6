-- ===== src/References/Defaults.antt =====
-- internal/probeassemble/pathb.go: the defaults of references, a second time.
use kubewaf.Prelude.{
  ◌≡◌, refl, Bool, true, false, ◌||◌, List, [], ◌∷◌, map, if◌then◌else◌, String, str_eq, All,
}
use kubewaf.References.{RuleRef, or_default, with_group, apply_rule_ref_defaults}

same_branch :
    {A : Type 0} (b c : Bool) (x y z w : A)
    → (b || c) ≡ true
    → (if b then x else if c then y else z) ≡ (if b then x else if c then y else w)
same_branch true c x y z w h = refl
same_branch false true x y z w h = refl
same_branch false false x y z w h = cc

module _ {Sel : Type 0} where
  -- The body of the loop of `DefaultRuleRefs`.
  unfoldable pub default_rule_ref : String → RuleRef Sel → RuleRef Sel
  default_rule_ref owner_ns ref =
      let named : RuleRef Sel = record ref { namespace = or_default ref.namespace owner_ns } in
      if str_eq ref.kind "SecRule" || str_eq ref.kind "SecAction"
      then with_group "seclang.kubewaf.io" ref.kind named
      else if str_eq ref.kind "RuleSet" || str_eq ref.kind ""
      then with_group "waf.kubewaf.io" "RuleSet" named
      else with_group "waf.kubewaf.io" ref.kind named

  unfoldable pub default_rule_refs : String → List (RuleRef Sel) → List (RuleRef Sel)
  unfolding default_rule_ref
  default_rule_refs owner_ns refs = map (default_rule_ref owner_ns) refs

  -- The kinds that the documentation of references names, or none.
  abbrev pub is_known : RuleRef Sel → Bool
  is_known ref =
      (str_eq ref.kind "SecRule" || str_eq ref.kind "SecAction")
      || (str_eq ref.kind "RuleSet" || str_eq ref.kind "")

  default_rule_ref_agrees :
      (owner_ns : String) (ref : RuleRef Sel)
      → is_known ref ≡ true
      → default_rule_ref owner_ns ref ≡ apply_rule_ref_defaults ref owner_ns
  unfolding default_rule_ref apply_rule_ref_defaults
  default_rule_ref_agrees owner_ns ref known =
      let named : RuleRef Sel = record ref { namespace = or_default ref.namespace owner_ns } in
      same_branch (str_eq ref.kind "SecRule" || str_eq ref.kind "SecAction")
        (str_eq ref.kind "RuleSet" || str_eq ref.kind "")
        (with_group "seclang.kubewaf.io" ref.kind named)
        (with_group "waf.kubewaf.io" "RuleSet" named) (with_group "waf.kubewaf.io" ref.kind named)
        named known

  -- On references of the documented kinds, or of none, the probe's defaults are the resolver's.
  pub default_rule_refs_agree :
      (owner_ns : String) (refs : List (RuleRef Sel))
      → All (λ ref. is_known ref ≡ true) refs
      → default_rule_refs owner_ns refs ≡ map (λ ref. apply_rule_ref_defaults ref owner_ns) refs
  unfolding default_rule_refs
  default_rule_refs_agree owner_ns [] known = refl
  default_rule_refs_agree owner_ns (ref ∷ refs) (known, rest) =
      rw (default_rule_ref_agrees owner_ns ref known, default_rule_refs_agree owner_ns refs rest)
        refl
