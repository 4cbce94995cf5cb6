-- ===== src/References.antt =====
-- internal/references2/resolver.go: the expansion of references into objects, without locks
-- (`Resolve`). The cluster is a parameter: one snapshot of what the API server answers.
pub mod Reach
pub mod Defaults
pub mod Depth
mod Tests
use kubewaf.Prelude.{
  ℕ, zero, suc, Bool, true, false, Option, none, some, List, [], ◌∷◌, ◌++◌, if◌then◌else◌, String,
  str_eq, ◌||◌,
}
use kubewaf.Prelude.Result.{Result, ok, err, ◌>>=◌}

-- A reference; the selector's own syntax is the library's.
pub record RuleRef (Sel : Type 0) : Type 0 where
  pub kind : String
  pub name : String
  pub namespace : String
  pub version : String
  pub group : String
  pub selector : Option Sel

-- `from` of a policy: `unknown` is a word that the code does not know.
pub data From : Type 0 where
  same all selected unknown : From

pub record RuleNamespaces (Sel : Type 0) : Type 0 where
  pub from : Option From
  pub selector : Option Sel

pub record RuleSetSpec (Sel : Type 0) : Type 0 where
  pub rule_refs : List (RuleRef Sel)
  pub allowed_rules : RuleNamespaces Sel

-- An unstructured object; `rule_set` is its spec decoded as a RuleSet, if that succeeds.
pub record ClusterObject (Sel : Type 0) : Type 0 where
  pub kind : String
  pub name : String
  pub namespace : String
  pub rule_set : Option (RuleSetSpec Sel)

-- The object that owns the references, with its policy if it is a RuleSet.
pub record Owner (Sel : Type 0) : Type 0 where
  pub namespace : String
  pub policy : Option (RuleNamespaces Sel)

pub data LookupError : Type 0 where
  wrong_reference lookup_failed : LookupError

-- What the API server answers, and the library's selectors on the labels of a namespace; an answer
-- may be an error.
pub record Cluster (Sel : Type 0) : Type 0 where
  pub get : RuleRef Sel → Result LookupError (ClusterObject Sel)
  pub list : RuleRef Sel → Sel → Result LookupError (List (ClusterObject Sel))
  pub namespace_matches : String → Sel → Result LookupError Bool

abbrev pub or_default : String → String → String
or_default s d = if str_eq s "" then d else s

abbrev is_match : Result LookupError Bool → Bool
is_match (ok b) = b
is_match (err e) = false

module _ {Sel : Type 0} where
  abbrev pub with_group : String → String → RuleRef Sel → RuleRef Sel
  with_group group kind ref = record ref {
    kind = kind;
    group = or_default ref.group group;
    version = or_default ref.version "v1beta1";
  }

  -- `applyRuleRefDefaults`: the namespace, and by kind the group and the version.
  unfoldable pub apply_rule_ref_defaults : RuleRef Sel → String → RuleRef Sel
  apply_rule_ref_defaults ref owner_ns =
      let named : RuleRef Sel = record ref { namespace = or_default ref.namespace owner_ns } in
      if str_eq ref.kind "SecRule" || str_eq ref.kind "SecAction"
      then with_group "seclang.kubewaf.io" ref.kind named
      else if str_eq ref.kind "RuleSet" || str_eq ref.kind ""
      then with_group "waf.kubewaf.io" "RuleSet" named
      else named

  abbrev pub one_object :
      Result LookupError (ClusterObject Sel) → Result LookupError (List (ClusterObject Sel))
  one_object (ok o) = ok (o ∷ [])
  one_object (err e) = err e

  abbrev pub by_selector :
      Cluster Sel → RuleRef Sel → Option Sel → Result LookupError (List (ClusterObject Sel))
  by_selector cl ref (some sel) = cl.list ref sel
  by_selector cl ref none =
      if str_eq ref.name "" then err wrong_reference else one_object (cl.get ref)

  unfoldable pub lookup_ref :
      Cluster Sel → RuleRef Sel → Result LookupError (List (ClusterObject Sel))
  lookup_ref cl ref = by_selector cl ref ref.selector

  selected_by : Cluster Sel → String → Option Sel → Bool
  selected_by cl ns none = false
  selected_by cl ns (some sel) = is_match (cl.namespace_matches ns sel)

  policy_allows : Cluster Sel → String → RuleNamespaces Sel → Option From → Bool
  unfolding selected_by
  policy_allows cl ns policy none = false
  policy_allows cl ns policy (some all) = true
  policy_allows cl ns policy (some same) = false
  policy_allows cl ns policy (some selected) = selected_by cl ns policy.selector
  policy_allows cl ns policy (some unknown) = false

  owner_allows : Cluster Sel → String → Option (RuleNamespaces Sel) → Bool
  unfolding policy_allows
  owner_allows cl ns none = true
  owner_allows cl ns (some policy) = policy_allows cl ns policy policy.from

  -- Whether `allowedObject` reports no error.
  unfoldable pub allowed_object : Cluster Sel → ClusterObject Sel → Owner Sel → Bool
  unfolding owner_allows
  allowed_object cl object owner =
      if str_eq owner.namespace object.namespace
      then true
      else owner_allows cl object.namespace owner.policy

-- `Index` of a ReferenceError: the lookup failed, or the object is not allowed.
pub data Refusal : Type 0 where
  not_found not_allowed : Refusal

-- What ends a resolution: a RuleSet that does not decode, or a nesting that is deeper than the fuel.
pub data ResolveError : Type 0 where
  undecodable out_of_fuel : ResolveError

pub record Resolution (Sel : Type 0) : Type 0 where
  pub objects : List (ClusterObject Sel)
  pub refusals : List Refusal

-- A resolution of the references of a RuleSet.
abbrev pub Below : Type 0 → Type 0
Below Sel = List (RuleRef Sel) → Owner Sel → Result ResolveError (Resolution Sel)

module _ {Sel : Type 0} where
  abbrev pub nothing : Resolution Sel
  nothing = record { objects = []; refusals = [] }

  abbrev pub refused : Refusal → Resolution Sel
  refused r = record { objects = []; refusals = r ∷ [] }

  abbrev pub joined : Resolution Sel → Resolution Sel → Resolution Sel
  joined r s = record { objects = r.objects ++ s.objects; refusals = r.refusals ++ s.refusals }

  abbrev pub owner_of : ClusterObject Sel → RuleSetSpec Sel → Owner Sel
  owner_of o s = record { namespace = o.namespace; policy = some s.allowed_rules }

  -- The objects of a RuleSet stand before itself.
  unfoldable pub expand_rule_set :
      Below Sel
      → ClusterObject Sel
      → Option (RuleSetSpec Sel)
      → Result ResolveError (Resolution Sel)
  expand_rule_set below o none = err undecodable
  expand_rule_set below o (some s) = below s.rule_refs (owner_of o s) >>= λ r.
      ok (joined r (record { objects = o ∷ []; refusals = [] }))

  unfoldable pub expand_object :
      Cluster Sel → Below Sel → Owner Sel → ClusterObject Sel → Result ResolveError (Resolution Sel)
  unfolding expand_rule_set
  expand_object cl below owner o =
      if allowed_object cl o owner
      then (if str_eq o.kind "RuleSet"
          then expand_rule_set below o o.rule_set
          else ok (record { objects = o ∷ []; refusals = [] }))
      else ok (refused not_allowed)

  unfoldable pub expand_objects :
      Cluster Sel
      → Below Sel
      → Owner Sel
      → List (ClusterObject Sel)
      → Result ResolveError (Resolution Sel)
  unfolding expand_object
  expand_objects cl below owner [] = ok nothing
  expand_objects cl below owner (o ∷ os) = expand_object cl below owner o >>= λ r.
      expand_objects cl below owner os >>= λ s. ok (joined r s)

  unfoldable pub expand_found :
      Cluster Sel
      → Below Sel
      → Owner Sel
      → Result LookupError (List (ClusterObject Sel))
      → Result ResolveError (Resolution Sel)
  unfolding expand_objects
  expand_found cl below owner (ok os) = expand_objects cl below owner os
  expand_found cl below owner (err e) = ok (refused not_found)

  unfoldable pub expand_refs :
      Cluster Sel
      → Below Sel
      → Owner Sel
      → List (RuleRef Sel)
      → Result ResolveError (Resolution Sel)
  unfolding expand_found apply_rule_ref_defaults lookup_ref
  expand_refs cl below owner [] = ok nothing
  expand_refs cl below owner (ref ∷ refs) =
      expand_found cl below owner (lookup_ref cl (apply_rule_ref_defaults ref owner.namespace))
      >>= λ r. expand_refs cl below owner refs >>= λ s. ok (joined r s)

  -- `reconcileRefs` without locks, to a nesting of at most `fuel` RuleSets.
  unfoldable pub reconcile_refs : Cluster Sel → ℕ → Below Sel
  unfolding expand_refs
  reconcile_refs cl zero refs owner = err out_of_fuel
  reconcile_refs cl (suc fuel) refs owner = expand_refs cl (reconcile_refs cl fuel) owner refs
