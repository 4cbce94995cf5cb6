-- ===== src/References/Tests.antt =====
-- internal/references2/resolver.go on small clusters.
use kubewaf.Prelude.{
  ◌≢◌, ◌⊎◌, inl, inr, ◌<◌, subst, sym, arith, Option, ℕ, List, map, ◌≡◌, refl, none, some, [], ◌∷◌,
  String, str_eq, if◌then◌else◌, All,
}
use kubewaf.Prelude.Result.{Result, ok, err}
use kubewaf.References.{
  RuleRef, RuleSetSpec, ClusterObject, Owner, Cluster, all, owner_of, reconcile_refs, out_of_fuel,
  not_found, lookup_failed, LookupError, apply_rule_ref_defaults, lookup_ref, allowed_object,
}
use kubewaf.References.Defaults.{default_rule_refs, default_rule_refs_agree}
use kubewaf.References.Depth.{
  FindsBelow, IsAcyclic, reconcile_refs_ends, self_reference_does_not_end,
}
use kubewaf.References.Reach.{Reaches, reconcile_refs_sound}

abbrev ref_to : String → String → RuleRef Unit
ref_to kind name = record {
  kind = kind;
  name = name;
  namespace = "";
  version = "";
  group = "";
  selector = none;
}

abbrev rule_a : ClusterObject Unit
rule_a = record { kind = "SecRule"; name = "a"; namespace = "shop"; rule_set = none }

abbrev loop_spec : RuleSetSpec Unit
loop_spec = record {
  rule_refs = ref_to "RuleSet" "loop" ∷ [];
  allowed_rules = record { from = some all; selector = none };
}

abbrev loop : ClusterObject Unit
loop = record { kind = "RuleSet"; name = "loop"; namespace = "shop"; rule_set = some loop_spec }

abbrev cluster : Cluster Unit
cluster = record {
  get = λ ref.
      if str_eq ref.name "loop"
      then ok loop
      else if str_eq ref.name "a"
      then ok rule_a
      else err lookup_failed;
  list = λ ref sel. err lookup_failed;
  namespace_matches = λ ns sel. err lookup_failed;
}

abbrev owner : Owner Unit
owner = record { namespace = "shop"; policy = none }

finds_one :
    reconcile_refs cluster 1 (ref_to "SecRule" "a" ∷ ref_to "SecRule" "b" ∷ []) owner
    ≡ ok (record { objects = rule_a ∷ []; refusals = not_found ∷ [] })
unfolding reconcile_refs allowed_object
finds_one = refl

reconcile_refs_sound_example : All (Reaches cluster (ref_to "SecRule" "a" ∷ []) owner) (rule_a ∷ [])
unfolding reconcile_refs allowed_object
reconcile_refs_sound_example =
    reconcile_refs_sound cluster 1 (ref_to "SecRule" "a" ∷ []) owner
      (record { objects = rule_a ∷ []; refusals = [] }) refl

self_reference_does_not_end_example :
    reconcile_refs cluster 7 loop_spec.rule_refs (owner_of loop loop_spec) ≡ err out_of_fuel
unfolding lookup_ref apply_rule_ref_defaults allowed_object
self_reference_does_not_end_example =
    self_reference_does_not_end cluster loop loop_spec (ref_to "RuleSet" "loop") 7 refl refl refl
      refl refl

default_rule_refs_agree_example :
    default_rule_refs "shop" (ref_to "SecRule" "a" ∷ ref_to "" "b" ∷ [])
    ≡ map (λ ref. apply_rule_ref_defaults ref "shop") (ref_to "SecRule" "a" ∷ ref_to "" "b" ∷ [])
default_rule_refs_agree_example =
    default_rule_refs_agree "shop" (ref_to "SecRule" "a" ∷ ref_to "" "b" ∷ []) (refl, (refl, tt))

-- A RuleSet with one rule.
abbrev flat_spec : RuleSetSpec Unit
flat_spec = record {
  rule_refs = ref_to "SecRule" "a" ∷ [];
  allowed_rules = record { from = none; selector = none };
}

abbrev flat : ClusterObject Unit
flat = record { kind = "RuleSet"; name = "flat"; namespace = "shop"; rule_set = some flat_spec }

abbrev flat_cluster : Cluster Unit
flat_cluster = record cluster { get = λ ref. if str_eq ref.name "flat" then ok flat else ok rule_a }

abbrev InFlat : ClusterObject Unit → Type 0
InFlat o = (o ≡ flat) ⊎ (o ≡ rule_a)

abbrev height : Option (RuleSetSpec Unit) → ℕ
height none = 0
height (some s) = 1

found_one :
    (n : ℕ) (o : ClusterObject Unit) (os : List (ClusterObject Unit))
    → InFlat o
    → height o.rule_set < n
    → Path (Result LookupError (List (ClusterObject Unit))) (ok (o ∷ [])) (ok os)
    → All (λ o'. InFlat o' × (height o'.rule_set < n)) os
found_one n o [] known lt e = cc
found_one n o (o' ∷ os) known lt e =
    let same : o ∷ [] ≡ o' ∷ os = cc in
    subst (All (λ x. InFlat x × (height x.rule_set < n))) same ((known, lt), tt)

flat_finds :
    (o : ClusterObject Unit) (s : RuleSetSpec Unit)
    → o ≡ flat
    → flat_spec ≡ s
    → FindsBelow flat_cluster InFlat
        (λ x. height x.rule_set)
        (height o.rule_set)
        (owner_of o s)
        s.rule_refs
unfolding lookup_ref apply_rule_ref_defaults
flat_finds o s e d =
    rw (e, sym d) ((λ os found. found_one 1 rule_a os (inr refl) (omega arith) found), tt)

flat-IsAcyclic : IsAcyclic flat_cluster InFlat (λ o. height o.rule_set)
flat-IsAcyclic o s (inl e) d = flat_finds o s e cc
flat-IsAcyclic o s (inr e) d = cc

reconcile_refs_ends_example :
    reconcile_refs flat_cluster 3 (ref_to "RuleSet" "flat" ∷ []) owner ≢ err out_of_fuel
unfolding lookup_ref apply_rule_ref_defaults
reconcile_refs_ends_example =
    reconcile_refs_ends flat_cluster InFlat (λ o. height o.rule_set) 2
      (ref_to "RuleSet" "flat" ∷ []) owner flat-IsAcyclic
      ((λ os e. found_one 2 flat os (inl refl) (omega arith) e), tt)
