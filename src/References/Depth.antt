-- ===== src/References/Depth.antt =====
-- internal/references2/resolver.go: where a resolution ends, and where it does not.
use kubewaf.Prelude.{
  ◌<◌, ◌≢◌, ◌+◌, arith, if_ind, ℕ, zero, suc, ◌≡◌, refl, subst, ap, ◌∙◌, true, Option, none, some,
  List, [], ◌∷◌, if◌then◌else◌, All, str_eq, if_true,
}
use kubewaf.Prelude.Result.{Result, ok, err, ◌>>=◌}
use kubewaf.References.{
  RuleRef, RuleSetSpec, ClusterObject, Owner, LookupError, Cluster, apply_rule_ref_defaults,
  lookup_ref, allowed_object, Refusal, ResolveError, out_of_fuel, undecodable, Resolution, nothing,
  joined, refused, Below, owner_of, expand_rule_set, expand_object, expand_objects, expand_found,
  expand_refs, reconcile_refs,
}

-- Not the model's own error.
abbrev Ends : {A : Type 0} → Result ResolveError A → Type 0
Ends (ok a) = Unit
Ends (err undecodable) = Unit
Ends (err out_of_fuel) = ⊥

bind-Ends :
    {A B : Type 0} (m : Result ResolveError A) (f : A → Result ResolveError B)
    → Ends m
    → ((a : A) → Ends (f a))
    → Ends (m >>= f)
bind-Ends (ok a) f h k = k a
bind-Ends (err undecodable) f h k = tt
bind-Ends (err out_of_fuel) f h k = h

module _ {Sel : Type 0} (cl : Cluster Sel) (Known : ClusterObject Sel → Type 0)
    (depth : ClusterObject Sel → ℕ) where
  -- The references find only known objects, of a depth below `n`.
  abbrev pub FindsBelow : ℕ → Owner Sel → List (RuleRef Sel) → Type 0
  FindsBelow n owner refs =
      All
        (λ ref.
          (os : List (ClusterObject Sel))
          → lookup_ref cl (apply_rule_ref_defaults ref owner.namespace) ≡ ok os
          → All (λ o. Known o × (depth o < n)) os)
        refs

  -- A known RuleSet finds only known objects, of a smaller depth than its own.
  abbrev pub IsAcyclic : Type 0
  IsAcyclic =
      (o : ClusterObject Sel) (s : RuleSetSpec Sel)
      → Known o
      → o.rule_set ≡ some s
      → FindsBelow (depth o) (owner_of o s) s.rule_refs

  module _ (acyclic : IsAcyclic) (below : Below Sel) (n : ℕ)
      (ends : (m : ℕ) (refs : List (RuleRef Sel)) (owner : Owner Sel)
        → m < n
        → FindsBelow m owner refs
        → Ends (below refs owner))
      (owner : Owner Sel) where
    rule_set-Ends :
        (o : ClusterObject Sel) (spec : Option (RuleSetSpec Sel))
        → Known o × (depth o < n)
        → o.rule_set ≡ spec
        → Ends (expand_rule_set below o spec)
    unfolding expand_rule_set
    rule_set-Ends o none known e = tt
    rule_set-Ends o (some s) (known, lt) e =
        bind-Ends (below s.rule_refs (owner_of o s))
          (λ r. ok (joined r (record { objects = o ∷ []; refusals = [] })))
          (ends (depth o) s.rule_refs (owner_of o s) lt (acyclic o s known e)) (λ r. tt)

    object-Ends :
        (o : ClusterObject Sel) → Known o × (depth o < n) → Ends (expand_object cl below owner o)
    unfolding expand_object
    object-Ends o lt =
        if_ind Ends (allowed_object cl o owner)
          (if_ind Ends (str_eq o.kind "RuleSet") (rule_set-Ends o o.rule_set lt refl) tt) tt

    objects-Ends :
        (os : List (ClusterObject Sel))
        → All (λ o. Known o × (depth o < n)) os
        → Ends (expand_objects cl below owner os)
    unfolding expand_objects
    objects-Ends [] h = tt
    objects-Ends (o ∷ os) (lt, h) =
        bind-Ends (expand_object cl below owner o)
          (λ r. expand_objects cl below owner os >>= λ s. ok (joined r s)) (object-Ends o lt)
          (λ r.
            bind-Ends (expand_objects cl below owner os) (λ s. ok (joined r s)) (objects-Ends os h)
              (λ s. tt))

    found-Ends :
        (answer : Result LookupError (List (ClusterObject Sel)))
        → ((os : List (ClusterObject Sel)) → answer ≡ ok os → All (λ o. Known o × (depth o < n)) os)
        → Ends (expand_found cl below owner answer)
    unfolding expand_found
    found-Ends (ok os) h = objects-Ends os (h os refl)
    found-Ends (err e) h = tt

    refs-Ends :
        (refs : List (RuleRef Sel))
        → FindsBelow n owner refs
        → Ends (expand_refs cl below owner refs)
    unfolding expand_refs
    refs-Ends [] h = tt
    refs-Ends (ref ∷ refs) (h, hs) =
        let answer = lookup_ref cl (apply_rule_ref_defaults ref owner.namespace) in
        bind-Ends (expand_found cl below owner answer)
          (λ r. expand_refs cl below owner refs >>= λ s. ok (joined r s)) (found-Ends answer h)
          (λ r.
            bind-Ends (expand_refs cl below owner refs) (λ s. ok (joined r s)) (refs-Ends refs hs)
              (λ s. tt))

  reconcile-Ends :
      IsAcyclic
      → (fuel n : ℕ) (refs : List (RuleRef Sel)) (owner : Owner Sel) → n < fuel
      → FindsBelow n owner refs
      → Ends (reconcile_refs cl fuel refs owner)
  unfolding reconcile_refs
  reconcile-Ends acyclic zero n refs owner lt h = absurd (omega arith)
  reconcile-Ends acyclic (suc fuel) n refs owner lt h =
      refs-Ends acyclic (reconcile_refs cl fuel) n
        (λ m refs' owner' less below.
          reconcile-Ends acyclic fuel m refs' owner' (omega arith) below)
        owner refs h

  not_out_of_fuel : (r : Result ResolveError (Resolution Sel)) → Ends r → r ≢ err out_of_fuel
  not_out_of_fuel r h e = subst Ends e h

  -- If the references find only known objects of a depth below `n`, and each known RuleSet finds only
  -- known objects of a smaller depth than its own, then the resolution ends within a nesting of `n` + 1.
  pub reconcile_refs_ends :
      (n : ℕ) (refs : List (RuleRef Sel)) (owner : Owner Sel)
      → IsAcyclic
      → FindsBelow n owner refs
      → reconcile_refs cl (n + 1) refs owner ≢ err out_of_fuel
  reconcile_refs_ends n refs owner acyclic h =
      not_out_of_fuel (reconcile_refs cl (n + 1) refs owner)
        (reconcile-Ends acyclic (n + 1) n refs owner (omega arith) h)

module _ {Sel : Type 0} (cl : Cluster Sel) where
  cyclic_object :
      (below : Below Sel) (owner : Owner Sel) (o : ClusterObject Sel) (s : RuleSetSpec Sel)
      → str_eq o.kind "RuleSet" ≡ true
      → o.rule_set ≡ some s
      → allowed_object cl o owner ≡ true
      → below s.rule_refs (owner_of o s) ≡ err out_of_fuel
      → expand_object cl below owner o ≡ err out_of_fuel
  unfolding expand_object expand_rule_set
  cyclic_object below owner o s k d a e =
      if_true (allowed_object cl o owner)
        (if str_eq o.kind "RuleSet"
          then expand_rule_set below o o.rule_set
          else ok (record { objects = o ∷ []; refusals = [] }))
        (ok (refused Refusal.not_allowed)) a
      ∙ if_true (str_eq o.kind "RuleSet") (expand_rule_set below o o.rule_set)
          (ok (record { objects = o ∷ []; refusals = [] })) k
      ∙ ap (expand_rule_set below o) d
      ∙ ap (λ q. q >>= λ r. ok (joined r (record { objects = o ∷ []; refusals = [] }))) e

  one_ref :
      (below : Below Sel) (owner : Owner Sel) (o : ClusterObject Sel) (ref : RuleRef Sel)
      → lookup_ref cl (apply_rule_ref_defaults ref owner.namespace) ≡ ok (o ∷ [])
      → expand_object cl below owner o ≡ err out_of_fuel
      → expand_refs cl below owner (ref ∷ []) ≡ err out_of_fuel
  unfolding expand_refs expand_found expand_objects
  one_ref below owner o ref found e =
      ap (λ x. expand_found cl below owner x >>= λ r. ok nothing >>= λ s. ok (joined r s)) found
      ∙ ap
          (λ x. (x >>= λ r. ok nothing >>= λ s. ok (joined r s)) >>= λ r.
            ok nothing >>= λ s. ok (joined r s))
          e

  -- If the only reference of a RuleSet finds the RuleSet itself, its resolution does not end: no
  -- depth of nesting is enough.
  pub self_reference_does_not_end :
      (o : ClusterObject Sel) (s : RuleSetSpec Sel) (ref : RuleRef Sel) (fuel : ℕ)
      → str_eq o.kind "RuleSet" ≡ true
      → o.rule_set ≡ some s
      → s.rule_refs ≡ ref ∷ []
      → lookup_ref cl (apply_rule_ref_defaults ref o.namespace) ≡ ok (o ∷ [])
      → allowed_object cl o (owner_of o s) ≡ true
      → reconcile_refs cl fuel s.rule_refs (owner_of o s) ≡ err out_of_fuel
  unfolding reconcile_refs
  self_reference_does_not_end o s ref zero k d only found a = refl
  self_reference_does_not_end o s ref (suc fuel) k d only found a =
      let inner = self_reference_does_not_end o s ref fuel k d only found a in
      let below = reconcile_refs cl fuel in
      ap (expand_refs cl below (owner_of o s)) only
      ∙ one_ref below (owner_of o s) o ref found
          (cyclic_object below (owner_of o s) o s k d a inner)
