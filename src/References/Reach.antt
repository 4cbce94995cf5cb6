-- ===== src/References/Reach.antt =====
-- internal/references2/resolver.go: what a resolution can return, and where it does not end.
use kubewaf.Prelude.{
  ℕ, zero, suc, ◌≡◌, refl, subst, Bool, true, false, Option, none, some, List, [], ◌∷◌,
  if◌then◌else◌, All, All-append, Any, inl, inr, str_eq,
}
use kubewaf.Prelude.Result.{Result, ok, err, ◌>>=◌, >>=-eq-ok}
use kubewaf.References.{
  RuleRef, RuleSetSpec, ClusterObject, Owner, LookupError, Cluster, apply_rule_ref_defaults,
  lookup_ref, allowed_object, Refusal, ResolveError, Resolution, nothing, joined, refused, Below,
  owner_of, expand_rule_set, expand_object, expand_objects, expand_found, expand_refs,
  reconcile_refs,
}

module _ {Sel : Type 0} (cl : Cluster Sel) where
  -- A reference finds the object.
  abbrev pub Finds : Owner Sel → ClusterObject Sel → RuleRef Sel → Type 0
  Finds owner o ref =
      (os : List (ClusterObject Sel)) × (lookup_ref cl (apply_rule_ref_defaults ref owner.namespace)
        ≡ ok os)
      × Any (λ x. x ≡ o) os

  -- One of the references finds the object, and the owner's policy allows it.
  abbrev pub Offers : List (RuleRef Sel) → Owner Sel → ClusterObject Sel → Type 0
  Offers refs owner o = Any (Finds owner o) refs × (allowed_object cl o owner ≡ true)

  -- The object is offered to the owner, or to a RuleSet that is reached.
  pub data Reaches : List (RuleRef Sel) → Owner Sel → ClusterObject Sel → Type 0 where
    direct :
        {refs : List (RuleRef Sel)} {owner : Owner Sel} {o : ClusterObject Sel}
        → Offers refs owner o
        → Reaches refs owner o
    nested :
        {refs : List (RuleRef Sel)} {owner : Owner Sel} {o : ClusterObject Sel}
        (set : ClusterObject Sel) (s : RuleSetSpec Sel)
        → Offers refs owner set
        → set.rule_set ≡ some s
        → Reaches s.rule_refs (owner_of set s) o
        → Reaches refs owner o

  ok_joined :
      (r s t : Resolution Sel) → Path (Result ResolveError (Resolution Sel)) (ok r) (ok s) → r ≡ s
  ok_joined r s t e = cc

  module _ (below : Below Sel)
      (sound : (refs : List (RuleRef Sel)) (owner : Owner Sel) (r : Resolution Sel)
        → below refs owner ≡ ok r
        → All (Reaches refs owner) r.objects)
      (all_refs : List (RuleRef Sel)) (owner : Owner Sel) where
    All-nested :
        (set : ClusterObject Sel) (s : RuleSetSpec Sel) (os : List (ClusterObject Sel))
        → Offers all_refs owner set
        → set.rule_set ≡ some s
        → All (Reaches s.rule_refs (owner_of set s)) os
        → All (Reaches all_refs owner) os
    All-nested set s [] h e hs = tt
    All-nested set s (o ∷ os) h e (r, hs) = (nested set s h e r, All-nested set s os h e hs)

    rule_set_sound :
        (o : ClusterObject Sel) (spec : Option (RuleSetSpec Sel)) (r : Resolution Sel)
        → Offers all_refs owner o
        → o.rule_set ≡ spec
        → expand_rule_set below o spec ≡ ok r
        → All (Reaches all_refs owner) r.objects
    unfolding expand_rule_set
    rule_set_sound o none r h e e' = cc
    rule_set_sound o (some s) r h e e' =
        let (inner, m, f) =
          >>=-eq-ok (below s.rule_refs (owner_of o s))
            (λ q. ok (joined q (record { objects = o ∷ []; refusals = [] }))) e' in
        subst (λ q. All (Reaches all_refs owner) q.objects)
          (ok_joined (joined inner (record { objects = o ∷ []; refusals = [] })) r nothing f)
          (All-append (Reaches all_refs owner) inner.objects (o ∷ [])
            (All-nested o s inner.objects h e (sound s.rule_refs (owner_of o s) inner m))
            (direct h, tt))

    by_kind :
        (b : Bool) (o : ClusterObject Sel) (r : Resolution Sel)
        → Offers all_refs owner o
        → (if b
            then expand_rule_set below o o.rule_set
            else ok (record { objects = o ∷ []; refusals = [] }))
          ≡ ok r
        → All (Reaches all_refs owner) r.objects
    by_kind true o r h e = rule_set_sound o o.rule_set r h refl e
    by_kind false o r h e =
        subst (λ q. All (Reaches all_refs owner) q.objects)
          (ok_joined (record { objects = o ∷ []; refusals = [] }) r nothing e) (direct h, tt)

    by_policy :
        (b : Bool) (o : ClusterObject Sel) (r : Resolution Sel)
        → allowed_object cl o owner ≡ b
        → Any (Finds owner o) all_refs
        → (if b
            then (if str_eq o.kind "RuleSet"
                then expand_rule_set below o o.rule_set
                else ok (record { objects = o ∷ []; refusals = [] }))
            else ok (refused Refusal.not_allowed))
          ≡ ok r
        → All (Reaches all_refs owner) r.objects
    by_policy true o r a h e = by_kind (str_eq o.kind "RuleSet") o r (h, a) e
    by_policy false o r a h e =
        subst (λ q. All (Reaches all_refs owner) q.objects)
          (ok_joined (refused Refusal.not_allowed) r nothing e) tt

    object_sound :
        (o : ClusterObject Sel) (r : Resolution Sel)
        → Any (Finds owner o) all_refs
        → expand_object cl below owner o ≡ ok r
        → All (Reaches all_refs owner) r.objects
    unfolding expand_object
    object_sound o r h e = by_policy (allowed_object cl o owner) o r refl h e

    objects_sound :
        (os : List (ClusterObject Sel)) (r : Resolution Sel)
        → All (λ o. Any (Finds owner o) all_refs) os
        → expand_objects cl below owner os ≡ ok r
        → All (Reaches all_refs owner) r.objects
    unfolding expand_objects
    objects_sound [] r h e =
        subst (λ q. All (Reaches all_refs owner) q.objects) (ok_joined nothing r nothing e) tt
    objects_sound (o ∷ os) r (h, hs) e =
        let (first, m, f) =
          >>=-eq-ok (expand_object cl below owner o)
            (λ q. expand_objects cl below owner os >>= λ s. ok (joined q s)) e in
        let (rest, m', f') =
          >>=-eq-ok (expand_objects cl below owner os) (λ s. ok (joined first s)) f in
        subst (λ q. All (Reaches all_refs owner) q.objects)
          (ok_joined (joined first rest) r nothing f')
          (All-append (Reaches all_refs owner) first.objects rest.objects (object_sound o first h m)
            (objects_sound os rest hs m'))

    found_sound :
        (answer : Result LookupError (List (ClusterObject Sel))) (r : Resolution Sel)
        → ((os : List (ClusterObject Sel))
            → answer ≡ ok os
            → All (λ o. Any (Finds owner o) all_refs) os)
        → expand_found cl below owner answer ≡ ok r
        → All (Reaches all_refs owner) r.objects
    unfolding expand_found
    found_sound (ok os) r h e = objects_sound os r (h os refl) e
    found_sound (err x) r h e =
        subst (λ q. All (Reaches all_refs owner) q.objects)
          (ok_joined (refused Refusal.not_found) r nothing e) tt

    All-found :
        (ref : RuleRef Sel) (os rest : List (ClusterObject Sel))
        → ((o : ClusterObject Sel) → Finds owner o ref → Any (Finds owner o) all_refs)
        → lookup_ref cl (apply_rule_ref_defaults ref owner.namespace) ≡ ok os
        → ((o : ClusterObject Sel) → Any (λ x. x ≡ o) rest → Any (λ x. x ≡ o) os)
        → All (λ o. Any (Finds owner o) all_refs) rest
    All-found ref os [] within e inside = tt
    All-found ref os (o ∷ rest) within e inside = (
      within o (os, e, inside o (inl refl)),
      All-found ref os rest within e (λ x h. inside x (inr h)),
    )

    refs_sound :
        (refs : List (RuleRef Sel)) (r : Resolution Sel)
        → ((o : ClusterObject Sel) → Any (Finds owner o) refs → Any (Finds owner o) all_refs)
        → expand_refs cl below owner refs ≡ ok r
        → All (Reaches all_refs owner) r.objects
    unfolding expand_refs
    refs_sound [] r within e =
        subst (λ q. All (Reaches all_refs owner) q.objects) (ok_joined nothing r nothing e) tt
    refs_sound (ref ∷ refs) r within e =
        let answer = lookup_ref cl (apply_rule_ref_defaults ref owner.namespace) in
        let (first, m, f) =
          >>=-eq-ok (expand_found cl below owner answer)
            (λ q. expand_refs cl below owner refs >>= λ s. ok (joined q s)) e in
        let (rest, m', f') =
          >>=-eq-ok (expand_refs cl below owner refs) (λ s. ok (joined first s)) f in
        subst (λ q. All (Reaches all_refs owner) q.objects)
          (ok_joined (joined first rest) r nothing f')
          (All-append (Reaches all_refs owner) first.objects rest.objects
            (found_sound answer first
              (λ os found. All-found ref os os (λ o h. within o (inl h)) found (λ o h. h)) m)
            (refs_sound refs rest (λ o h. within o (inr h)) m'))

  -- Every object of a resolution is reached from the references: one finds it and the owner's policy
  -- allows its namespace, or a RuleSet that is reached so reaches it under its own policy.
  pub reconcile_refs_sound :
      (fuel : ℕ) (refs : List (RuleRef Sel)) (owner : Owner Sel) (r : Resolution Sel)
      → reconcile_refs cl fuel refs owner ≡ ok r
      → All (Reaches refs owner) r.objects
  unfolding reconcile_refs
  reconcile_refs_sound zero refs owner r e = cc
  reconcile_refs_sound (suc fuel) refs owner r e =
      refs_sound (reconcile_refs cl fuel) (reconcile_refs_sound fuel) refs owner refs r (λ o h. h) e
