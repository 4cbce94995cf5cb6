-- ===== src/IdPool/Apply/RoundTrip.antt =====
-- internal/controller/seclang/id_pool.go and internal/probeassemble/assigned_ids.go: what is allocated
-- is what the assembly then finds.
use kubewaf.Prelude.{
  ℕ, ◌<◌, ◌≡◌, ◌≢◌, refl, ap, if_elim, if_true, if_false, Bool, true, false, Option, none, some,
  List, [], ◌∷◌, ltb, if◌then◌else◌, All, lt→ltb, ◌∙◌, sym, subst, ltb→lt,
}
use kubewaf.Prelude.Result.{ok, err}
use kubewaf.Api.SecRule.{
  SecRule, SecRuleSpec, SecLangSecRule, SecRuleMetadata, meta_id, is_single_rule_form, is_some,
  is_nil,
}
use kubewaf.IdPool.Pool.{IdSet}
use kubewaf.IdPool.Allocate.{Client}
use kubewaf.IdPool.Assign.{allocate_ids, head_id}
use kubewaf.IdPool.Assign.Answers.{
  Ensures, IsAnswer, AreAnswers, weaken-Ensures, allocate_ids-AreAnswers,
}
use kubewaf.IdPool.Apply.{
  with_id, apply_rule, apply_rules, set_spec, apply_assigned_ids, bag_stated, stated_ids,
  rule_ids_unresolved, check_rules, check_bag, ensure_rule_ids,
}

with_id-IsAnswer :
    (m : Option SecRuleMetadata) (id : ℕ) → IsAnswer (meta_id m) id → meta_id (with_id m id) ≡ id
unfolding with_id
with_id-IsAnswer none id (pos, same) = refl
with_id-IsAnswer (some m) id (pos, same) =
    if_elim (ltb 0 m.id) meta_id (some m) (some (record m { id = id })) id
      (λ e. sym (same (ltb→lt 0 m.id e))) (λ e. refl)

apply_rule-IsAnswer :
    (r : SecLangSecRule) (id : ℕ)
    → IsAnswer (meta_id r.metadata) id
    → meta_id ((apply_rule r id).metadata) ≡ id
unfolding apply_rule
apply_rule-IsAnswer r id (pos, same) =
    if_elim (ltb 0 id) (λ r'. meta_id r'.metadata) (record r { metadata = with_id r.metadata id }) r
      id (λ e. with_id-IsAnswer r.metadata id (pos, same)) (λ e. cc (lt→ltb 0 id pos))

apply_rules-AreAnswers :
    (rs : List SecLangSecRule) (ids : List ℕ)
    → AreAnswers (bag_stated rs) ids
    → bag_stated (apply_rules rs ids) ≡ ids
unfolding apply_rules
apply_rules-AreAnswers [] [] h = refl
apply_rules-AreAnswers [] (id ∷ ids) h = absurd h
apply_rules-AreAnswers (r ∷ rs) [] h = absurd h
apply_rules-AreAnswers (r ∷ rs) (id ∷ ids) (h, hs) =
    rw (apply_rule-IsAnswer r id h, apply_rules-AreAnswers rs ids hs) refl

is_some-with_id : (m : Option SecRuleMetadata) (id : ℕ) → is_some (with_id m id) ≡ true
unfolding with_id
is_some-with_id none id = refl
is_some-with_id (some m) id =
    if_elim (ltb 0 m.id) is_some (some m) (some (record m { id = id })) true (λ _. refl) (λ _. refl)

with_metadata-is_single :
    (s : SecRuleSpec) (m : Option SecRuleMetadata)
    → is_some m ≡ true
    → is_single_rule_form (record s { metadata = m }) ≡ true
unfolding is_single_rule_form
with_metadata-is_single s none e = cc
with_metadata-is_single s (some m) e = refl

is_nil-apply_rules :
    (rs : List SecLangSecRule) (ids : List ℕ) → is_nil (apply_rules rs ids) ≡ is_nil rs
unfolding apply_rules
is_nil-apply_rules [] ids = refl
is_nil-apply_rules (r ∷ rs) [] = refl
is_nil-apply_rules (r ∷ rs) (id ∷ ids) = refl

with_rules-is_single :
    (s : SecRuleSpec) (ids : List ℕ)
    → is_single_rule_form (record s { sec_rules = apply_rules s.sec_rules ids })
      ≡ is_single_rule_form s
unfolding is_single_rule_form
with_rules-is_single s ids = rw (is_nil-apply_rules s.sec_rules ids) refl

apply_single :
    (sr : SecRule) (ids : List ℕ)
    → is_single_rule_form sr.spec ≡ true
    → AreAnswers (meta_id sr.spec.metadata ∷ []) ids
    → stated_ids (apply_assigned_ids sr ids).spec ≡ ids
unfolding apply_assigned_ids
apply_single sr [] e h = absurd h
apply_single sr (id ∷ []) e ((pos, same), _) =
    let m = with_id sr.spec.metadata id in
    let filled = set_spec sr (record sr.spec { metadata = m }) in
    if_elim (is_single_rule_form sr.spec) (λ x. stated_ids x.spec) (if ltb 0 id then filled else sr)
      (set_spec sr (record sr.spec { sec_rules = apply_rules sr.spec.sec_rules (id ∷ []) }))
      (id ∷ [])
      (λ _.
        if_elim (ltb 0 id) (λ x. stated_ids x.spec) filled sr (id ∷ [])
          (λ _.
            if_true (is_single_rule_form filled.spec) (meta_id m ∷ [])
              (bag_stated sr.spec.sec_rules)
              (with_metadata-is_single sr.spec m (is_some-with_id sr.spec.metadata id))
            ∙ ap (λ i. i ∷ []) (with_id-IsAnswer sr.spec.metadata id (pos, same)))
          (λ e'. cc (lt→ltb 0 id pos)))
      (λ e'. cc)
apply_single sr (id ∷ id' ∷ ids) e (h, h') = absurd h'

apply_bag :
    (sr : SecRule) (id : ℕ) (ids : List ℕ)
    → is_single_rule_form sr.spec ≡ false
    → AreAnswers (bag_stated sr.spec.sec_rules) (id ∷ ids)
    → stated_ids (apply_assigned_ids sr (id ∷ ids)).spec ≡ id ∷ ids
unfolding apply_assigned_ids
apply_bag sr id ids e h =
    let filled = apply_rules sr.spec.sec_rules (id ∷ ids) in
    let bag = set_spec sr (record sr.spec { sec_rules = filled }) in
    if_elim (is_single_rule_form sr.spec) (λ x. stated_ids x.spec)
      (if ltb 0 id
        then set_spec sr (record sr.spec { metadata = with_id sr.spec.metadata id })
        else sr)
      bag (id ∷ ids) (λ e'. cc)
      (λ _.
        if_false (is_single_rule_form bag.spec) (meta_id sr.spec.metadata ∷ []) (bag_stated filled)
          (with_rules-is_single sr.spec (id ∷ ids) ∙ e)
        ∙ apply_rules-AreAnswers sr.spec.sec_rules (id ∷ ids) h)

apply_by_form :
    (b : Bool) (sr : SecRule) (id : ℕ) (ids : List ℕ)
    → is_single_rule_form sr.spec ≡ b
    → AreAnswers
        (if b then meta_id sr.spec.metadata ∷ [] else bag_stated sr.spec.sec_rules)
        (id ∷ ids)
    → stated_ids (apply_assigned_ids sr (id ∷ ids)).spec ≡ id ∷ ids
apply_by_form true sr id ids e h = apply_single sr (id ∷ ids) e h
apply_by_form false sr id ids e h = apply_bag sr id ids e h

check_rules-ok :
    (rs : List SecLangSecRule) → All (λ id. 0 < id) (bag_stated rs) → check_rules rs ≡ ok tt
unfolding check_rules
check_rules-ok [] h = refl
check_rules-ok (r ∷ rs) (pos, h) =
    if_true (ltb 0 (meta_id r.metadata)) (check_rules rs) (err rule_ids_unresolved)
      (lt→ltb 0 (meta_id r.metadata) pos)
    ∙ check_rules-ok rs h

check_bag-ok :
    (rs : List SecLangSecRule) (id : ℕ) (ids : List ℕ)
    → bag_stated rs ≡ id ∷ ids
    → All (λ id'. 0 < id') (bag_stated rs)
    → check_bag rs ≡ ok tt
unfolding check_bag
check_bag-ok [] id ids e h = cc
check_bag-ok (r ∷ rs) id ids e h = check_rules-ok (r ∷ rs) h

ensure_by_form :
    (b : Bool) (sr : SecRule) (id : ℕ) (ids : List ℕ)
    → (if b then meta_id sr.spec.metadata ∷ [] else bag_stated sr.spec.sec_rules) ≡ id ∷ ids
    → All
        (λ id'. 0 < id')
        (if b then meta_id sr.spec.metadata ∷ [] else bag_stated sr.spec.sec_rules)
    → (if b
        then (if ltb 0 (meta_id sr.spec.metadata) then ok tt else err rule_ids_unresolved)
        else check_bag sr.spec.sec_rules)
      ≡ ok tt
ensure_by_form true sr id ids e (pos, _) =
    if_true (ltb 0 (meta_id sr.spec.metadata)) (ok tt) (err rule_ids_unresolved)
      (lt→ltb 0 (meta_id sr.spec.metadata) pos)
ensure_by_form false sr id ids e h = check_bag-ok sr.spec.sec_rules id ids e h

ensure_positive :
    (sr : SecRule) (id : ℕ) (ids : List ℕ)
    → stated_ids sr.spec ≡ id ∷ ids
    → All (λ id'. 0 < id') (id ∷ ids)
    → ensure_rule_ids sr ≡ ok tt
unfolding ensure_rule_ids
ensure_positive sr id ids e h =
    ensure_by_form (is_single_rule_form sr.spec) sr id ids e
      (subst (All (λ id'. 0 < id')) (sym e) h)

AreAnswers-positive : (metas ids : List ℕ) → AreAnswers metas ids → All (λ id. 0 < id) ids
AreAnswers-positive [] [] h = tt
AreAnswers-positive [] (id ∷ ids) h = absurd h
AreAnswers-positive (meta ∷ metas) [] h = absurd h
AreAnswers-positive (meta ∷ metas) (id ∷ ids) ((pos, _), hs) =
    (pos, AreAnswers-positive metas ids hs)

no_answers : (metas : List ℕ) → AreAnswers metas [] → metas ≡ []
no_answers [] h = refl
no_answers (meta ∷ metas) h = absurd h

found_after :
    (sr : SecRule) (ids : List ℕ)
    → stated_ids sr.spec ≢ []
    → AreAnswers (stated_ids sr.spec) ids
    → (stated_ids (apply_assigned_ids sr ids).spec ≡ ids)
      × (ensure_rule_ids (apply_assigned_ids sr ids) ≡ ok tt)
found_after sr [] some_rule h = absurd (some_rule (no_answers (stated_ids sr.spec) h))
found_after sr (id ∷ ids) some_rule h =
    let same = apply_by_form (is_single_rule_form sr.spec) sr id ids refl h in
    (
      same,
      ensure_positive (apply_assigned_ids sr (id ∷ ids)) id ids same
          (AreAnswers-positive (stated_ids sr.spec) (id ∷ ids) h),
    )

-- Whatever the server does: if a SecRule has a rule and `allocateIDs` does not fail, then
-- `ApplyAssignedIDs` puts exactly the allocated ids into the rules, in order, and `EnsureRuleIDs`
-- accepts the result.
pub allocated_ids_are_found :
    {S : Type 0} (c : Client S) (sr : SecRule) (s : S) (used : IdSet)
    → stated_ids sr.spec ≢ []
    → Ensures
        (λ a used'.
          (stated_ids (apply_assigned_ids sr a.assigned).spec ≡ a.assigned)
          × (ensure_rule_ids (apply_assigned_ids sr a.assigned) ≡ ok tt))
        (allocate_ids c sr (s, used))
allocated_ids_are_found c sr s used some_rule =
    weaken-Ensures
      (λ a used'. AreAnswers (stated_ids sr.spec) a.assigned × (a.primary ≡ head_id a.assigned))
      (λ a used'.
        (stated_ids (apply_assigned_ids sr a.assigned).spec ≡ a.assigned)
        × (ensure_rule_ids (apply_assigned_ids sr a.assigned) ≡ ok tt))
      (allocate_ids c sr (s, used)) (λ a used' h. found_after sr a.assigned some_rule h.0)
      (allocate_ids-AreAnswers c sr s used)
