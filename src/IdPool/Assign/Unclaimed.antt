-- ===== src/IdPool/Assign/Unclaimed.antt =====
-- internal/controller/seclang/id_pool.go: the ids of a fresh allocation are in no other SecRule.
use kubewaf.Prelude.{
  ℕ, ◌<◌, ◌≡◌, refl, sym, subst, Bool, true, false, List, [], ◌∷◌, if◌then◌else◌, inl, inr, Any,
}
use kubewaf.Api.SecRule.{SecRule, SecLangSecRule, meta_id, is_single_rule_form}
use kubewaf.IdPool.Pool.{IdSet, no_ids}
use kubewaf.IdPool.Allocate.{Client, note_all}
use kubewaf.IdPool.Allocate.Claims.{Claims, by_metadata, by_rule, note_all_notes}
use kubewaf.IdPool.Apply.{bag_stated, stated_ids}
use kubewaf.IdPool.Assign.{allocate_ids}
use kubewaf.IdPool.Assign.Answers.{Ensures, weaken-Ensures}
use kubewaf.IdPool.Assign.Fresh.{IsUnassigned}
use kubewaf.IdPool.Assign.Distinct.{AreDistinct, IsClear, AreUsed, allocate_ids-AreDistinct}

-- An id that is not stated is claimed by none of the SecRules; and two rules have the same id only
-- if both state it.
abbrev pub AreUnclaimed : List SecRule → List ℕ → List ℕ → Type 0
AreUnclaimed srs (meta ∷ metas) (id ∷ ids) =
    (meta ≡ 0 → ¬ Any (λ sr. Claims sr id) srs)
    × IsClear meta id metas ids
    × AreUnclaimed srs metas ids
AreUnclaimed srs metas ids = Unit

claimed :
    (sr : SecRule) (srs : List SecRule) (id : ℕ)
    → Any (λ x. x ≡ sr) srs
    → Claims sr id
    → Any (λ x. Claims x id) srs
claimed sr [] id h claim = absurd h
claimed sr (x ∷ srs) id (inl e) claim = inl (subst (λ y. Claims y id) (sym e) claim)
claimed sr (x ∷ srs) id (inr h) claim = inr (claimed sr srs id h claim)

bag-AreUsed :
    (sr : SecRule) (used : IdSet) (rs : List SecLangSecRule)
    → ((id : ℕ) → 0 < id → Claims sr id → used id ≡ true)
    → ((id : ℕ) → Any (λ r. meta_id r.metadata ≡ id) rs → Claims sr id)
    → AreUsed used (bag_stated rs)
bag-AreUsed sr used [] notes within = tt
bag-AreUsed sr used (r ∷ rs) notes within = (
  (λ pos. notes (meta_id r.metadata) pos (within (meta_id r.metadata) (inl refl))),
  bag-AreUsed sr used rs notes (λ id h. within id (inr h)),
)

stated-AreUsed :
    (b : Bool) (sr : SecRule) (used : IdSet)
    → ((id : ℕ) → 0 < id → Claims sr id → used id ≡ true)
    → AreUsed used (if b then meta_id sr.spec.metadata ∷ [] else bag_stated sr.spec.sec_rules)
stated-AreUsed true sr used notes =
    ((λ pos. notes (meta_id sr.spec.metadata) pos (by_metadata refl)), tt)
stated-AreUsed false sr used notes = bag-AreUsed sr used sr.spec.sec_rules notes (λ id h. by_rule h)

distinct-AreUnclaimed :
    (srs : List SecRule) (metas ids : List ℕ)
    → AreDistinct (note_all srs no_ids) metas ids
    → AreUnclaimed srs metas ids
distinct-AreUnclaimed srs [] ids h = tt
distinct-AreUnclaimed srs (meta ∷ metas) [] h = tt
distinct-AreUnclaimed srs (meta ∷ metas) (id ∷ ids) (new, clear, h) = (
  (λ z claim. cc (note_all_notes srs id no_ids (new z).0 claim, (new z).1)),
  clear,
  distinct-AreUnclaimed srs metas ids h,
)

-- Whatever the server does: if the listed SecRules include one that has no ids yet, and `allocateIDs`
-- does not fail on it with the ids that `collectUsedIDs` collects, then no SecRule of the list claims
-- an id that it is given from the pool, and two of its rules have the same id only if both state it.
pub allocated_ids-AreUnclaimed :
    {S : Type 0} (c : Client S) (sr : SecRule) (srs : List SecRule) (s : S)
    → IsUnassigned sr
    → Any (λ x. x ≡ sr) srs
    → Ensures
        (λ a used. AreUnclaimed srs (stated_ids sr.spec) a.assigned)
        (allocate_ids c sr (s, note_all srs no_ids))
allocated_ids-AreUnclaimed c sr srs s fresh listed =
    weaken-Ensures (λ a used. AreDistinct (note_all srs no_ids) (stated_ids sr.spec) a.assigned)
      (λ a used. AreUnclaimed srs (stated_ids sr.spec) a.assigned)
      (allocate_ids c sr (s, note_all srs no_ids))
      (λ a used. distinct-AreUnclaimed srs (stated_ids sr.spec) a.assigned)
      (allocate_ids-AreDistinct c sr s (note_all srs no_ids) fresh (
        stated-AreUsed (is_single_rule_form sr.spec) sr (note_all srs no_ids)
          (λ id pos claim. note_all_notes srs id no_ids pos (claimed sr srs id listed claim))))
