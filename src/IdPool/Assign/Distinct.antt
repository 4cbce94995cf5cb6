-- ===== src/IdPool/Assign/Distinct.antt =====
-- internal/controller/seclang/id_pool.go: no id of a fresh allocation clashes.
use kubewaf.Prelude.{
  ℕ, ◌<◌, ◌≡◌, Bool, true, false, List, [], ◌∷◌, arith, if◌then◌else◌, All, inl, inr, ◌⊎◌,
}
use kubewaf.Prelude.State.{pure}
use kubewaf.Api.SecRule.{SecRule, SecLangSecRule, meta_id, is_single_rule_form}
use kubewaf.IdPool.Pool.{IdSet, insert}
use kubewaf.IdPool.Allocate.{Client}
use kubewaf.IdPool.Allocate.Grants.{IsNew}
use kubewaf.IdPool.Apply.{bag_stated, stated_ids}
use kubewaf.IdPool.Assign.{of_tally, resolve_one_id, resolve_from, one_id, bag_ids, allocate_ids}
use kubewaf.IdPool.Assign.Answers.{Ensures, bind-Ensures, weaken-Ensures}
use kubewaf.IdPool.Assign.Fresh.{
  IsUnassigned, free_self_claims-unassigned, IsChoice, AreChoices, resolve-IsChoice,
  resolve_from-AreChoices,
}

-- Two rules with the same id both state it.
abbrev pub IsClear : ℕ → ℕ → List ℕ → List ℕ → Type 0
IsClear meta id (meta' ∷ metas) (id' ∷ ids) =
    (id ≡ id' → (0 < meta) × (0 < meta')) × IsClear meta id metas ids
IsClear meta id metas ids = Unit

-- No id is given to two rules unless both state it, and an id that is not stated was not used.
abbrev pub AreDistinct : IdSet → List ℕ → List ℕ → Type 0
AreDistinct used (meta ∷ metas) (id ∷ ids) =
    (meta ≡ 0 → IsNew used id) × IsClear meta id metas ids × AreDistinct used metas ids
AreDistinct used metas ids = Unit

abbrev pub AreUsed : IdSet → List ℕ → Type 0
AreUsed used metas = All (λ meta. 0 < meta → used meta ≡ true) metas

insert_same : (id : ℕ) (used : IdSet) → insert id used id ≡ true
insert_same id used = ground arith

insert_keeps : (id j : ℕ) (used : IdSet) → used j ≡ true → insert id used j ≡ true
insert_keeps id j used h = ground arith

insert_free : (id j : ℕ) (used : IdSet) → insert id used j ≡ false → used j ≡ false
insert_free id j used h = ground arith

insert-AreUsed :
    (id : ℕ) (used : IdSet) (metas : List ℕ) → AreUsed used metas → AreUsed (insert id used) metas
insert-AreUsed id used [] h = tt
insert-AreUsed id used (meta ∷ metas) (h, hs) =
    ((λ pos. insert_keeps id meta used (h pos)), insert-AreUsed id used metas hs)

zero_or_pos : (n : ℕ) → (n ≡ 0) ⊎ (0 < n)
zero_or_pos n = omega arith

clear_pair :
    (meta id meta' id' : ℕ) (used later : IdSet)
    → IsChoice meta used id
    → later id ≡ true
    → IsChoice meta' later id'
    → (0 < meta' → used meta' ≡ true)
    → id ≡ id'
    → (0 < meta) × (0 < meta')
clear_pair meta id meta' id' used later choice taken choice' stated e = elim (zero_or_pos meta') [
  | inl z' ↦ cc ((choice'.1 z').1)
  | inr pos' ↦ elim (zero_or_pos meta) [
    | inl z ↦ cc ((choice.1 z).1, stated pos', choice'.0 pos')
    | inr pos ↦ (pos, pos')
  ]
]

choices-IsClear :
    (meta id : ℕ) (metas ids : List ℕ) (used later : IdSet)
    → IsChoice meta used id
    → later id ≡ true
    → AreUsed used metas
    → AreChoices metas later ids
    → IsClear meta id metas ids
choices-IsClear meta id [] ids used later choice taken stated h = tt
choices-IsClear meta id (meta' ∷ metas) [] used later choice taken stated h = tt
choices-IsClear meta id (meta' ∷ metas) (id' ∷ ids) used later choice taken (s, stated) (h, hs) = (
  clear_pair meta id meta' id' used later choice taken h s,
  choices-IsClear meta id metas ids used (insert id' later) choice (insert_keeps id' id later taken)
      stated hs,
)

-- `first` are the ids that were used at the start.
choices-AreDistinct :
    (metas ids : List ℕ) (first used : IdSet)
    → ((j : ℕ) → used j ≡ false → first j ≡ false)
    → AreUsed used metas
    → AreChoices metas used ids
    → AreDistinct first metas ids
choices-AreDistinct [] ids first used back stated h = tt
choices-AreDistinct (meta ∷ metas) [] first used back stated h = tt
choices-AreDistinct (meta ∷ metas) (id ∷ ids) first used back (s, stated) (h, hs) = (
  (λ z. ((h.1 z).0, back id (h.1 z).1)),
  choices-IsClear meta id metas ids used (insert id used) h (insert_same id used) stated hs,
  choices-AreDistinct metas ids first (insert id used)
      (λ j free. back j (insert_free id j used free)) (insert-AreUsed id used metas stated) hs,
)

module _ {S : Type 0} (c : Client S) where
  bag_ids-AreChoices :
      (sr : SecRule) (rs : List SecLangSecRule) (s : S) (used : IdSet)
      → IsUnassigned sr
      → Ensures (λ a used'. AreChoices (bag_stated rs) used a.assigned) (bag_ids c sr rs (s, used))
  bag_ids-AreChoices sr [] s used h = tt
  bag_ids-AreChoices sr (r ∷ rs) s used h =
      let loop = resolve_from c sr 0 (r ∷ rs) (s, used) in
      bind-Ensures (λ t used'. AreChoices (bag_stated (r ∷ rs)) used t.ids)
        (λ a used'. AreChoices (bag_stated (r ∷ rs)) used a.assigned) (λ t. pure (of_tally t))
        loop.0 loop.1 (resolve_from-AreChoices c sr 0 (r ∷ rs) s used h)
        (λ t s' used' choices. choices)

  one_id-AreChoices :
      (sr : SecRule) (s : S) (used : IdSet)
      → IsUnassigned sr
      → Ensures
          (λ a used'. AreChoices (meta_id sr.spec.metadata ∷ []) used a.assigned)
          (one_id c sr (s, used))
  one_id-AreChoices sr s used h =
      let meta = meta_id sr.spec.metadata in
      let first = resolve_one_id c sr meta 0 (s, used) in
      bind-Ensures (λ r used'. (used' ≡ insert r.0 used) × IsChoice meta used r.0)
        (λ a used'. AreChoices (meta ∷ []) used a.assigned)
        (λ r. pure (record { assigned = r.0 ∷ []; primary = r.0; source = r.1 })) first.0 first.1
        (resolve-IsChoice c sr meta 0 s used h) (λ r s' used' choice. (choice.1, tt))

  by_form :
      (b : Bool) (sr : SecRule) (s : S) (used : IdSet)
      → IsUnassigned sr
      → Ensures
          (λ a used'.
            AreChoices
              (if b then meta_id sr.spec.metadata ∷ [] else bag_stated sr.spec.sec_rules)
              used
              a.assigned)
          (if b then one_id c sr (s, used) else bag_ids c sr sr.spec.sec_rules (s, used))
  by_form true sr s used h = one_id-AreChoices sr s used h
  by_form false sr s used h = bag_ids-AreChoices sr sr.spec.sec_rules s used h

  allocate_ids-AreChoices :
      (sr : SecRule) (s : S) (used : IdSet)
      → IsUnassigned sr
      → Ensures
          (λ a used'. AreChoices (stated_ids sr.spec) used a.assigned)
          (allocate_ids c sr (s, used))
  unfolding allocate_ids
  allocate_ids-AreChoices sr s used h =
      rw (free_self_claims-unassigned sr used h) (by_form (is_single_rule_form sr.spec) sr s used h)

  -- Whatever the server does: if a SecRule has no ids yet, the ids that it states are used (as
  -- `collectUsedIDs` notes them) and `allocateIDs` does not fail, then an id that is not stated was
  -- not used before, and two rules have the same id only if both state it.
  pub allocate_ids-AreDistinct :
      (sr : SecRule) (s : S) (used : IdSet)
      → IsUnassigned sr
      → AreUsed used (stated_ids sr.spec)
      → Ensures
          (λ a used'. AreDistinct used (stated_ids sr.spec) a.assigned)
          (allocate_ids c sr (s, used))
  allocate_ids-AreDistinct sr s used h stated =
      weaken-Ensures (λ a used'. AreChoices (stated_ids sr.spec) used a.assigned)
        (λ a used'. AreDistinct used (stated_ids sr.spec) a.assigned) (allocate_ids c sr (s, used))
        (λ a used'.
          choices-AreDistinct (stated_ids sr.spec) a.assigned used used (λ j free. free) stated)
        (allocate_ids-AreChoices sr s used h)
