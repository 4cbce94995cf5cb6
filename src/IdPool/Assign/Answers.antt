-- ===== src/IdPool/Assign/Answers.antt =====
-- internal/controller/seclang/id_pool.go: the ids of an allocation answer what the rules state.
use kubewaf.Prelude.{
  ℕ, zero, suc, ◌+◌, ◌<◌, ◌≡◌, refl, Bool, true, false, Option, none, some, List, [], ◌∷◌, arith,
  inl, inr, or_else-some, ltb, if◌then◌else◌, get_elem?, ltb→lt,
}
use kubewaf.Prelude.Result.{Result, ok, err}
use kubewaf.Prelude.State.{Effect, pure, go_on, ◌>>=◌}
use kubewaf.Api.SecRule.{SecRule, SecLangSecRule, meta_id, is_single_rule_form}
use kubewaf.Api.Atoi.{atoi}
use kubewaf.IdPool.Pool.{IdSet, AllocError}
use kubewaf.IdPool.Allocate.{Client, allocate_one, sticky, annotated, positive, free_self_claims}
use kubewaf.IdPool.Allocate.Grants.{IsNew, IsOutcome, Anything, allocate_one-IsNew}
use kubewaf.IdPool.Apply.{bag_stated, stated_ids}
use kubewaf.IdPool.Assign.{
  IdSource, spec, auto, mixed, unset, Tally, tally, of_tally, Step, take_id, from_pool, kept_or_new,
  resolve_one_id, resolve_from, one_id, bag_ids, allocate_ids, head_id,
}

-- What a step ensures of its result, and of the used ids behind it, if it does not fail.
abbrev pub Ensures :
    {S A : Type 0} → (A → IdSet → Type 0) → Result AllocError A × (S × IdSet) → Type 0
Ensures P (ok a, (s, used)) = P a used
Ensures P (err e, state) = Unit

pub bind-Ensures :
    {S A B : Type 0} (P : A → IdSet → Type 0) (Q : B → IdSet → Type 0)
    (f : A → Effect (S × IdSet) AllocError B) (r : Result AllocError A) (state : S × IdSet)
    → Ensures P (r, state)
    → ((a : A) (s : S) (used : IdSet) → P a used → Ensures Q (f a (s, used)))
    → Ensures Q (go_on r f state)
bind-Ensures P Q f (ok a) (s, used) h k = k a s used h
bind-Ensures P Q f (err e) (s, used) h k = tt

-- An id that is above 0, and the stated one if one is stated.
abbrev pub IsAnswer : ℕ → ℕ → Type 0
IsAnswer meta id = (0 < id) × (0 < meta → id ≡ meta)

-- One answer for each rule, in order.
abbrev pub AreAnswers : List ℕ → List ℕ → Type 0
AreAnswers [] [] = Unit
AreAnswers (meta ∷ metas) (id ∷ ids) = IsAnswer meta id × AreAnswers metas ids
AreAnswers [] (id ∷ ids) = ⊥
AreAnswers (meta ∷ metas) [] = ⊥

pub weaken-Ensures :
    {S A : Type 0} (P Q : A → IdSet → Type 0) (r : Result AllocError A × (S × IdSet))
    → ((a : A) (used : IdSet) → P a used → Q a used)
    → Ensures P r
    → Ensures Q r
weaken-Ensures P Q (ok a, (s, used)) h p = h a used p
weaken-Ensures P Q (err e, (s, used)) h p = tt

tally-AreAnswers :
    (r : SecLangSecRule) (rs : List SecLangSecRule) (x : ℕ × IdSource) (t : Tally)
    → IsAnswer (meta_id r.metadata) x.0
    → AreAnswers (bag_stated rs) t.ids
    → AreAnswers (bag_stated (r ∷ rs)) (tally x t).ids
tally-AreAnswers r rs (id, spec) t h hs = (h, hs)
tally-AreAnswers r rs (id, auto) t h hs = (h, hs)
tally-AreAnswers r rs (id, mixed) t h hs = (h, hs)
tally-AreAnswers r rs (id, unset) t h hs = (h, hs)

positive-pos : (o : Option ℕ) (id : ℕ) → positive o ≡ some id → 0 < id
unfolding positive
positive-pos none id e = cc
positive-pos (some n) id e = ground arith

annotated-pos : (sr : SecRule) (i id : ℕ) → annotated sr i ≡ some id → 0 < id
unfolding annotated
annotated-pos sr zero id e = positive-pos (atoi sr.assigned_id_annotation) id e
annotated-pos sr (suc i) id e = cc

sticky-pos : (sr : SecRule) (i id : ℕ) → sticky sr i ≡ some id → 0 < id
unfolding sticky
sticky-pos sr i id e =
    elim (or_else-some (positive (get_elem? sr.status.assigned_ids i)) (annotated sr i) id e) [
      | inl h ↦ positive-pos (get_elem? sr.status.assigned_ids i) id h
      | inr h ↦ annotated-pos sr i id h
    ]

module _ {S : Type 0} (c : Client S) where
  from_outcome :
      (used : IdSet) (r : Result AllocError ℕ) (s : S)
      → IsOutcome Anything Anything (IsNew used) (r, s)
      → Ensures (λ id used'. (used' ≡ used) × IsNew used id) (r, (s, used))
  from_outcome used (ok id) s (h, _) = (refl, h)
  from_outcome used (err e) s h = tt

  -- The pool's ids are above 0 and not used.
  pub from_pool-IsNew :
      (s : S) (used : IdSet)
      → Ensures (λ id used'. (used' ≡ used) × IsNew used id) (from_pool c (s, used))
  unfolding from_pool
  from_pool-IsNew s used =
      from_outcome used (allocate_one c used s).0 (allocate_one c used s).1
        (allocate_one-IsNew c used s)

  kept_or_new-pos :
      (o : Option ℕ) (s : S) (used : IdSet)
      → ((id : ℕ) → o ≡ some id → 0 < id)
      → Ensures (λ r used'. 0 < r.0) (kept_or_new c o (s, used))
  unfolding kept_or_new
  kept_or_new-pos (some id) s used h = h id refl
  kept_or_new-pos none s used h =
      bind-Ensures (λ id used'. (used' ≡ used) × IsNew used id) (λ r used'. 0 < r.0)
        (take_id c auto) (from_pool c (s, used)).0 (from_pool c (s, used)).1
        (from_pool-IsNew s used) (λ id s' used' new. new.1.0)

  resolved-IsAnswer :
      (b : Bool) (meta : ℕ) (r : Step c (ℕ × IdSource)) (s : S) (used : IdSet)
      → ltb 0 meta ≡ b
      → Ensures (λ r used'. 0 < r.0) (r (s, used))
      → Ensures (λ r used'. IsAnswer meta r.0) ((if b then take_id c spec meta else r) (s, used))
  resolved-IsAnswer true meta r s used e h = (ltb→lt 0 meta e, λ _. refl)
  resolved-IsAnswer false meta r s used e h =
      weaken-Ensures (λ r' used'. 0 < r'.0) (λ r' used'. IsAnswer meta r'.0) (r (s, used))
        (λ a used' pos. (pos, λ lt. absurd (ground arith))) h

  resolve_one_id-IsAnswer :
      (sr : SecRule) (meta index : ℕ) (s : S) (used : IdSet)
      → Ensures (λ r used'. IsAnswer meta r.0) (resolve_one_id c sr meta index (s, used))
  unfolding resolve_one_id
  resolve_one_id-IsAnswer sr meta index s used =
      resolved-IsAnswer (ltb 0 meta) meta (kept_or_new c (sticky sr index)) s used refl
        (kept_or_new-pos (sticky sr index) s used (sticky-pos sr index))

  resolve_from-AreAnswers :
      (sr : SecRule) (index : ℕ) (rs : List SecLangSecRule) (s : S) (used : IdSet)
      → Ensures (λ t used'. AreAnswers (bag_stated rs) t.ids) (resolve_from c sr index rs (s, used))
  unfolding resolve_from
  resolve_from-AreAnswers sr index [] s used = tt
  resolve_from-AreAnswers sr index (r ∷ rs) s used =
      let first = resolve_one_id c sr (meta_id r.metadata) index (s, used) in
      bind-Ensures (λ r' used'. IsAnswer (meta_id r.metadata) r'.0)
        (λ t used'. AreAnswers (bag_stated (r ∷ rs)) t.ids)
        (λ id. resolve_from c sr (index + 1) rs >>= λ t. pure (tally id t)) first.0 first.1
        (resolve_one_id-IsAnswer sr (meta_id r.metadata) index s used)
        (λ id s' used' answer.
          let rest = resolve_from c sr (index + 1) rs (s', used') in
          bind-Ensures (λ t used''. AreAnswers (bag_stated rs) t.ids)
            (λ t used''. AreAnswers (bag_stated (r ∷ rs)) t.ids) (λ t. pure (tally id t)) rest.0
            rest.1 (resolve_from-AreAnswers sr (index + 1) rs s' used')
            (λ t s'' used'' answers. tally-AreAnswers r rs id t answer answers))

  bag_ids-AreAnswers :
      (sr : SecRule) (rs : List SecLangSecRule) (s : S) (used : IdSet)
      → Ensures
          (λ a used'. AreAnswers (bag_stated rs) a.assigned × (a.primary ≡ head_id a.assigned))
          (bag_ids c sr rs (s, used))
  unfolding resolve_from
  bag_ids-AreAnswers sr [] s used = (tt, refl)
  bag_ids-AreAnswers sr (r ∷ rs) s used =
      let loop = resolve_from c sr 0 (r ∷ rs) (s, used) in
      bind-Ensures (λ t used'. AreAnswers (bag_stated (r ∷ rs)) t.ids)
        (λ a used'. AreAnswers (bag_stated (r ∷ rs)) a.assigned × (a.primary ≡ head_id a.assigned))
        (λ t. pure (of_tally t)) loop.0 loop.1 (resolve_from-AreAnswers sr 0 (r ∷ rs) s used)
        (λ t s' used' answers. (answers, refl))

  one_id-AreAnswers :
      (sr : SecRule) (s : S) (used : IdSet)
      → Ensures
          (λ a used'.
            AreAnswers (meta_id sr.spec.metadata ∷ []) a.assigned
            × (a.primary ≡ head_id a.assigned))
          (one_id c sr (s, used))
  one_id-AreAnswers sr s used =
      let meta = meta_id sr.spec.metadata in
      let first = resolve_one_id c sr meta 0 (s, used) in
      bind-Ensures (λ r used'. IsAnswer meta r.0)
        (λ a used'. AreAnswers (meta ∷ []) a.assigned × (a.primary ≡ head_id a.assigned))
        (λ r. pure (record { assigned = r.0 ∷ []; primary = r.0; source = r.1 })) first.0 first.1
        (resolve_one_id-IsAnswer sr meta 0 s used) (λ r s' used' answer. ((answer, tt), refl))

  by_form :
      (b : Bool) (sr : SecRule) (s : S) (used : IdSet)
      → Ensures
          (λ a used'.
            AreAnswers
              (if b then meta_id sr.spec.metadata ∷ [] else bag_stated sr.spec.sec_rules)
              a.assigned
            × (a.primary ≡ head_id a.assigned))
          (if b then one_id c sr (s, used) else bag_ids c sr sr.spec.sec_rules (s, used))
  by_form true sr s used = one_id-AreAnswers sr s used
  by_form false sr s used = bag_ids-AreAnswers sr sr.spec.sec_rules s used

  -- Whatever the server does, if `allocateIDs` does not fail it gives each rule of the SecRule an id
  -- that is above 0 and is the one that the rule's metadata states, if it states one; and the first
  -- of them is the primary id.
  pub allocate_ids-AreAnswers :
      (sr : SecRule) (s : S) (used : IdSet)
      → Ensures
          (λ a used'. AreAnswers (stated_ids sr.spec) a.assigned × (a.primary ≡ head_id a.assigned))
          (allocate_ids c sr (s, used))
  unfolding allocate_ids
  allocate_ids-AreAnswers sr s used =
      by_form (is_single_rule_form sr.spec) sr s (free_self_claims sr used)
