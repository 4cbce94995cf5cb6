-- ===== src/IdPool/Assign/Sources.antt =====
-- internal/controller/seclang/id_pool.go: where the ids of a SecRule are said to come from.
use kubewaf.Prelude.{
  ℕ, ◌+◌, ◌≡◌, ◌∙◌, refl, Bool, true, false, Option, none, some, List, [], ◌∷◌, ltb, if◌then◌else◌,
  lt→ltb, not, ◌||◌, arith,
}
use kubewaf.Prelude.State.{pure, ◌>>=◌}
use kubewaf.Api.SecRule.{SecRule, SecLangSecRule, meta_id, is_single_rule_form}
use kubewaf.IdPool.Pool.{IdSet}
use kubewaf.IdPool.Allocate.{Client, sticky, free_self_claims}
use kubewaf.IdPool.Apply.{bag_stated, stated_ids}
use kubewaf.IdPool.Assign.{
  IdSource, spec, auto, mixed, unset, Tally, tally, of_tally, source_of, take_id, from_pool,
  kept_or_new, resolve_one_id, resolve_from, one_id, bag_ids, allocate_ids,
}
use kubewaf.IdPool.Assign.Answers.{Ensures, bind-Ensures, from_pool-IsNew}
use kubewaf.IdPool.Allocate.Grants.{IsNew}

-- How many rules state an id, and how many do not.
abbrev pub count_stated : List ℕ → ℕ
count_stated [] = 0
count_stated (meta ∷ metas) = let n = count_stated metas in if ltb 0 meta then n + 1 else n

abbrev pub count_unstated : List ℕ → ℕ
count_unstated [] = 0
count_unstated (meta ∷ metas) = let n = count_unstated metas in if ltb 0 meta then n else n + 1

-- Some rule states an id, or some rule states none.
abbrev pub any_stated : List ℕ → Bool
any_stated [] = false
any_stated (meta ∷ metas) = ltb 0 meta || any_stated metas

abbrev pub any_unstated : List ℕ → Bool
any_unstated [] = false
any_unstated (meta ∷ metas) = not (ltb 0 meta) || any_unstated metas

abbrev pub source_by_kinds : Bool → Bool → IdSource
source_by_kinds true true = mixed
source_by_kinds true false = spec
source_by_kinds false true = auto
source_by_kinds false false = unset

-- Spec if every rule states an id, Auto if none does, Mixed if only some do; no source for no rule.
abbrev pub source_by : List ℕ → IdSource
source_by metas = source_by_kinds (any_stated metas) (any_unstated metas)

stated_counted : (metas : List ℕ) → ltb 0 (count_stated metas) ≡ any_stated metas
stated_counted [] = refl
stated_counted (meta ∷ metas) = by_test (ltb 0 meta) (count_stated metas) (stated_counted metas)
  where
    by_test :
        (b : Bool) (n : ℕ) {c : Bool} → ltb 0 n ≡ c → ltb 0 (if b then n + 1 else n) ≡ (b || c)
    by_test true n e = lt→ltb 0 (n + 1) (omega arith)
    by_test false n e = e

unstated_counted : (metas : List ℕ) → ltb 0 (count_unstated metas) ≡ any_unstated metas
unstated_counted [] = refl
unstated_counted (meta ∷ metas) =
    by_test (ltb 0 meta) (count_unstated metas) (unstated_counted metas)
  where
    by_test :
        (b : Bool) (n : ℕ) {c : Bool} → ltb 0 n ≡ c → ltb 0 (if b then n else n + 1) ≡ (not b || c)
    by_test false n e = lt→ltb 0 (n + 1) (omega arith)
    by_test true n e = e

-- The counters give the source, where there is a rule.
counted_source :
    (meta : ℕ) (metas : List ℕ)
    → source_of (count_unstated (meta ∷ metas)) (count_stated (meta ∷ metas))
      ≡ source_by (meta ∷ metas)
counted_source meta metas =
    by_kinds (any_unstated (meta ∷ metas)) (any_stated (meta ∷ metas))
      (count_unstated (meta ∷ metas)) (count_stated (meta ∷ metas))
      (unstated_counted (meta ∷ metas)) (stated_counted (meta ∷ metas)) (some_rule (ltb 0 meta))
  where
    some_rule : (b : Bool) → ((b || any_stated metas) || (not b || any_unstated metas)) ≡ true
    some_rule true = refl
    some_rule false = or_right (any_stated metas)
      where
        or_right : (b : Bool) → (b || true) ≡ true
        or_right true = refl
        or_right false = refl

    by_kinds :
        (u s : Bool) (m n : ℕ)
        → ltb 0 m ≡ u
        → ltb 0 n ≡ s
        → (s || u) ≡ true
        → source_of m n ≡ source_by_kinds s u
    by_kinds true true m n e f h = rw (e, f) refl
    by_kinds true false m n e f h = rw (e, f) refl
    by_kinds false true m n e f h = rw e refl
    by_kinds false false m n e f h = cc

source_of_one : Bool → IdSource
source_of_one b = if b then spec else auto

-- The counters are those of the rules that were resolved.
abbrev Counts : List ℕ → Tally → Type 0
Counts metas t = (t.auto_count ≡ count_unstated metas) × (t.spec_count ≡ count_stated metas)

tally-Counts :
    (b : Bool) (meta : ℕ) (metas : List ℕ) (id : ℕ) (t : Tally)
    → ltb 0 meta ≡ b
    → Counts metas t
    → Counts (meta ∷ metas) (tally (id, source_of_one b) t)
unfolding source_of_one
tally-Counts true meta metas id t e (h, h') = (rw (e, h) refl, rw (e, h') refl)
tally-Counts false meta metas id t e (h, h') = (rw (e, h) refl, rw (e, h') refl)

one_source : (b : Bool) (meta : ℕ) → ltb 0 meta ≡ b → source_of_one b ≡ source_by (meta ∷ [])
unfolding source_of_one
one_source true meta e = rw e refl
one_source false meta e = rw e refl

module _ {S : Type 0} (c : Client S) where
  kept_or_new-auto :
      (o : Option ℕ) (s : S) (used : IdSet)
      → Ensures (λ r used'. r.1 ≡ auto) (kept_or_new c o (s, used))
  unfolding kept_or_new
  kept_or_new-auto (some id) s used = refl
  kept_or_new-auto none s used =
      bind-Ensures (λ id used'. (used' ≡ used) × IsNew used id) (λ r used'. r.1 ≡ auto)
        (take_id c auto) (from_pool c (s, used)).0 (from_pool c (s, used)).1
        (from_pool-IsNew c s used) (λ id s' used' h. refl)

  source_by_test :
      (b : Bool) (meta : ℕ) (o : Option ℕ) (s : S) (used : IdSet)
      → Ensures
          (λ r used'. r.1 ≡ source_of_one b)
          ((if b then take_id c spec meta else kept_or_new c o) (s, used))
  unfolding source_of_one
  source_by_test true meta o s used = refl
  source_by_test false meta o s used = kept_or_new-auto o s used

  resolve-source :
      (sr : SecRule) (meta index : ℕ) (s : S) (used : IdSet)
      → Ensures
          (λ r used'. r.1 ≡ source_of_one (ltb 0 meta))
          (resolve_one_id c sr meta index (s, used))
  unfolding resolve_one_id
  resolve-source sr meta index s used = source_by_test (ltb 0 meta) meta (sticky sr index) s used

  resolve_from-Counts :
      (sr : SecRule) (index : ℕ) (rs : List SecLangSecRule) (s : S) (used : IdSet)
      → Ensures (λ t used'. Counts (bag_stated rs) t) (resolve_from c sr index rs (s, used))
  unfolding resolve_from
  resolve_from-Counts sr index [] s used = (refl, refl)
  resolve_from-Counts sr index (r ∷ rs) s used =
      let meta = meta_id r.metadata in
      let first = resolve_one_id c sr meta index (s, used) in
      bind-Ensures (λ x used'. x.1 ≡ source_of_one (ltb 0 meta))
        (λ t used'. Counts (meta ∷ bag_stated rs) t)
        (λ id. resolve_from c sr (index + 1) rs >>= λ t. pure (tally id t)) first.0 first.1
        (resolve-source sr meta index s used)
        (λ x s' used' e.
          let rest = resolve_from c sr (index + 1) rs (s', used') in
          bind-Ensures (λ t used''. Counts (bag_stated rs) t)
            (λ t used''. Counts (meta ∷ bag_stated rs) t) (λ t. pure (tally x t)) rest.0 rest.1
            (resolve_from-Counts sr (index + 1) rs s' used')
            (λ t s'' used'' h. rw e (tally-Counts (ltb 0 meta) meta (bag_stated rs) x.0 t refl h)))

  bag-source :
      (sr : SecRule) (rs : List SecLangSecRule) (s : S) (used : IdSet)
      → Ensures (λ a used'. a.source ≡ source_by (bag_stated rs)) (bag_ids c sr rs (s, used))
  bag-source sr [] s used = refl
  bag-source sr (r ∷ rs) s used =
      let loop = resolve_from c sr 0 (r ∷ rs) (s, used) in
      bind-Ensures (λ t used'. Counts (bag_stated (r ∷ rs)) t)
        (λ a used'. a.source ≡ source_by (bag_stated (r ∷ rs))) (λ t. pure (of_tally t)) loop.0
        loop.1 (resolve_from-Counts sr 0 (r ∷ rs) s used)
        (λ t s' used' h. rw (h.0, h.1) (counted_source (meta_id r.metadata) (bag_stated rs)))

  one_id-source :
      (sr : SecRule) (s : S) (used : IdSet)
      → Ensures
          (λ a used'. a.source ≡ source_by (meta_id sr.spec.metadata ∷ []))
          (one_id c sr (s, used))
  one_id-source sr s used =
      let meta = meta_id sr.spec.metadata in
      let first = resolve_one_id c sr meta 0 (s, used) in
      bind-Ensures (λ r used'. r.1 ≡ source_of_one (ltb 0 meta))
        (λ a used'. a.source ≡ source_by (meta ∷ []))
        (λ r. pure (record { assigned = r.0 ∷ []; primary = r.0; source = r.1 })) first.0 first.1
        (resolve-source sr meta 0 s used) (λ r s' used' e. e ∙ one_source (ltb 0 meta) meta refl)

  by_form :
      (b : Bool) (sr : SecRule) (s : S) (used : IdSet)
      → Ensures
          (λ a used'.
            a.source
            ≡ source_by (if b then meta_id sr.spec.metadata ∷ [] else bag_stated sr.spec.sec_rules))
          (if b then one_id c sr (s, used) else bag_ids c sr sr.spec.sec_rules (s, used))
  by_form true sr s used = one_id-source sr s used
  by_form false sr s used = bag-source sr sr.spec.sec_rules s used

  -- Whatever the server does, the source that `allocateIDs` reports is Spec if every rule states its
  -- id, Auto if none does, and Mixed if only some do.
  pub allocate_ids-source :
      (sr : SecRule) (s : S) (used : IdSet)
      → Ensures (λ a used'. a.source ≡ source_by (stated_ids sr.spec)) (allocate_ids c sr (s, used))
  unfolding allocate_ids
  allocate_ids-source sr s used =
      by_form (is_single_rule_form sr.spec) sr s (free_self_claims sr used)
