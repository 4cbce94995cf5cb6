-- ===== src/IdPool/Assign/Fresh.antt =====
-- internal/controller/seclang/id_pool.go: the ids of a SecRule that has none yet are new.
use kubewaf.Prelude.{
  ℕ, zero, suc, ◌+◌, ◌<◌, ◌≡◌, refl, subst, ap, Bool, true, false, none, List, [], ◌∷◌, arith, ltb,
  if◌then◌else◌, ltb→lt,
}
use kubewaf.Prelude.State.{pure, ◌>>=◌}
use kubewaf.Api.SecRule.{SecRule, SecLangSecRule, meta_id}
use kubewaf.Api.Atoi.{atoi}
use kubewaf.IdPool.Pool.{IdSet, insert}
use kubewaf.IdPool.Allocate.{Client, sticky, annotated, positive, free_self_claims}
use kubewaf.IdPool.Allocate.Grants.{IsNew}
use kubewaf.IdPool.Apply.{bag_stated}
use kubewaf.IdPool.Assign.{
  IdSource, spec, auto, mixed, unset, Tally, tally, take_id, from_pool, kept_or_new, resolve_one_id,
  resolve_from,
}
use kubewaf.IdPool.Assign.Answers.{Ensures, bind-Ensures, weaken-Ensures, from_pool-IsNew}

-- The SecRule has no ids yet.
pub record IsUnassigned (sr : SecRule) : Type 0 where
  pub no_ids : sr.status.assigned_ids ≡ []
  pub no_primary : sr.status.rule_id ≡ 0
  pub no_annotation : sr.assigned_id_annotation ≡ ""

pub free_self_claims-unassigned :
    (sr : SecRule) (used : IdSet) → IsUnassigned sr → free_self_claims sr used ≡ used
unfolding free_self_claims
free_self_claims-unassigned sr used h = rw (h.no_ids, h.no_primary, h.no_annotation) refl

sticky-unassigned : (sr : SecRule) (i : ℕ) → IsUnassigned sr → sticky sr i ≡ none
unfolding sticky annotated positive atoi
sticky-unassigned sr zero h = rw (h.no_ids, h.no_annotation) refl
sticky-unassigned sr (suc i) h = rw (h.no_ids) refl

-- An id for `meta`: the stated one, or one that is new to `used`.
abbrev pub IsChoice : ℕ → IdSet → ℕ → Type 0
IsChoice meta used id = (0 < meta → id ≡ meta) × (meta ≡ 0 → IsNew used id)

-- Each id is a choice, with the ones before it used.
abbrev pub AreChoices : List ℕ → IdSet → List ℕ → Type 0
AreChoices [] used [] = Unit
AreChoices (meta ∷ metas) used (id ∷ ids) =
    IsChoice meta used id × AreChoices metas (insert id used) ids
AreChoices [] used (id ∷ ids) = ⊥
AreChoices (meta ∷ metas) used [] = ⊥

module _ {S : Type 0} (c : Client S) where
  IsNew-id :
      (s : S) (used : IdSet)
      → Ensures
          (λ r used'. (used' ≡ insert r.0 used) × IsNew used r.0)
          (kept_or_new c none (s, used))
  unfolding kept_or_new
  IsNew-id s used =
      bind-Ensures (λ id used'. (used' ≡ used) × IsNew used id)
        (λ r used'. (used' ≡ insert r.0 used) × IsNew used r.0) (take_id c auto)
        (from_pool c (s, used)).0 (from_pool c (s, used)).1 (from_pool-IsNew c s used)
        (λ id s' used' h. (ap (insert id) h.0, h.1))

  IsChoice-by_test :
      (b : Bool) (meta : ℕ) (s : S) (used : IdSet)
      → ltb 0 meta ≡ b
      → Ensures
          (λ r used'. (used' ≡ insert r.0 used) × IsChoice meta used r.0)
          ((if b then take_id c spec meta else kept_or_new c none) (s, used))
  IsChoice-by_test true meta s used e =
      (refl, ((λ _. refl), λ e'. absurd (ground (arith, ltb→lt 0 meta e))))
  IsChoice-by_test false meta s used e =
      weaken-Ensures (λ r used'. (used' ≡ insert r.0 used) × IsNew used r.0)
        (λ r used'. (used' ≡ insert r.0 used) × IsChoice meta used r.0)
        (kept_or_new c none (s, used))
        (λ r used' h. (h.0, ((λ lt. absurd (ground arith)), λ _. h.1))) (IsNew-id s used)

  pub resolve-IsChoice :
      (sr : SecRule) (meta index : ℕ) (s : S) (used : IdSet)
      → IsUnassigned sr
      → Ensures
          (λ r used'. (used' ≡ insert r.0 used) × IsChoice meta used r.0)
          (resolve_one_id c sr meta index (s, used))
  unfolding resolve_one_id
  resolve-IsChoice sr meta index s used h =
      rw (sticky-unassigned sr index h) (IsChoice-by_test (ltb 0 meta) meta s used refl)

  tally-AreChoices :
      (meta : ℕ) (metas : List ℕ) (used used' : IdSet) (x : ℕ × IdSource) (t : Tally)
      → (used' ≡ insert x.0 used) × IsChoice meta used x.0
      → AreChoices metas used' t.ids
      → AreChoices (meta ∷ metas) used (tally x t).ids
  tally-AreChoices meta metas used used' (id, spec) t (e, h) hs =
      (h, subst (λ u. AreChoices metas u t.ids) e hs)
  tally-AreChoices meta metas used used' (id, auto) t (e, h) hs =
      (h, subst (λ u. AreChoices metas u t.ids) e hs)
  tally-AreChoices meta metas used used' (id, mixed) t (e, h) hs =
      (h, subst (λ u. AreChoices metas u t.ids) e hs)
  tally-AreChoices meta metas used used' (id, unset) t (e, h) hs =
      (h, subst (λ u. AreChoices metas u t.ids) e hs)

  pub resolve_from-AreChoices :
      (sr : SecRule) (index : ℕ) (rs : List SecLangSecRule) (s : S) (used : IdSet)
      → IsUnassigned sr
      → Ensures
          (λ t used'. AreChoices (bag_stated rs) used t.ids)
          (resolve_from c sr index rs (s, used))
  unfolding resolve_from
  resolve_from-AreChoices sr index [] s used h = tt
  resolve_from-AreChoices sr index (r ∷ rs) s used h =
      let meta = meta_id r.metadata in
      let first = resolve_one_id c sr meta index (s, used) in
      bind-Ensures (λ x used'. (used' ≡ insert x.0 used) × IsChoice meta used x.0)
        (λ t used'. AreChoices (meta ∷ bag_stated rs) used t.ids)
        (λ id. resolve_from c sr (index + 1) rs >>= λ t. pure (tally id t)) first.0 first.1
        (resolve-IsChoice sr meta index s used h)
        (λ x s' used' choice.
          let rest = resolve_from c sr (index + 1) rs (s', used') in
          bind-Ensures (λ t used''. AreChoices (bag_stated rs) used' t.ids)
            (λ t used''. AreChoices (meta ∷ bag_stated rs) used t.ids) (λ t. pure (tally x t))
            rest.0 rest.1 (resolve_from-AreChoices sr (index + 1) rs s' used' h)
            (λ t s'' used'' choices.
              tally-AreChoices meta (bag_stated rs) used used' x t choice choices))
