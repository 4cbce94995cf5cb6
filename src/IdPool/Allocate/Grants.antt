-- ===== src/IdPool/Allocate/Grants.antt =====
-- internal/controller/seclang/id_pool.go: what `allocateOne` returns, for every server.
use kubewaf.Prelude.{ℕ, zero, suc, ◌<◌, ◌≤◌, ◌≡◌, refl, sym, subst, false, arith}
use kubewaf.Prelude.Result.{Result, ok, err}
use kubewaf.Prelude.State.{Effect}
use kubewaf.IdPool.Pool.{
  IdSet, SecRuleIdPool, AllocError, allocate_from, effective_min, effective_max, start_id, advance,
  default_id_pool_min, default_id_pool_max,
}
use kubewaf.IdPool.Pool.Choice.{
  IsCursorValid, allocate_from-IsGranted, allocate_from-free, at_min-IsCursorValid,
  effective_min-pos,
}
use kubewaf.IdPool.Allocate.{
  ApiError, not_found, already_exists, conflict, other, Client, new_pool, at_min, initialized,
  created, found, ensure_cluster_id_pool, written, chosen, ensured, allocate_attempts, allocate_one,
}

module _ {S : Type 0} (Inv : S → Type 0) (V : SecRuleIdPool → Type 0) where
  -- A call of the server leaves `Inv`, and a pool that it returns satisfies `V`.
  abbrev pub IsGood : Result ApiError SecRuleIdPool × S → Type 0
  IsGood (ok p, s) = V p × Inv s
  IsGood (err e, s) = Inv s

  -- The server: what it answers while `Inv` holds and the pools that are written satisfy `V`.
  pub record IsServer (c : Client S) : Type 0 where
    pub get_good : (s : S) → Inv s → IsGood (c.get s)
    pub create_good : (p : SecRuleIdPool) (s : S) → V p → Inv s → IsGood (c.create p s)
    pub update_good : (p : SecRuleIdPool) (s : S) → V p → Inv s → IsGood (c.update_status p s)

  module _ (R : ℕ → Type 0) where
    -- An allocation leaves `Inv`, and an id that it returns satisfies `R`.
    abbrev pub IsOutcome : Result AllocError ℕ × S → Type 0
    IsOutcome (ok id, s) = R id × Inv s
    IsOutcome (err e, s) = Inv s

    module _ (c : Client S) (server : IsServer c)
        (valid_at_min : (p : SecRuleIdPool) → V p → V (at_min p)) (valid_new : V new_pool)
        (used : IdSet)
        (grants : (p q : SecRuleIdPool) (id : ℕ)
          → V p
          → allocate_from p used ≡ ok (id, q)
          → R id × V q) where
      initialized-IsGood :
          (p : SecRuleIdPool) (r : Result ApiError SecRuleIdPool) (s : S)
          → V p
          → IsGood (r, s)
          → IsGood (initialized c p r s)
      unfolding initialized
      initialized-IsGood p (ok q) s v g = g
      initialized-IsGood p (err e) s v g = (valid_at_min p v, g)

      created-IsGood :
          (r : Result ApiError SecRuleIdPool) (s : S) → IsGood (r, s) → IsGood (created c r s)
      unfolding created
      created-IsGood (ok p) s (v, i) =
          initialized-IsGood p (c.update_status (at_min p) s).0 (c.update_status (at_min p) s).1 v
            (server.update_good (at_min p) s (valid_at_min p v) i)
      created-IsGood (err already_exists) s i = server.get_good s i
      created-IsGood (err not_found) s i = i
      created-IsGood (err conflict) s i = i
      created-IsGood (err other) s i = i

      found-IsGood :
          (r : Result ApiError SecRuleIdPool) (s : S) → IsGood (r, s) → IsGood (found c r s)
      unfolding found
      found-IsGood (ok p) s g = g
      found-IsGood (err not_found) s i =
          created-IsGood (c.create new_pool s).0 (c.create new_pool s).1
            (server.create_good new_pool s valid_new i)
      found-IsGood (err already_exists) s i = i
      found-IsGood (err conflict) s i = i
      found-IsGood (err other) s i = i

      written-IsOutcome :
          (retry : Effect S AllocError ℕ) (id : ℕ) (r : Result ApiError SecRuleIdPool) (s : S)
          → ((s : S) → Inv s → IsOutcome (retry s))
          → R id
          → IsGood (r, s)
          → IsOutcome (written c retry id r s)
      unfolding written
      written-IsOutcome retry id (ok q) s h g (v, i) = (g, i)
      written-IsOutcome retry id (err conflict) s h g i = h s i
      written-IsOutcome retry id (err not_found) s h g i = i
      written-IsOutcome retry id (err already_exists) s h g i = i
      written-IsOutcome retry id (err other) s h g i = i

      chosen-IsOutcome :
          (retry : Effect S AllocError ℕ) (p : SecRuleIdPool) (s : S)
          (r : Result AllocError (ℕ × SecRuleIdPool))
          → ((s : S) → Inv s → IsOutcome (retry s))
          → V p
          → Inv s
          → allocate_from p used ≡ r
          → IsOutcome (chosen c retry r s)
      unfolding chosen
      chosen-IsOutcome retry p s (ok (id, q)) h v i e =
          let (g, v') = grants p q id v e in
          written-IsOutcome retry id (c.update_status q s).0 (c.update_status q s).1 h g
            (server.update_good q s v' i)
      chosen-IsOutcome retry p s (err e') h v i e = i

      ensured-IsOutcome :
          (retry : Effect S AllocError ℕ) (r : Result ApiError SecRuleIdPool) (s : S)
          → ((s : S) → Inv s → IsOutcome (retry s))
          → IsGood (r, s)
          → IsOutcome (ensured c retry used r s)
      unfolding ensured
      ensured-IsOutcome retry (ok p) s h (v, i) =
          chosen-IsOutcome retry p s (allocate_from p used) h v i refl
      ensured-IsOutcome retry (err e) s h i = i

      ensure-IsGood : (s : S) → Inv s → IsGood (ensure_cluster_id_pool c s)
      unfolding ensure_cluster_id_pool
      ensure-IsGood s i = found-IsGood (c.get s).0 (c.get s).1 (server.get_good s i)

      attempts-IsOutcome : (n : ℕ) (s : S) → Inv s → IsOutcome (allocate_attempts c n used s)
      unfolding allocate_attempts
      attempts-IsOutcome zero s i = i
      attempts-IsOutcome (suc n) s i =
          ensured-IsOutcome (allocate_attempts c n used) (ensure_cluster_id_pool c s).0
            (ensure_cluster_id_pool c s).1 (attempts-IsOutcome n) (ensure-IsGood s i)

      pub allocate_one-IsOutcome : (s : S) → Inv s → IsOutcome (allocate_one c used s)
      unfolding allocate_one
      allocate_one-IsOutcome s i = attempts-IsOutcome 32 s i

new_pool-IsCursorValid : IsCursorValid new_pool
unfolding start_id effective_max
new_pool-IsCursorValid = record { ordered = omega arith; within = omega arith }

abbrev pub Anything {ℓ} : {A : Type ℓ} → A → Type 0
Anything a = Unit

-- `0 < id`, and no rule has it.
abbrev pub IsNew : IdSet → ℕ → Type 0
IsNew used id = (0 < id) × (used id ≡ false)

any_result :
    {S : Type 0} (r : Result ApiError SecRuleIdPool) (s : S)
    → IsGood {S = S} Anything Anything (r, s)
any_result (ok p) s = (tt, tt)
any_result (err e) s = tt

any-IsServer : {S : Type 0} (c : Client S) → IsServer Anything Anything c
any-IsServer c = record {
  get_good = λ s i. any_result (c.get s).0 (c.get s).1;
  create_good = λ p s v i. any_result (c.create p s).0 (c.create p s).1;
  update_good = λ p s v i. any_result (c.update_status p s).0 (c.update_status p s).1;
}

-- Whatever the server does, an id that `allocateOne` returns is above 0 and is not used.
pub allocate_one-IsNew :
    {S : Type 0} (c : Client S) (used : IdSet) (s : S)
    → IsOutcome Anything Anything (IsNew used) (allocate_one c used s)
allocate_one-IsNew c used s =
    allocate_one-IsOutcome Anything Anything (IsNew used) c (any-IsServer c) (λ p v. tt) tt used
      (λ p q id v e.
        let (lower, free) = allocate_from-free p q used id e in
        ((omega (arith, lower, effective_min-pos p), free), tt))
      s tt

-- Bounds that the pools of a server have.
module _ (Bounds : ℕ → ℕ → Type 0) where
  -- The cursor of the pool stands in its range, and its range is one of the server's.
  abbrev pub IsPool : SecRuleIdPool → Type 0
  IsPool p = IsCursorValid p × Bounds (effective_min p) (effective_max p)

  -- The id is free, and in a range of the server's.
  abbrev pub IsInRange : IdSet → ℕ → Type 0
  IsInRange used id = (lo hi : ℕ) × Bounds lo hi × (lo ≤ id) × (id ≤ hi) × (used id ≡ false)

  at_min-IsPool : (p : SecRuleIdPool) → IsPool p → IsPool (at_min p)
  unfolding effective_min effective_max
  at_min-IsPool p (v, b) = (at_min-IsCursorValid p v.ordered, b)

  advance_keeps_range :
      (p : SecRuleIdPool) (id : ℕ)
      → Bounds (effective_min p) (effective_max p)
      → Bounds (effective_min (advance p id)) (effective_max (advance p id))
  unfolding effective_min effective_max advance
  advance_keeps_range p id b = b

  -- On a server whose pools have their cursors in their ranges, where the pool that is created by
  -- default is one of its: whatever it fails and however often it reports a conflict, an id that
  -- `allocateOne` returns is free and in the range of one of its pools, and what the server has is
  -- kept.
  pub allocate_one-IsInRange :
      {S : Type 0} (c : Client S) (Inv : S → Type 0) (used : IdSet) (s : S)
      → Bounds default_id_pool_min default_id_pool_max
      → IsServer Inv IsPool c
      → Inv s
      → IsOutcome Inv IsPool (IsInRange used) (allocate_one c used s)
  unfolding effective_min effective_max
  allocate_one-IsInRange c Inv used s default server i =
      allocate_one-IsOutcome Inv IsPool (IsInRange used) c server at_min-IsPool
        (new_pool-IsCursorValid, default) used
        (λ p q id (v, b) e.
          let (g, w, v') = allocate_from-IsGranted p q used id v e in
          (
            (effective_min p, effective_max p, b, g.lower, g.upper, g.free),
            (
              v',
              subst (λ x. Bounds (effective_min x) (effective_max x)) (sym w)
                  (advance_keeps_range p id b),
            ),
          ))
        s i
