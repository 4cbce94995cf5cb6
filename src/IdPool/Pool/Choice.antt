-- ===== src/IdPool/Pool/Choice.antt =====
-- internal/controller/seclang/id_pool.go: the choice of `allocateOne` from one pool object.
use kubewaf.Prelude.{
  ℕ, ◌+◌, ◌-◌, ◌≤◌, ◌<◌, ◌≡◌, ◌≢◌, refl, sym, ap, subst, Bool, true, false, Option, none, some,
  arith, ltb, Option-cases, or_else-some, or_else-none, inl, inr, ◌⊎◌, if◌then◌else◌,
}
use kubewaf.Prelude.Result.{Result, ok, err}
use kubewaf.IdPool.Pool.{
  IdSet, find_free, SecRuleIdPool, effective_min, effective_max, start_id, search_pool,
  allocate_from, grant, advance, max_below_min,
}
use kubewaf.IdPool.Pool.Search.{
  find_free-IsFirstFree, find_free-none, find_free_first, find_free_empty,
}

-- The cursor stands in the pool's range. `advance` leaves it there; only an edit of the spec that
-- lowers maxId can move the range from under it.
pub record IsCursorValid (p : SecRuleIdPool) : Type 0 where
  pub ordered : effective_min p ≤ effective_max p
  pub within : start_id p ≤ effective_max p

pub record IsGranted (p : SecRuleIdPool) (used : IdSet) (id : ℕ) : Type 0 where
  pub lower : effective_min p ≤ id
  pub upper : id ≤ effective_max p
  pub free : used id ≡ false

min-le-start : (p : SecRuleIdPool) → effective_min p ≤ start_id p
unfolding start_id
min-le-start p = ground arith

search_pool-IsGranted :
    (p : SecRuleIdPool) (used : IdSet) (id : ℕ)
    → IsCursorValid p
    → search_pool p used ≡ some id
    → IsGranted p used id
unfolding search_pool
search_pool-IsGranted p used id v e = elim (or_else-some _ _ id e) [
  | inl from_cursor ↦
      let f = find_free-IsFirstFree (start_id p) (effective_max p) id used from_cursor in
      record { lower = omega (arith, f.lower, min-le-start p); upper = f.upper; free = f.free }
  | inr from_start ↦
      let f = find_free-IsFirstFree (effective_min p) (start_id p - 1) id used from_start in
      record { lower = f.lower; upper = omega (arith, f.upper, v.within); free = f.free }
]

before_or_behind : (j k : ℕ) → (k ≤ j) ⊎ (j ≤ k - 1)
before_or_behind j k = omega arith

-- The search misses no free id of the range, wherever the cursor stands.
search_pool_complete :
    (p : SecRuleIdPool) (used : IdSet) (j : ℕ)
    → effective_min p ≤ j
    → j ≤ effective_max p
    → used j ≡ false
    → search_pool p used ≢ none
unfolding search_pool
search_pool_complete p used j lower upper free e =
    let (behind, before) =
      or_else-none (find_free (start_id p) (effective_max p) used)
        (find_free (effective_min p) (start_id p - 1) used) e in
    elim (before_or_behind j (start_id p)) [
      | inl h ↦ cc (find_free-none (start_id p) (effective_max p) j used behind h upper)
      | inr h ↦ cc (find_free-none (effective_min p) (start_id p - 1) j used before lower h)
    ]

grant-eq-ok :
    (p q : SecRuleIdPool) (o : Option ℕ) (id : ℕ)
    → grant p o ≡ ok (id, q)
    → (o ≡ some id) × (q ≡ advance p id)
unfolding grant
grant-eq-ok p q none id e = cc
grant-eq-ok p q (some i) id e = ground arith

if-eq-ok {ℓ} :
    {E A : Type ℓ} (b : Bool) (r : E) (y : Result E A) (a : A)
    → (if b then err r else y) ≡ ok a
    → (b ≡ false) × (y ≡ ok a)
if-eq-ok true r y a e = absurd cc
if-eq-ok false r y a e = (refl, e)

if-false {ℓ} :
    {A : Type ℓ} (b : Bool) (x y : A) (z : A) → b ≡ false → y ≡ z → (if b then x else y) ≡ z
if-false true x y z h e = cc
if-false false x y z h e = e

not_ltb : (a b : ℕ) → ltb a b ≡ false → b ≤ a
not_ltb a b h = ground arith

ltb-false : (a b : ℕ) → b ≤ a → ltb a b ≡ false
ltb-false a b h = ground arith

advance-IsCursorValid :
    (p : SecRuleIdPool) (id : ℕ) → effective_min p ≤ effective_max p → IsCursorValid (advance p id)
unfolding start_id advance
advance-IsCursorValid p id h = record { ordered = h; within = ground arith }

search_pool-free :
    (p : SecRuleIdPool) (used : IdSet) (id : ℕ)
    → search_pool p used ≡ some id
    → (effective_min p ≤ id) × (used id ≡ false)
unfolding search_pool
search_pool-free p used id e =
    elim (or_else-some (find_free (start_id p) (effective_max p) used)
      (find_free (effective_min p) (start_id p - 1) used) id e) [
        | inl from_cursor ↦
            let f = find_free-IsFirstFree (start_id p) (effective_max p) id used from_cursor in
            (omega (arith, f.lower, min-le-start p), f.free)
        | inr from_start ↦
            let f = find_free-IsFirstFree (effective_min p) (start_id p - 1) id used from_start in
            (f.lower, f.free)
      ]

-- An id that is granted, from whatever pool, is free and not below the range.
pub allocate_from-free :
    (p q : SecRuleIdPool) (used : IdSet) (id : ℕ)
    → allocate_from p used ≡ ok (id, q)
    → (effective_min p ≤ id) × (used id ≡ false)
unfolding allocate_from
allocate_from-free p q used id e =
    let (_, granted) =
      if-eq-ok (ltb (effective_max p) (effective_min p)) max_below_min
        (grant p (search_pool p used)) (id, q) e in
    search_pool-free p used id (grant-eq-ok p q (search_pool p used) id granted).0

-- A cursor at the start of the range is in the range.
pub at_min-IsCursorValid :
    (p : SecRuleIdPool)
    → effective_min p ≤ effective_max p
    → IsCursorValid (record p { next_id = effective_min p })
unfolding start_id effective_max
at_min-IsCursorValid p h = record { ordered = h; within = ground arith }

pub effective_min-pos : (p : SecRuleIdPool) → 0 < effective_min p
unfolding effective_min
effective_min-pos p = ground arith

-- An id that is granted from a pool whose cursor stands in its range is free and in the range, and
-- the pool that is written has its cursor in the range and the id as its last one.
pub allocate_from-IsGranted :
    (p q : SecRuleIdPool) (used : IdSet) (id : ℕ)
    → IsCursorValid p
    → allocate_from p used ≡ ok (id, q)
    → IsGranted p used id × (q ≡ advance p id) × IsCursorValid q
unfolding allocate_from
allocate_from-IsGranted p q used id v e =
    let (_, granted) =
      if-eq-ok (ltb (effective_max p) (effective_min p)) max_below_min
        (grant p (search_pool p used)) (id, q) e in
    let (found, written) = grant-eq-ok p q (search_pool p used) id granted in
    (
      search_pool-IsGranted p used id v found,
      written,
      subst IsCursorValid (sym written) (advance-IsCursorValid p id v.ordered),
    )

-- If an id of the range is free then one is granted, wherever the cursor stands.
pub allocate_from_complete :
    (p : SecRuleIdPool) (used : IdSet) (j : ℕ)
    → effective_min p ≤ j
    → j ≤ effective_max p
    → used j ≡ false
    → (id : ℕ) × (allocate_from p used ≡ ok (id, advance p id))
unfolding allocate_from
allocate_from_complete p used j lower upper free = elim (Option-cases (search_pool p used)) [
  | inl nothing ↦ absurd (search_pool_complete p used j lower upper free nothing)
  | inr (id, found) ↦ (
    id,
    if-false (ltb (effective_max p) (effective_min p)) (err max_below_min)
        (grant p (search_pool p used)) (ok (id, advance p id))
        (ltb-false (effective_max p) (effective_min p) (omega arith)) (ap (grant p) found),
  )
]

start-next_id : (p : SecRuleIdPool) → effective_min p ≤ p.next_id → start_id p ≡ p.next_id
unfolding start_id
start-next_id p h = ground arith

search_pool-wraps :
    (p : SecRuleIdPool) (used : IdSet) (id : ℕ)
    → find_free (start_id p) (effective_max p) used ≡ none
    → find_free (effective_min p) (start_id p - 1) used ≡ some id
    → search_pool p used ≡ some id
unfolding search_pool
search_pool-wraps p used id nothing found = rw (nothing, found) refl

-- Where the range is not empty and full, the cursor is two or more above maxId, as after an edit that
-- lowers maxId, and the first id above maxId is free, that id is granted.
pub allocate_from_above_max :
    (p : SecRuleIdPool) (used : IdSet)
    → effective_min p ≤ effective_max p
    → effective_max p + 1 < p.next_id
    → ((j : ℕ) → effective_min p ≤ j → j ≤ effective_max p → used j ≡ true)
    → used (effective_max p + 1) ≡ false
    → allocate_from p used ≡ ok (effective_max p + 1, advance p (effective_max p + 1))
unfolding allocate_from
allocate_from_above_max p used ordered beyond full free =
    let start = start-next_id p (omega arith) in
    let nothing =
      find_free_empty (start_id p) (effective_max p) used (omega (arith, start, beyond)) in
    let found =
      find_free_first (effective_min p) (start_id p - 1) (effective_max p + 1) used
        (omega (arith, ordered)) (omega (arith, start, beyond)) free
        (λ j lower upper. full j lower (omega arith)) in
    if-false (ltb (effective_max p) (effective_min p)) (err max_below_min)
      (grant p (search_pool p used)) (ok (effective_max p + 1, advance p (effective_max p + 1)))
      (ltb-false (effective_max p) (effective_min p) ordered)
      (ap (grant p) (search_pool-wraps p used (effective_max p + 1) nothing found))
