-- ===== src/IdPool/Pool/Search.antt =====
-- internal/controller/seclang/id_pool.go: the search finds the first free id, and misses none.
use kubewaf.Prelude.{
  ℕ, zero, suc, ◌+◌, ◌-◌, ◌≤◌, ◌<◌, ◌≡◌, ap, ◌∙◌, trichotomy, true, false, none, some, arith, ltb,
  Bool-cases, Option-cases, inl, inr, ◌⊎◌,
}
use kubewaf.IdPool.Pool.{IdSet, find_from, find_free}

-- `id` is the first free one from `from` on, and not above `to`.
pub record IsFirstFree (from to : ℕ) (used : IdSet) (id : ℕ) : Type 0 where
  pub lower : from ≤ id
  pub upper : id ≤ to
  pub free : used id ≡ false
  pub first : (j : ℕ) → from ≤ j → j < id → used j ≡ true

find_from_bounds :
    (n from id : ℕ) (used : IdSet)
    → find_from n from used ≡ some id
    → (from ≤ id) × (id < from + n) × (used id ≡ false)
unfolding find_from
find_from_bounds zero from id used e = cc
find_from_bounds (suc n) from id used e = ground (arith, find_from_bounds n (from + 1) id used)

at_or_above : (from j : ℕ) → from ≤ j → (j ≡ from) ⊎ (from + 1 ≤ j)
at_or_above from j le = omega arith

find_from_first :
    (n from id j : ℕ) (used : IdSet)
    → find_from n from used ≡ some id
    → from ≤ j
    → j < id
    → used j ≡ true
unfolding find_from
find_from_first zero from id j used e le lt = cc
find_from_first (suc n) from id j used e le lt = elim (at_or_above from j le) [
  | inl here ↦ rw here (ground arith)
  | inr above ↦ ground (arith, find_from_first n (from + 1) id j used)
]

find_from-none :
    (n from j : ℕ) (used : IdSet)
    → find_from n from used ≡ none
    → from ≤ j
    → j < from + n
    → used j ≡ true
unfolding find_from
find_from-none zero from j used e le lt = absurd (omega arith)
find_from-none (suc n) from j used e le lt = elim (at_or_above from j le) [
  | inl here ↦ rw here (ground arith)
  | inr above ↦ ground (arith, find_from-none n (from + 1) j used)
]

-- `findFree` returns the first free id of its range.
pub find_free-IsFirstFree :
    (from to id : ℕ) (used : IdSet) → find_free from to used ≡ some id → IsFirstFree from to used id
unfolding find_free
find_free-IsFirstFree from to id used e = elim (Bool-cases (ltb to from)) [
  | inl empty ↦ absurd (ground arith)
  | inr room ↦
      let e' : find_from (to + 1 - from) from used ≡ some id = rw room at e in
      let (lower, upper, free) = find_from_bounds (to + 1 - from) from id used e' in
      record {
        lower = lower;
        upper = ground arith;
        free = free;
        first = λ j le lt. find_from_first (to + 1 - from) from id j used e' le lt;
      }
]

-- Where `findFree` finds nothing every id of its range is taken.
pub find_free-none :
    (from to j : ℕ) (used : IdSet)
    → find_free from to used ≡ none
    → from ≤ j
    → j ≤ to
    → used j ≡ true
unfolding find_free
find_free-none from to j used e le le' = ground (arith, find_from-none (to + 1 - from) from j used)

same_first :
    (i id : ℕ) (used : IdSet)
    → used i ≡ false
    → used id ≡ false
    → (i < id → used i ≡ true)
    → (id < i → used id ≡ true)
    → i ≡ id
same_first i id used free free' below above = elim (trichotomy i id) [
  | inl lt ↦ cc (below lt)
  | inr (inl eq) ↦ eq
  | inr (inr gt) ↦ cc (above gt)
]

-- `findFree` finds an id that is free when all before it are taken.
pub find_free_first :
    (from to id : ℕ) (used : IdSet)
    → from ≤ id
    → id ≤ to
    → used id ≡ false
    → ((j : ℕ) → from ≤ j → j < id → used j ≡ true)
    → find_free from to used ≡ some id
find_free_first from to id used lower upper free before =
    elim (Option-cases (find_free from to used)) [
      | inl e ↦ cc (find_free-none from to id used e lower upper)
      | inr (i, e) ↦
          let f = find_free-IsFirstFree from to i used e in
          e ∙ ap some (same_first i id used f.free free (before i f.lower) (f.first id lower))
    ]

-- An empty range has no free id.
pub find_free_empty : (from to : ℕ) (used : IdSet) → to < from → find_free from to used ≡ none
unfolding find_free
find_free_empty from to used lt = ground arith
