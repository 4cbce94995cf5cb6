-- ===== src/IdPool/Pool.antt =====
-- api/seclang/v1beta1/secrule_id_pool_types.go and the search of id_pool.go: the pool object, the set
-- of used ids, and the choice of the next free id.
pub mod Search
pub mod Choice
use kubewaf.Prelude.{
  ℕ, zero, suc, ◌+◌, ◌-◌, ◌^◌, Bool, true, false, Option, none, some, ltb, ◌==◌, or_else,
  if◌then◌else◌,
}
use kubewaf.Prelude.Result.{Result, ok, err}

abbrev pub default_id_pool_min : ℕ
default_id_pool_min = 100000

abbrev pub default_id_pool_max : ℕ
default_id_pool_max = 999999

-- The spec and the status of the pool; a bound that is not above 0 is 0.
pub record SecRuleIdPool : Type 0 where
  pub min_id : ℕ
  pub max_id : ℕ
  pub next_id : ℕ
  pub last_allocated_id : ℕ
  pub allocated_count : ℕ

unfoldable pub effective_min : SecRuleIdPool → ℕ
effective_min p = if p.min_id == 0 then default_id_pool_min else p.min_id

unfoldable pub effective_max : SecRuleIdPool → ℕ
effective_max p = if p.max_id == 0 then default_id_pool_max else p.max_id

-- `map[int]struct{}`
abbrev pub IdSet : Type 0
IdSet = ℕ → Bool

abbrev pub no_ids : IdSet
no_ids id = false

-- `used[id] = struct{}{}`
abbrev pub insert : ℕ → IdSet → IdSet
insert id used j = if id == j then true else used j

-- `delete(used, id)`
abbrev pub delete : ℕ → IdSet → IdSet
delete id used j = if id == j then false else used j

-- The loop of `findFree` with `n` ids left.
find_from : ℕ → ℕ → IdSet → Option ℕ
find_from zero id used = none
find_from (suc n) id used = elim (used id) [ false ↦ some id | true ↦ find_from n (id + 1) used ]

unfoldable pub find_free : ℕ → ℕ → IdSet → Option ℕ
unfolding find_from
find_free from to used = if ltb to from then none else find_from (to + 1 - from) from used

pub data AllocError : Type 0 where
  max_below_min exhausted too_many_conflicts api_failure : AllocError

-- `next` of `allocateOne`
unfoldable pub start_id : SecRuleIdPool → ℕ
unfolding effective_min
start_id p = if ltb p.next_id (effective_min p) then effective_min p else p.next_id

-- The search from the cursor to the end of the range, and then from its start.
unfoldable pub search_pool : SecRuleIdPool → IdSet → Option ℕ
unfolding effective_min effective_max start_id find_free
search_pool p used =
    or_else (find_free (start_id p) (effective_max p) used)
      (find_free (effective_min p) (start_id p - 1) used)

-- The pool behind an allocation. (The count is an int64; it would wrap after 2^63 allocations.)
unfoldable pub advance : SecRuleIdPool → ℕ → SecRuleIdPool
unfolding effective_min effective_max
advance p id = record p {
  next_id = if ltb (effective_max p) (id + 1) then effective_min p else id + 1;
  last_allocated_id = id;
  allocated_count = p.allocated_count + 1;
}

grant : SecRuleIdPool → Option ℕ → Result AllocError (ℕ × SecRuleIdPool)
unfolding advance
grant p none = err exhausted
grant p (some id) = ok (id, advance p id)

-- What `allocateOne` decides from the pool that it read: the id, and the pool that it writes.
unfoldable pub allocate_from : SecRuleIdPool → IdSet → Result AllocError (ℕ × SecRuleIdPool)
unfolding effective_min effective_max search_pool grant
allocate_from p used =
    if ltb (effective_max p) (effective_min p)
    then err max_below_min
    else grant p (search_pool p used)
