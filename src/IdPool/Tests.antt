-- ===== src/IdPool/Tests.antt =====
-- internal/controller/seclang/id_pool.go on a concrete server, with one SecRule that has an id and one
-- that has none.
use kubewaf.Prelude.{
  inr, ◌⊎◌, ℕ, zero, suc, ◌≡◌, refl, false, Option, none, some, [], ◌∷◌, arith, inl, leb,
}
use kubewaf.Prelude.Int.{pos}
use kubewaf.Prelude.Result.{ok, err}
use kubewaf.Prelude.State.{Effect}
use kubewaf.Api.SecRule.{
  SecRule, SecRuleSpec, SecRuleStatus, SecLangSecRule, SecRuleMetadata, empty_metadata,
  is_single_rule_form,
}
use kubewaf.IdPool.Pool.{
  default_id_pool_min, default_id_pool_max, IdSet, SecRuleIdPool, allocate_from, advance,
  effective_max, effective_min, start_id, insert, no_ids,
}
use kubewaf.IdPool.Pool.Choice.{
  IsCursorValid, IsGranted, allocate_from-IsGranted, allocate_from_complete,
  allocate_from_above_max,
}
use kubewaf.IdPool.Allocate.{
  ApiError, not_found, conflict, Client, new_pool, note_all, allocate_one, ensure_cluster_id_pool,
}
use kubewaf.IdPool.Allocate.Grants.{
  IsPool, IsGood, IsServer, IsOutcome, IsInRange, IsNew, Anything, allocate_one-IsNew,
  allocate_one-IsInRange,
}
use kubewaf.IdPool.Allocate.Retries.{Loses, start, again, allocate_one_outlasts_conflicts}
use kubewaf.IdPool.Assign.{allocate_ids, mixed, head_id}
use kubewaf.IdPool.Assign.Answers.{Ensures, AreAnswers, allocate_ids-AreAnswers}
use kubewaf.IdPool.Assign.Sources.{source_by, allocate_ids-source}
use kubewaf.IdPool.Assign.Unclaimed.{AreUnclaimed, allocated_ids-AreUnclaimed}
use kubewaf.IdPool.Apply.{apply_assigned_ids, ensure_rule_ids, stated_ids}
use kubewaf.IdPool.Apply.RoundTrip.{allocated_ids_are_found}

record Server : Type 0 where
  pool : Option SecRuleIdPool
  -- how many writes of the pool still lose to another writer
  conflicts : ℕ

get : Effect Server ApiError SecRuleIdPool
get s = elim s.pool [ none ↦ (err not_found, s) | some p ↦ (ok p, s) ]

write : ℕ → SecRuleIdPool → Effect Server ApiError SecRuleIdPool
write zero p s = (ok p, record s { pool = some p })
write (suc n) p s = (err conflict, record s { conflicts = n })

abbrev server : Client Server
unfolding get write
server = record {
  get = get;
  create = λ p s. (ok p, record s { pool = some p });
  update_status = λ p s. write s.conflicts p s;
  list = λ s. (ok [], s);
}

abbrev ready : Server
ready = record { pool = some new_pool; conflicts = 0 }

abbrev no_spec : SecRuleSpec
no_spec = record {
  order = pos 0;
  marker_after = "";
  metadata = none;
  matches = [];
  actions = none;
  sec_rules = [];
}

abbrev no_status : SecRuleStatus
no_status = record {
  ready = none;
  sec_rule_string = "";
  rule_id = 0;
  id_source = "";
  assigned_ids = [];
  rule_set_refs = [];
}

abbrev rule : Option SecRuleMetadata → SecLangSecRule
rule m = record {
  metadata = m;
  conditions = [];
  actions = none;
  chained_rule = false;
  sec_marker = "";
}

-- A bag of two rules: the pool's id, and 100001.
abbrev bag : SecRule
bag = record {
  namespace = "shop";
  name = "bag";
  assigned_id_annotation = "";
  spec = record no_spec {
    sec_rules = rule none ∷ rule (some (record empty_metadata { id = 100001 })) ∷ [];
  };
  status = no_status;
}

-- It has 100000 already.
abbrev other_rule : SecRule
other_rule = record bag {
  name = "other";
  spec = no_spec;
  status = record no_status { rule_id = 100000; assigned_ids = 100000 ∷ [] };
}

bag_gets_ids :
    (allocate_ids server bag (ready, note_all (bag ∷ other_rule ∷ []) no_ids)).0
    ≡ ok (record { assigned = 100002 ∷ 100001 ∷ []; primary = 100002; source = mixed })
unfolding allocate_ids note_all server is_single_rule_form
bag_gets_ids = refl

creates_the_pool :
    (allocate_one server no_ids (record { pool = none; conflicts = 2 })).0 ≡ ok 100000
unfolding allocate_one server
creates_the_pool = refl

-- A pool of two ids.
abbrev small : SecRuleIdPool
small = record new_pool { min_id = 10; max_id = 11; next_id = 11 }

small-IsCursorValid : IsCursorValid small
unfolding start_id effective_max
small-IsCursorValid = record { ordered = omega arith; within = omega arith }

eleven_is_taken : allocate_from small (insert 11 no_ids) ≡ ok (10, advance small 10)
unfolding allocate_from
eleven_is_taken = refl

allocate_from-IsGranted_example :
    IsGranted small (insert 11 no_ids) 10
    × (advance small 10 ≡ advance small 10)
    × IsCursorValid (advance small 10)
allocate_from-IsGranted_example =
    allocate_from-IsGranted small (advance small 10) (insert 11 no_ids) 10 small-IsCursorValid
      eleven_is_taken

allocate_from_complete_example :
    (id : ℕ) × (allocate_from small (insert 11 no_ids) ≡ ok (id, advance small id))
unfolding effective_min effective_max
allocate_from_complete_example =
    allocate_from_complete small (insert 11 no_ids) 10 (omega arith) (omega arith) refl

-- The range was 10–100, and is 10–11 now.
abbrev lowered : SecRuleIdPool
lowered = record small { next_id = 50 }

abbrev up_to_11 : IdSet
up_to_11 id = leb id 11

allocate_from_above_max_example : allocate_from lowered up_to_11 ≡ ok (12, advance lowered 12)
unfolding effective_min effective_max
allocate_from_above_max_example =
    allocate_from_above_max lowered up_to_11 (omega arith) (omega arith)
      (λ j lower upper. ground arith) refl

allocate_one-IsNew_example :
    IsOutcome Anything Anything (IsNew no_ids) (allocate_one server no_ids ready)
allocate_one-IsNew_example = allocate_one-IsNew server no_ids ready

allocate_ids-AreAnswers_example :
    Ensures
      (λ a used. AreAnswers (stated_ids bag.spec) a.assigned × (a.primary ≡ head_id a.assigned))
      (allocate_ids server bag (ready, no_ids))
allocate_ids-AreAnswers_example = allocate_ids-AreAnswers server bag ready no_ids

allocated_ids_are_found_example :
    Ensures
      (λ a used.
        (stated_ids (apply_assigned_ids bag a.assigned).spec ≡ a.assigned)
        × (ensure_rule_ids (apply_assigned_ids bag a.assigned) ≡ ok tt))
      (allocate_ids server bag (ready, no_ids))
unfolding is_single_rule_form
allocated_ids_are_found_example = allocated_ids_are_found server bag ready no_ids (λ e. cc)

allocated_ids-AreUnclaimed_example :
    Ensures
      (λ a used. AreUnclaimed (bag ∷ other_rule ∷ []) (stated_ids bag.spec) a.assigned)
      (allocate_ids server bag (ready, note_all (bag ∷ other_rule ∷ []) no_ids))
allocated_ids-AreUnclaimed_example =
    allocated_ids-AreUnclaimed server bag (bag ∷ other_rule ∷ []) ready
      (record { no_ids = refl; no_primary = refl; no_annotation = refl }) (inl refl)

-- The range of the small pool, and the one of a pool that is created.
abbrev Bounds : ℕ → ℕ → Type 0
Bounds lo hi = (lo ≡ 10) × (hi ≡ 11) ⊎ (lo ≡ default_id_pool_min) × (hi ≡ default_id_pool_max)

-- What the server keeps: its pool has its cursor in the range.
abbrev HasPool : Option SecRuleIdPool → Type 0
HasPool none = Unit
HasPool (some p) = IsPool Bounds p

abbrev KeepsPool : Server → Type 0
KeepsPool s = HasPool s.pool

get_keeps :
    (o : Option SecRuleIdPool) (n : ℕ)
    → HasPool o
    → IsGood KeepsPool (IsPool Bounds) (get (record { pool = o; conflicts = n }))
unfolding get
get_keeps none n h = h
get_keeps (some p) n h = (h, h)

write_keeps :
    (n : ℕ) (p : SecRuleIdPool) (s : Server)
    → IsPool Bounds p
    → KeepsPool s
    → IsGood KeepsPool (IsPool Bounds) (write n p s)
unfolding write
write_keeps zero p s v h = (v, v)
write_keeps (suc n) p s v h = h

server-IsServer : IsServer KeepsPool (IsPool Bounds) server
unfolding server
server-IsServer = record {
  get_good = λ s h. get_keeps s.pool s.conflicts h;
  create_good = λ p s v h. (v, v);
  update_good = λ p s v h. write_keeps s.conflicts p s v h;
}

abbrev small_ready : Server
small_ready = record { pool = some small; conflicts = 1 }

small-IsPool : IsPool Bounds small
unfolding effective_min effective_max
small-IsPool = (small-IsCursorValid, inl (refl, refl))

allocate_one-IsInRange_example :
    IsOutcome KeepsPool
      (IsPool Bounds)
      (IsInRange Bounds no_ids)
      (allocate_one server no_ids small_ready)
allocate_one-IsInRange_example =
    allocate_one-IsInRange Bounds server KeepsPool no_ids small_ready (inr (refl, refl))
      server-IsServer small-IsPool

lost_once : Loses server no_ids 1 small_ready (record { pool = some small; conflicts = 0 })
unfolding server ensure_cluster_id_pool allocate_from
lost_once = again {p = small} {q = advance small 11} {id = 11} refl refl refl (start _)

allocate_one_outlasts_conflicts_example :
    allocate_one server no_ids small_ready
    ≡ (ok 11, record { pool = some (advance small 11); conflicts = 0 })
unfolding server ensure_cluster_id_pool allocate_from
allocate_one_outlasts_conflicts_example =
    allocate_one_outlasts_conflicts server no_ids 1 small_ready
      (record { pool = some small; conflicts = 0 }) (record { pool = some small; conflicts = 0 })
      (record { pool = some (advance small 11); conflicts = 0 }) small (advance small 11)
      (advance small 11) 11 (omega arith) lost_once refl refl refl

allocate_ids-source_example :
    Ensures
      (λ a used. a.source ≡ source_by (stated_ids bag.spec))
      (allocate_ids server bag (ready, no_ids))
allocate_ids-source_example = allocate_ids-source server bag ready no_ids
