-- ===== src/IdPool/Allocate.antt =====
-- internal/controller/seclang/id_pool.go: the calls of the API server, and the allocation of the ids
-- of one SecRule. The server is a parameter: its state is opaque, and every call may fail.
pub mod Grants
pub mod Claims
pub mod Retries
use kubewaf.Prelude.{
  ℕ, zero, suc, ◌+◌, ◌≡◌, Bool, true, false, Option, none, some, List, [], ◌∷◌, String, ltb,
  or_else, if◌then◌else◌, get_elem?,
}
use kubewaf.Prelude.Result.{Result, ok, err}
use kubewaf.Prelude.State.{Effect, pure, fail, go_on, ◌>>=◌}
use kubewaf.Api.SecRule.{
  SecRule, SecRuleSpec, SecRuleStatus, SecLangSecRule, SecRuleMetadata, is_single_rule_form,
  meta_id,
}
use kubewaf.Api.Atoi.{atoi}
use kubewaf.IdPool.Pool.{
  IdSet, insert, delete, no_ids, SecRuleIdPool, effective_min, AllocError, too_many_conflicts,
  api_failure, allocate_from, default_id_pool_min, default_id_pool_max,
}

-- What the code asks of an error of the API server.
pub data ApiError : Type 0 where
  not_found already_exists conflict other : ApiError

-- controller-runtime's client: a call that succeeds returns the object as the server has it.
pub record Client (S : Type 0) : Type 0 where
  pub get : Effect S ApiError SecRuleIdPool
  pub create : SecRuleIdPool → Effect S ApiError SecRuleIdPool
  pub update_status : SecRuleIdPool → Effect S ApiError SecRuleIdPool
  pub list : Effect S ApiError (List SecRule)

abbrev pub new_pool : SecRuleIdPool
new_pool = record {
  min_id = default_id_pool_min;
  max_id = default_id_pool_max;
  next_id = 0;
  last_allocated_id = 0;
  allocated_count = 0;
}

-- `pool.Status.NextID = pool.EffectiveMin()`
abbrev pub at_min : SecRuleIdPool → SecRuleIdPool
at_min p = record p { next_id = effective_min p }

unfoldable pub note_id : ℕ → IdSet → IdSet
note_id id used = if ltb 0 id then insert id used else used

unfoldable pub note_ids : List ℕ → IdSet → IdSet
unfolding note_id
note_ids [] used = used
note_ids (id ∷ ids) used = note_ids ids (note_id id used)

unfoldable pub note_parsed : Option ℕ → IdSet → IdSet
unfolding note_id
note_parsed none used = used
note_parsed (some id) used = note_id id used

unfoldable pub note_rules : List SecLangSecRule → IdSet → IdSet
unfolding note_id
note_rules [] used = used
note_rules (r ∷ rs) used = note_rules rs (note_id (meta_id r.metadata) used)

-- The body of the loop of `collectUsedIDs`. (strconv.Atoi refuses the empty string.)
unfoldable pub note_rule : SecRule → IdSet → IdSet
unfolding note_ids note_id note_rules note_parsed
note_rule sr used = note_parsed (atoi sr.assigned_id_annotation) (
    note_rules sr.spec.sec_rules (
      note_id (meta_id sr.spec.metadata)
        (note_id sr.status.rule_id (note_ids sr.status.assigned_ids used))))

unfoldable pub note_all : List SecRule → IdSet → IdSet
unfolding note_rule
note_all [] used = used
note_all (sr ∷ srs) used = note_all srs (note_rule sr used)

delete_ids : List ℕ → IdSet → IdSet
delete_ids [] used = used
delete_ids (id ∷ ids) used = delete_ids ids (delete id used)

delete_parsed : Option ℕ → IdSet → IdSet
delete_parsed none used = used
delete_parsed (some id) used = delete id used

unfoldable pub free_self_claims : SecRule → IdSet → IdSet
unfolding delete_ids delete_parsed atoi
free_self_claims sr used =
    let assigned = delete_ids sr.status.assigned_ids used in
    let primary =
      (if ltb 0 sr.status.rule_id then delete sr.status.rule_id assigned else assigned) in
    delete_parsed (atoi sr.assigned_id_annotation) primary

unfoldable pub positive : Option ℕ → Option ℕ
positive none = none
positive (some n) = if ltb 0 n then some n else none

-- The annotation is only for the primary rule.
unfoldable pub annotated : SecRule → ℕ → Option ℕ
unfolding positive atoi
annotated sr zero = positive (atoi sr.assigned_id_annotation)
annotated sr (suc i) = none

-- The id that an earlier run gave to rule `index`: from the status, or else from the annotation.
unfoldable pub sticky : SecRule → ℕ → Option ℕ
unfolding positive annotated
sticky sr index = or_else (positive (get_elem? sr.status.assigned_ids index)) (annotated sr index)

module _ {S : Type 0} (c : Client S) where
  -- The pool is created; the cursor's first write may fail.
  initialized : SecRuleIdPool → Result ApiError SecRuleIdPool → Effect S ApiError SecRuleIdPool
  initialized p (ok q) = pure q
  initialized p (err e) = pure (at_min p)

  created : Result ApiError SecRuleIdPool → Effect S ApiError SecRuleIdPool
  unfolding initialized
  created (ok p) s = let (r, s') = c.update_status (at_min p) s in initialized p r s'
  created (err already_exists) s = c.get s
  created (err e) s = (err e, s)

  found : Result ApiError SecRuleIdPool → Effect S ApiError SecRuleIdPool
  unfolding created
  found (ok p) s = (ok p, s)
  found (err not_found) s = let (r, s') = c.create new_pool s in created r s'
  found (err e) s = (err e, s)

  unfoldable pub ensure_cluster_id_pool : Effect S ApiError SecRuleIdPool
  unfolding found
  ensure_cluster_id_pool s = let (r, s') = c.get s in found r s'

  unfoldable pub written :
      Effect S AllocError ℕ → ℕ → Result ApiError SecRuleIdPool → Effect S AllocError ℕ
  written retry id (ok q) s = (ok id, s)
  written retry id (err conflict) s = retry s
  written retry id (err e) s = (err api_failure, s)

  unfoldable pub chosen :
      Effect S AllocError ℕ → Result AllocError (ℕ × SecRuleIdPool) → Effect S AllocError ℕ
  unfolding written
  chosen retry (ok (id, q)) s = let (r, s') = c.update_status q s in written retry id r s'
  chosen retry (err e) s = (err e, s)

  unfoldable pub ensured :
      Effect S AllocError ℕ → IdSet → Result ApiError SecRuleIdPool → Effect S AllocError ℕ
  unfolding chosen allocate_from
  ensured retry used (ok p) s = chosen retry (allocate_from p used) s
  ensured retry used (err e) s = (err api_failure, s)

  -- The loop of `allocateOne` with `n` attempts left.
  unfoldable pub allocate_attempts : ℕ → IdSet → Effect S AllocError ℕ
  unfolding ensure_cluster_id_pool ensured
  allocate_attempts zero used s = (err too_many_conflicts, s)
  allocate_attempts (suc n) used s =
      let (r, s') = ensure_cluster_id_pool s in ensured (allocate_attempts n used) used r s'

  abbrev max_attempts : ℕ
  max_attempts = 32

  unfoldable pub allocate_one : IdSet → Effect S AllocError ℕ
  unfolding allocate_attempts
  allocate_one used = allocate_attempts max_attempts used
