-- ===== src/IdPool/Assign.antt =====
-- internal/controller/seclang/id_pool.go: the ids of one SecRule. The set of used ids is carried along
-- with the server's state, since the source changes it in place.
pub mod Answers
pub mod Fresh
pub mod Distinct
pub mod Unclaimed
pub mod Sources
use kubewaf.Prelude.{
  ℕ, zero, suc, ◌+◌, ◌≡◌, Bool, true, false, Option, none, some, List, [], ◌∷◌, String, ltb,
  if◌then◌else◌, get_elem?,
}
use kubewaf.Prelude.Result.{Result, ok, err}
use kubewaf.Prelude.State.{Effect, pure, fail, go_on, ◌>>=◌}
use kubewaf.Api.SecRule.{
  SecRule, SecRuleSpec, SecRuleStatus, SecLangSecRule, SecRuleMetadata, is_single_rule_form,
  meta_id,
}
use kubewaf.IdPool.Pool.{IdSet, insert, no_ids, AllocError, api_failure}
use kubewaf.IdPool.Allocate.{Client, ApiError, allocate_one, sticky, free_self_claims, note_all}

-- IDSourceSpec, IDSourceAuto, IDSourceMixed, and the empty string.
pub data IdSource : Type 0 where
  spec auto mixed unset : IdSource

-- The results of `allocateIDs`.
pub record Assignment : Type 0 where
  pub assigned : List ℕ
  pub primary : ℕ
  pub source : IdSource

abbrev pub no_assignment : Assignment
no_assignment = record { assigned = []; primary = 0; source = unset }

-- The source of a bag of rules from the numbers of pool ids and of stated ids.
abbrev pub source_of : ℕ → ℕ → IdSource
source_of auto_count spec_count =
    if ltb 0 auto_count then (if ltb 0 spec_count then mixed else auto) else spec

-- The loop's state: the ids, and how many are not stated and how many are.
pub record Tally : Type 0 where
  pub ids : List ℕ
  pub auto_count : ℕ
  pub spec_count : ℕ

abbrev pub no_tally : Tally
no_tally = record { ids = []; auto_count = 0; spec_count = 0 }

abbrev pub head_id : List ℕ → ℕ
head_id [] = 0
head_id (id ∷ ids) = id

abbrev pub tally : ℕ × IdSource → Tally → Tally
tally (id, spec) t = record {
  ids = id ∷ t.ids;
  auto_count = t.auto_count;
  spec_count = t.spec_count + 1;
}
tally (id, source) t = record {
  ids = id ∷ t.ids;
  auto_count = t.auto_count + 1;
  spec_count = t.spec_count;
}

abbrev pub of_tally : Tally → Assignment
of_tally t = record {
  assigned = t.ids;
  primary = head_id t.ids;
  source = source_of t.auto_count t.spec_count;
}

module _ {S : Type 0} (c : Client S) where
  abbrev pub Step : Type 0 → Type 0
  Step A = Effect (S × IdSet) AllocError A

  -- `used[id] = struct{}{}`, and the results
  abbrev pub take_id : IdSource → ℕ → Step (ℕ × IdSource)
  take_id source id (s, used) = (ok (id, source), (s, insert id used))

  unfoldable pub from_pool : Step ℕ
  unfolding allocate_one
  from_pool (s, used) = let (r, s') = allocate_one c used s in (r, (s', used))

  unfoldable pub kept_or_new : Option ℕ → Step (ℕ × IdSource)
  unfolding from_pool
  kept_or_new (some id) = take_id auto id
  kept_or_new none = from_pool >>= take_id auto

  unfoldable pub resolve_one_id : SecRule → ℕ → ℕ → Step (ℕ × IdSource)
  unfolding kept_or_new sticky
  resolve_one_id sr meta index =
      if ltb 0 meta then take_id spec meta else kept_or_new (sticky sr index)

  unfoldable pub resolve_from : SecRule → ℕ → List SecLangSecRule → Step Tally
  unfolding resolve_one_id
  resolve_from sr index [] = pure no_tally
  resolve_from sr index (r ∷ rs) = resolve_one_id sr (meta_id r.metadata) index >>= λ id.
      resolve_from sr (index + 1) rs >>= λ t. pure (tally id t)

  abbrev pub one_id : SecRule → Step Assignment
  one_id sr = resolve_one_id sr (meta_id sr.spec.metadata) 0 >>= λ r.
      pure (record { assigned = r.0 ∷ []; primary = r.0; source = r.1 })

  abbrev pub bag_ids : SecRule → List SecLangSecRule → Step Assignment
  bag_ids sr [] = pure no_assignment
  bag_ids sr (r ∷ rs) = resolve_from sr 0 (r ∷ rs) >>= λ t. pure (of_tally t)

  unfoldable pub allocate_ids : SecRule → Step Assignment
  unfolding resolve_from resolve_one_id free_self_claims
  allocate_ids sr (s, used) =
      let state : S × IdSet = (s, free_self_claims sr used) in
      if is_single_rule_form sr.spec then one_id sr state else bag_ids sr sr.spec.sec_rules state

  -- `collectUsedIDs`
  unfoldable pub collect_used_ids : Effect S ApiError IdSet
  unfolding note_all
  collect_used_ids s =
      go_on (c.list s).0 (λ rules s'. (ok (note_all rules no_ids), s')) (c.list s).1
