-- ===== src/IdPool/Allocate/Retries.antt =====
-- internal/controller/seclang/id_pool.go: `allocateOne` against concurrent writers of the pool.
use kubewaf.Prelude.{ℕ, suc, ◌+◌, ◌<◌, ◌-◌, ◌≡◌, ap, ◌∙◌, arith}
use kubewaf.Prelude.Result.{Result, ok, err}
use kubewaf.IdPool.Pool.{IdSet, SecRuleIdPool, too_many_conflicts, allocate_from}
use kubewaf.IdPool.Allocate.{
  ApiError, Client, conflict, ensure_cluster_id_pool, written, chosen, ensured, allocate_attempts,
  allocate_one,
}

-- `n` attempts in a row choose an id and lose it to a concurrent write of the pool.
pub data Loses {S : Type 0} (c : Client S) (used : IdSet) : ℕ → S → S → Type 0 where
  start : (s : S) → Loses c used 0 s s
  again :
      {n : ℕ} {s read wrote s' : S} {p q : SecRuleIdPool} {id : ℕ}
      → ensure_cluster_id_pool c s ≡ (ok p, read)
      → allocate_from p used ≡ ok (id, q)
      → c.update_status q read ≡ (err conflict, wrote)
      → Loses c used n wrote s'
      → Loses c used (suc n) s s'

module _ {S : Type 0} (c : Client S) (used : IdSet) where
  -- What an attempt does with the pool that it has read.
  attempt_reads :
      (n : ℕ) (s read : S) (p : SecRuleIdPool)
      → ensure_cluster_id_pool c s ≡ (ok p, read)
      → allocate_attempts c (suc n) used s
        ≡ chosen c (allocate_attempts c n used) (allocate_from p used) read
  unfolding allocate_attempts
  attempt_reads n s read p e = ap (λ x. ensured c (allocate_attempts c n used) used x.0 x.1) e

  attempt_writes :
      (n : ℕ) (read wrote : S) (q : SecRuleIdPool) (id : ℕ) (r : Result ApiError SecRuleIdPool)
      → c.update_status q read ≡ (r, wrote)
      → chosen c (allocate_attempts c n used) (ok (id, q)) read
        ≡ written c (allocate_attempts c n used) id r wrote
  unfolding chosen
  attempt_writes n read wrote q id r e =
      ap (λ x. written c (allocate_attempts c n used) id x.0 x.1) e

  attempt :
      (n : ℕ) (s read wrote : S) (p q : SecRuleIdPool) (id : ℕ) (r : Result ApiError SecRuleIdPool)
      → ensure_cluster_id_pool c s ≡ (ok p, read)
      → allocate_from p used ≡ ok (id, q)
      → c.update_status q read ≡ (r, wrote)
      → allocate_attempts c (suc n) used s ≡ written c (allocate_attempts c n used) id r wrote
  attempt n s read wrote p q id r e e' e'' =
      attempt_reads n s read p e
      ∙ ap (λ x. chosen c (allocate_attempts c n used) x read) e'
      ∙ attempt_writes n read wrote q id r e''

  none_more : (m : ℕ) → 0 + m ≡ m
  none_more m = omega arith

  one_more : (n m : ℕ) → suc n + m ≡ suc (n + m)
  one_more n m = omega arith

  Loses-allocate_attempts :
      (m : ℕ) {n : ℕ} {s s' : S}
      → Loses c used n s s'
      → allocate_attempts c (n + m) used s ≡ allocate_attempts c m used s'
  unfolding written allocate_attempts
  Loses-allocate_attempts m (start s) = ap (λ k. allocate_attempts c k used s) (none_more m)
  Loses-allocate_attempts m (again {n} {s} {read} {wrote} {p = p} {q} {id} e e' e'' h) =
      ap (λ k. allocate_attempts c k used s) (one_more n m)
      ∙ attempt (n + m) s read wrote p q id (err conflict) e e' e''
      ∙ Loses-allocate_attempts m h

  -- The attempts that are left when `n` are lost.
  attempts_left : (n : ℕ) → n < 32 → 32 ≡ n + suc (31 - n)
  attempts_left n lt = omega arith

  -- If fewer than 32 attempts in a row are lost to other writers and the next one chooses an id and
  -- writes the pool, then `allocateOne` returns that id.
  pub allocate_one_outlasts_conflicts :
      (n : ℕ) (s s' read wrote : S) (p q stored : SecRuleIdPool) (id : ℕ)
      → n < 32
      → Loses c used n s s'
      → ensure_cluster_id_pool c s' ≡ (ok p, read)
      → allocate_from p used ≡ ok (id, q)
      → c.update_status q read ≡ (ok stored, wrote)
      → allocate_one c used s ≡ (ok id, wrote)
  unfolding allocate_one
  allocate_one_outlasts_conflicts n s s' read wrote p q stored id lt loses e e' e'' =
      ap (λ k. allocate_attempts c k used s) (attempts_left n lt)
      ∙ Loses-allocate_attempts (suc (31 - n)) loses
      ∙ attempt (31 - n) s' read wrote p q id (ok stored) e e' e''

  -- If 32 attempts in a row are lost then `allocateOne` gives up.
  pub allocate_one_gives_up :
      (s s' : S) → Loses c used 32 s s' → allocate_one c used s ≡ (err too_many_conflicts, s')
  unfolding allocate_one
  allocate_one_gives_up s s' loses = Loses-allocate_attempts 0 loses
