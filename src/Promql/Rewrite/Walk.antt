-- ===== src/Promql/Rewrite/Walk.antt =====
-- internal/subresourceapi/promql_scope.go: the walk ends, and scopes the whole query.
use kubewaf.Prelude.{ℕ, zero, suc, ◌≤◌, ◌≡◌, ◌≢◌, [], ◌∷◌, List, length, take, arith}
use kubewaf.Prelude.Bytes.{Bytes, codes}
use kubewaf.Prelude.Result.{err}
use kubewaf.Promql.Scan.{out_of_fuel}
use kubewaf.Promql.Matcher.{WafIdentity}
use kubewaf.Promql.Post.{Post, returned, bind-Post, fails-Post}
use kubewaf.Promql.Rewrite.{rewrite_round, rewrite_loop, rewrite_promql}
use kubewaf.Promql.Grammar.{IsScoped}
use kubewaf.Promql.Rewrite.Scoped.{rewrite_round-Post}

rewrite_loop-Post :
    (fuel : ℕ) (q : Bytes) (ids : List WafIdentity)
    → length q ≤ fuel
    → Post (IsScoped ids q) (rewrite_loop fuel q ids)
unfolding rewrite_loop
rewrite_loop-Post fuel [] ids h = returned IsScoped.done
rewrite_loop-Post zero (c ∷ q) ids h = absurd (omega arith)
rewrite_loop-Post (suc fuel) (c ∷ q) ids h =
    bind-Post (rewrite_round (c ∷ q) ids) _ (rewrite_round-Post c q ids) λ out (lt, piece).
      bind-Post (rewrite_loop fuel out.rest ids) _
        (rewrite_loop-Post fuel out.rest ids (omega arith))
        λ more rest. returned (IsScoped.next out piece rest)

rewrite_promql-Post :
    (q : Bytes) (ids : List WafIdentity) → Post (IsScoped ids q) (rewrite_promql q ids)
unfolding rewrite_promql
rewrite_promql-Post q ids = rewrite_loop-Post (length q) q ids (omega arith)

-- The walk over a query of n bytes ends within n rounds: the model's fuel never runs out.
pub rewrite_promql_ends :
    (q : Bytes) (ids : List WafIdentity) → rewrite_promql q ids ≢ err out_of_fuel
rewrite_promql_ends q ids e = fails-Post (rewrite_promql-Post q ids) e

-- What `ScopePromQLToWAFs` makes of a query: `vector(0)` for no WAF, else the query that is scoped to the
-- first 256 WAFs.
abbrev pub IsScopedUnion : List WafIdentity → Bytes → Bytes → Type 0
IsScopedUnion [] query out = out ≡ codes "vector(0)"
IsScopedUnion (id ∷ ids) query out = IsScoped (take 256 (id ∷ ids)) query out
