-- ===== src/Promql/Rewrite.antt =====
-- internal/subresourceapi/promql_scope.go: the walk over the query that scopes its selectors.
pub mod Scoped
pub mod Walk
use kubewaf.Prelude.{
  ℕ, zero, suc, ◌-◌, Bool, true, false, ◌&&◌, ◌||◌, Option, none, some, List, [], ◌∷◌, ◌++◌, map,
  ltb, ◌==◌, if◌then◌else◌, length, take, drop,
}
use kubewaf.Prelude.Bytes.{Bytes, codes, mem, join, trim_space, trim_prefix, trim_suffix, to_lower}
use kubewaf.Prelude.Result.{Result, ok, err, ◌>>=◌, ◌>>◌}
use kubewaf.Promql.Scan.{
  Error, empty_query, missing_identity, panic, out_of_fuel, Cut, skip_quoted, read_selector,
  skip_bracket, skip_paren, skip_number, is_number_start, is_ident_start, skip_space, read_ident,
  is_quote,
}
use kubewaf.Promql.Matcher.{WafIdentity, is_empty, reject_foreign_identity, strip_identity_matchers}
use kubewaf.Promql.Names.{
  promql_keywords, promql_aggregators, range_vector_funcs, grouping_keywords, max_promql_union_wafs,
}
use kubewaf.Promql.Selectors.{
  Output, starts, emit_scoped_selectors, rewrite_selector_at, is_agg_modifier, copy_grouping_list,
  rewrite_range_func_call,
}

-- What the walk writes unchanged: a slice of the query.
abbrev copied : Result Error Cut → Result Error Output
copied r = do cut ← r; ok (record { written = cut.taken; rest = cut.rest })

-- The branch for an identifier, with the text behind it.
word : Bytes → Bytes → List WafIdentity → Result Error Output
unfolding to_lower mem copy_grouping_list skip_space rewrite_range_func_call is_agg_modifier
    rewrite_selector_at emit_scoped_selectors
word ident next ids =
    let low = to_lower ident in
    let at = (skip_space next).rest in
    let plainly = ok (record { written = ident; rest = next }) in
    if mem low promql_keywords
    then if mem low grouping_keywords
      then (let labels = copy_grouping_list next in
          ok (record labels { written = ident ++ labels.written }))
      else plainly
    else if starts b'(' at
    then if mem low range_vector_funcs
      then (do
        call ← rewrite_range_func_call ident at ids
        elim call [ none ↦ plainly | some out ↦ ok out ])
      else plainly
    else if mem low promql_aggregators && is_agg_modifier at
    then plainly
    else if starts b'{' at
    then rewrite_selector_at ident at ids
    else emit_scoped_selectors ident [] next ids

-- One round of the loop of `rewritePromQL`.
unfoldable pub rewrite_round : Bytes → List WafIdentity → Result Error Output
unfolding skip_quoted is_number_start skip_number skip_bracket rewrite_selector_at is_ident_start
    read_ident word
rewrite_round [] ids = ok (record { written = []; rest = [] })
rewrite_round (c ∷ q) ids =
    if is_quote c
    then copied (skip_quoted (c ∷ q))
    else if is_number_start (c ∷ q)
    then copied (ok (skip_number (c ∷ q)))
    else if c == b'['
    then copied (skip_bracket (c ∷ q))
    else if c == b'{'
    then rewrite_selector_at [] (c ∷ q) ids
    else if is_ident_start c
    then (let ident = read_ident (c ∷ q) in word ident.taken ident.rest ids)
    else ok (record { written = c ∷ []; rest = q })

unfoldable pub rewrite_loop : ℕ → Bytes → List WafIdentity → Result Error Bytes
unfolding rewrite_round
rewrite_loop fuel [] ids = ok []
rewrite_loop zero (c ∷ q) ids = err out_of_fuel
rewrite_loop (suc fuel) (c ∷ q) ids = do
  out ← rewrite_round (c ∷ q) ids
  more ← rewrite_loop fuel out.rest ids
  ok (out.written ++ more)

-- `rewritePromQL`: a round reads at least one byte.
unfoldable pub rewrite_promql : Bytes → List WafIdentity → Result Error Bytes
unfolding rewrite_loop
rewrite_promql query ids = rewrite_loop (length query) query ids

-- `ScopePromQL`
unfoldable pub scope_promql : Bytes → Bytes → Bytes → Result Error Bytes
unfolding rewrite_promql trim_space
scope_promql query ns name =
    if is_empty (trim_space query)
    then err empty_query
    else if is_empty ns || is_empty name
    then err missing_identity
    else rewrite_promql query (record { namespace = ns; name = name } ∷ [])

-- `ScopePromQLToWAFs`
unfoldable pub scope_promql_to_wafs : Bytes → List WafIdentity → Result Error Bytes
unfolding rewrite_promql trim_space
scope_promql_to_wafs query ids = if is_empty (trim_space query) then err empty_query else elim ids [
  | [] ↦ ok (codes "vector(0)")
  | id ∷ more ↦ rewrite_promql query (take max_promql_union_wafs (id ∷ more))
]
