-- ===== src/Promql/Tests.antt =====
-- Runs of the scoping on queries that can be followed in promql_scope.go.
use kubewaf.Prelude.{◌≡◌, ◌≢◌, refl, List, [], ◌∷◌}
use kubewaf.Prelude.Bytes.{Bytes, codes}
use kubewaf.Prelude.Result.{ok, err}
use kubewaf.Promql.Scan.{panic, escapes_scope, out_of_fuel}
use kubewaf.Promql.Matcher.{WafIdentity}
use kubewaf.Promql.Rewrite.{rewrite_promql, scope_promql, scope_promql_to_wafs}
use kubewaf.Promql.Rewrite.Walk.{rewrite_promql_ends}

abbrev waf : Bytes → Bytes → WafIdentity
waf ns name = record { namespace = ns; name = name }

scopes_union :
    scope_promql_to_wafs
      (codes "sum by (le) (up{x=\"1\", waf_name=\"b\"})")
      (waf (codes "a") (codes "b") ∷ waf (codes "c") (codes "d") ∷ [])
    ≡ ok (
        codes
          "sum by (le) ((up{waf_namespace=\"a\",waf_name=\"b\",x=\"1\"} or up{waf_namespace=\"c\",waf_name=\"d\",x=\"1\"}))")
unfolding scope_promql_to_wafs
scopes_union = refl

refuses_foreign :
    scope_promql (codes "up{waf_name=\"x\"}") (codes "a") (codes "b") ≡ err escapes_scope
unfolding scope_promql
refuses_foreign = refl

panics : scope_promql (codes "rate({)})") (codes "a") (codes "b") ≡ err panic
unfolding scope_promql
panics = refl

leaks_comment :
    scope_promql (codes "up #\"\nor up #\"") (codes "a") (codes "b")
    ≡ ok (codes "up{waf_namespace=\"a\",waf_name=\"b\"} #\"\nor up #\"")
unfolding scope_promql
leaks_comment = refl

leaks_argument :
    scope_promql (codes "predict_linear(up[1h], scalar(secret))") (codes "a") (codes "b")
    ≡ ok (codes "predict_linear(up{waf_namespace=\"a\",waf_name=\"b\"}[1h], scalar(secret))")
unfolding scope_promql
leaks_argument = refl

rewrite_promql_ends_example : rewrite_promql (codes "up > {") [] ≢ err out_of_fuel
rewrite_promql_ends_example = rewrite_promql_ends (codes "up > {") []

abbrev two : List WafIdentity
two = waf (codes "a") (codes "b") ∷ waf (codes "c") (codes "d") ∷ []

abbrev for_two : Bytes
for_two = codes "(up{waf_namespace=\"a\",waf_name=\"b\"} or up{waf_namespace=\"c\",waf_name=\"d\"})"
