-- ===== src/Promql/Names.antt =====
-- internal/subresourceapi/promql_scope.go: the names that PromQL gives a meaning to.
use kubewaf.Prelude.{ℕ, List, [], ◌∷◌}
use kubewaf.Prelude.Bytes.{Bytes, codes}

abbrev pub promql_keywords : List Bytes
promql_keywords =
    codes "and"
    ∷ codes "or"
    ∷ codes "unless"
    ∷ codes "by"
    ∷ codes "without"
    ∷ codes "on"
    ∷ codes "ignoring"
    ∷ codes "group_left"
    ∷ codes "group_right"
    ∷ codes "bool"
    ∷ codes "offset"
    ∷ codes "inf"
    ∷ codes "nan"
    ∷ codes "atan2"
    ∷ []

abbrev pub promql_aggregators : List Bytes
promql_aggregators =
    codes "sum"
    ∷ codes "min"
    ∷ codes "max"
    ∷ codes "avg"
    ∷ codes "group"
    ∷ codes "stddev"
    ∷ codes "stdvar"
    ∷ codes "count"
    ∷ codes "count_values"
    ∷ codes "bottomk"
    ∷ codes "topk"
    ∷ codes "quantile"
    ∷ []

abbrev pub range_vector_funcs : List Bytes
range_vector_funcs =
    codes "increase"
    ∷ codes "rate"
    ∷ codes "irate"
    ∷ codes "delta"
    ∷ codes "idelta"
    ∷ codes "deriv"
    ∷ codes "resets"
    ∷ codes "changes"
    ∷ codes "predict_linear"
    ∷ codes "avg_over_time"
    ∷ codes "min_over_time"
    ∷ codes "max_over_time"
    ∷ codes "sum_over_time"
    ∷ codes "count_over_time"
    ∷ codes "stddev_over_time"
    ∷ codes "stdvar_over_time"
    ∷ codes "last_over_time"
    ∷ codes "present_over_time"
    ∷ codes "absent_over_time"
    ∷ codes "holt_winters"
    ∷ []

abbrev pub grouping_keywords : List Bytes
grouping_keywords =
    codes "by"
    ∷ codes "without"
    ∷ codes "on"
    ∷ codes "ignoring"
    ∷ codes "group_left"
    ∷ codes "group_right"
    ∷ []

abbrev pub max_promql_union_wafs : ℕ
max_promql_union_wafs = 256
