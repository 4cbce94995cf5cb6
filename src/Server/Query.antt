-- ===== src/Server/Query.antt =====
-- internal/subresourceapi/query.go: the handlers of metrics and traces, up to what they ask of the
-- backends.
pub mod Safety
pub mod Scoped
use kubewaf.Prelude.{
  ℕ, ◌+◌, ◌-◌, ◌*◌, ◌^◌, String, Bool, true, false, ◌||◌, ◌&&◌, not, Option, none, some, List, [],
  ◌∷◌, ltb, leb, if◌then◌else◌, length, is_nil, str_eq,
}
use kubewaf.Prelude.Bytes.{Bytes, codes, trim_space}
use kubewaf.Prelude.Result.{Result, ok, err, ◌>>=◌}
use kubewaf.Api.Atoi.{atoi}
use kubewaf.Promql.Scan.{Error}
use kubewaf.Promql.Matcher.{WafIdentity}
use kubewaf.Promql.Rewrite.{scope_promql, scope_promql_to_wafs}
use kubewaf.Server.Errors.{MappedError, PathError, map_path_error}
use kubewaf.Server.Routes.{WafRoute, waf, parse_waf_subresource_path}
use kubewaf.Server.Access.{AuthConfig, Caller, Identity, authenticate, SarAuthorizer}
use kubewaf.Server.Gate.{Gate, Limits, acquire_query_slot, release_query_slot}

-- The parts of an HTTP request that the handlers read. `param` is `r.URL.Query().Get`.
pub record Request : Type 0 where
  pub method : String
  pub path : Bytes
  pub caller : Caller
  pub param : String → String

-- What a handler asks of the metrics backend.
pub data MetricsCall : Type 0 where
  instant_query : Bytes → MetricsCall
  range_query : Bytes → Bytes → Bytes → Bytes → MetricsCall

-- The server's parts that the query handlers use. `list_wafs` is the list of the WAFs, or the status
-- for a list that failed. The range check parses floating-point numbers.
pub record Server : Type 0 where
  pub config : AuthConfig
  pub enable_query : Bool
  pub limits : Limits
  pub sar : SarAuthorizer
  pub has_query_backend : Bool
  pub list_wafs : Result MappedError (List WafIdentity)
  pub validate_query_range : Bytes → Bytes → Bytes → Option Bytes

unfoldable pub status : ℕ → String → String → MappedError
status code reason message = record { http_status = code; reason = reason; message = codes message }

unfoldable pub is_read : String → Bool
is_read m = str_eq m "GET" || str_eq m "HEAD"

-- The checks that the three handlers begin with.
unfoldable pub admitted : Server → String → Request → Result MappedError Identity
unfolding status is_read authenticate
admitted s disabled r =
    if not (is_read r.method)
    then err (status 405 "MethodNotAllowed" "method not allowed")
    else if not s.enable_query
    then err (status 404 "NotFound" disabled)
    else authenticate s.config r.caller

unfoldable pub with_status : Result PathError WafRoute → Result MappedError WafRoute
unfolding map_path_error
with_status (ok route) = ok route
with_status (err e) = err (map_path_error e)

unfoldable pub routed_to : Request → Result MappedError WafRoute
unfolding parse_waf_subresource_path with_status
routed_to r = with_status (parse_waf_subresource_path r.path)

unfoldable pub unless : {A : Type 0} → Option MappedError → A → Result MappedError A
unless none a = ok a
unless (some e) a = err e

unfoldable pub allowed : Server → Identity → WafRoute → Result MappedError WafRoute
unfolding unless
allowed s who route = unless (s.sar who waf route.namespace route.name) route

-- A WAF that the caller may get.
unfoldable pub authorized_route : Server → String → Request → Result MappedError WafRoute
unfolding admitted routed_to allowed
authorized_route s disabled r = do
  who ← admitted s disabled r
  route ← routed_to r
  allowed s who route

abbrev pub max_promql_bytes : ℕ
max_promql_bytes = 8 * 1024

or_default : Bytes → Bytes
or_default q = if is_nil q then codes "{}" else q

unfoldable pub query_of : Request → Result MappedError Bytes
unfolding status or_default trim_space
query_of r =
    let q = or_default (trim_space (codes (r.param "query"))) in
    if ltb max_promql_bytes (length q)
    then err (status 400 "BadRequest" "query exceeds size limit")
    else ok q

-- The text of an error is left to the scoping.
unfoldable pub scoped : Result Error Bytes → Result MappedError Bytes
unfolding status
scoped (ok q) = ok q
scoped (err e) = err (status 400 "UnscopedQuery" "")

unfoldable pub valid_range : Option Bytes → MetricsCall → Result MappedError MetricsCall
valid_range none call = ok call
valid_range (some why) call =
    err (record { http_status = 400; reason = "BadRequest"; message = why })

unfoldable pub range_call : Server → Bytes → Bytes → Bytes → Bytes → Result MappedError MetricsCall
unfolding status valid_range
range_call s q start end step =
    if is_nil start || is_nil end || is_nil step
    then err (status 400 "BadRequest" "query_range requires start, end, and step")
    else valid_range (s.validate_query_range start end step) (range_query q start end step)

-- `proxyMetrics`, up to the call.
unfoldable pub proxy_metrics : Server → Request → Bytes → Result MappedError MetricsCall
unfolding status range_call
proxy_metrics s r q =
    let start = codes (r.param "start") in
    let end = codes (r.param "end") in
    let step = codes (r.param "step") in
    if not s.has_query_backend
    then err (status 503 "NoMetricsBackend" "metrics backend is not configured")
    else if not (is_nil start) || not (is_nil end) || not (is_nil step)
    then range_call s q start end step
    else ok (instant_query q)

-- A slot of the gate around the rest of a handler; the deferred release comes at its end.
unfoldable pub with_slot :
    {A : Type 0} → Bytes → Result MappedError A → Bool × Gate → Result MappedError A × Gate
unfolding status release_query_slot
with_slot ns rest (false, g) =
    (err (status 429 "TooManyRequests" "query concurrency limit exceeded"), g)
with_slot ns rest (true, g) = (rest, release_query_slot ns g)

unfoldable pub in_slot :
    {A : Type 0}
    → Server
    → List Bytes
    → Bytes
    → Result MappedError A
    → Gate
    → Result MappedError A × Gate
unfolding with_slot acquire_query_slot
in_slot s visit ns rest g = with_slot ns rest (acquire_query_slot s.limits visit ns g)

-- Behind the checks: the handler's error, or the rest in a slot.
unfoldable pub behind_checks :
    {A B : Type 0}
    → Result MappedError A
    → (A → Gate → Result MappedError B × Gate)
    → Gate
    → Result MappedError B × Gate
behind_checks (err e) rest g = (err e, g)
behind_checks (ok a) rest g = rest a g

unfoldable pub metrics_checks : Server → Request → Result MappedError (WafRoute × Bytes)
unfolding authorized_route query_of
metrics_checks s r = do
  route ← authorized_route s "metrics subresource is disabled" r
  q ← query_of r
  ok (route, q)

unfoldable pub metrics_call : Server → Request → WafRoute × Bytes → Result MappedError MetricsCall
unfolding scoped scope_promql proxy_metrics
metrics_call s r (route, q) = do
  text ← scoped (scope_promql q route.namespace route.name)
  proxy_metrics s r text

-- `handleWAFMetrics`
unfoldable pub handle_waf_metrics :
    Server → List Bytes → Request → Gate → Result MappedError MetricsCall × Gate
unfolding behind_checks metrics_checks in_slot metrics_call
handle_waf_metrics s visit r =
    behind_checks (metrics_checks s r)
      λ found. in_slot s visit found.0.namespace (metrics_call s r found)

-- One WAF of the list: kept if it is allowed, left out if it is not, and an error if the check failed.
unfoldable pub keep_allowed :
    Option MappedError
    → WafIdentity
    → Result MappedError (List WafIdentity)
    → Result MappedError (List WafIdentity)
keep_allowed none id rest = do more ← rest; ok (id ∷ more)
keep_allowed (some e) id rest = if leb 500 e.http_status then err e else rest

unfoldable pub allowed_of :
    Server → Identity → List WafIdentity → Result MappedError (List WafIdentity)
unfolding keep_allowed
allowed_of s who [] = ok []
allowed_of s who (id ∷ ids) =
    keep_allowed (s.sar who waf id.namespace id.name) id (allowed_of s who ids)

-- `authorizedWAFIdentities`
unfoldable pub authorized_waf_identities : Server → Identity → Result MappedError (List WafIdentity)
unfolding allowed_of
authorized_waf_identities s who = do ids ← s.list_wafs; allowed_of s who ids

unfoldable pub cluster_checks : Server → Request → Result MappedError (Identity × Bytes)
unfolding admitted query_of
cluster_checks s r = do who ← admitted s "clustermetrics is disabled" r; q ← query_of r; ok (who, q)

unfoldable pub cluster_call : Server → Request → Identity × Bytes → Result MappedError MetricsCall
unfolding authorized_waf_identities scoped scope_promql_to_wafs proxy_metrics
cluster_call s r (who, q) = do
  ids ← authorized_waf_identities s who
  text ← scoped (scope_promql_to_wafs q ids)
  proxy_metrics s r text

-- `handleClusterMetrics`
unfoldable pub handle_cluster_metrics :
    Server → List Bytes → Request → Gate → Result MappedError MetricsCall × Gate
unfolding behind_checks cluster_checks in_slot cluster_call
handle_cluster_metrics s visit r =
    behind_checks (cluster_checks s r) λ found. in_slot s visit [] (cluster_call s r found)
