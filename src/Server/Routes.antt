-- ===== src/Server/Routes.antt =====
-- internal/subresourceapi/wafpath.go, passthrough.go and server.go: the paths of the API.
pub mod RoundTrip
use kubewaf.Prelude.{
  ℕ, ◌≡◌, String, Bool, true, false, ◌&&◌, ◌||◌, not, Option, none, some, List, [], ◌∷◌, ◌++◌, ltb,
  leb, ◌==◌, if◌then◌else◌, length,
}
use kubewaf.Prelude.Bytes.{Bytes, codes, bytes_eq, trim_front, trim_prefix, trim_suffix, join}
use kubewaf.Prelude.Split.{split}
use kubewaf.Prelude.Result.{Result, ok, err, ◌>>=◌}
use kubewaf.Api.SecRule.{is_nil}
use kubewaf.Promql.Scope.{quote_go}
use kubewaf.Server.Errors.{PathError}

-- The constants `Group` and `Version`, and the prefix that they make.
abbrev pub api_prefix : Bytes
api_prefix = codes "/apis/subresources.kubewaf.io/v1alpha1"

abbrev pub slash : ℕ
slash = b'/'

unfoldable pub split_path : Bytes → List Bytes
unfolding trim_prefix split
split_path p = let rest = trim_prefix p slash in if is_nil rest then [] else split rest slash

-- The segments of a path, without the prefix of the API and one trailing slash.
unfoldable pub segments : Bytes → List Bytes
unfolding split_path trim_front trim_suffix
segments url = split_path (trim_front (trim_suffix url slash) api_prefix)

unfoldable pub has_empty : List Bytes → Bool
has_empty [] = false
has_empty (s ∷ ss) = is_nil s || has_empty ss

pub data WafSubresource : Type 0 where
  directives : WafSubresource
  metrics : WafSubresource
  traces : WafSubresource

pub record WafRoute : Type 0 where
  pub namespace : Bytes
  pub name : Bytes
  pub subresource : WafSubresource
  pub extra : Bytes

abbrev invalid : Bytes → PathError
invalid why = record { reason = "InvalidProbePath"; message = why }

abbrev not_found : Bytes → PathError
not_found why = record { reason = "NotFound"; message = why }

unfoldable pub subresource_of : Bytes → Option WafSubresource
unfolding bytes_eq
subresource_of s =
    if bytes_eq s (codes "directives")
    then some directives
    else if bytes_eq s (codes "metrics")
    then some metrics
    else if bytes_eq s (codes "traces")
    then some traces
    else none

-- The suffix after the subresource.
unfoldable pub extra_of : WafSubresource → List Bytes → Result PathError Bytes
unfolding has_empty join
extra_of sub [] = ok []
extra_of traces (s ∷ ss) =
    if has_empty (s ∷ ss)
    then err (invalid (codes "empty path segment"))
    else ok (join (s ∷ ss) (slash ∷ []))
extra_of _ (s ∷ ss) = err (not_found (codes "unexpected path suffix"))

unfoldable pub routed :
    Bytes → Bytes → WafSubresource → Result PathError Bytes → Result PathError WafRoute
routed ns name sub (err e) = err e
routed ns name sub (ok extra) =
    ok (record { namespace = ns; name = name; subresource = sub; extra = extra })

unfoldable pub of_subresource :
    Bytes → Bytes → Bytes → List Bytes → Option WafSubresource → Result PathError WafRoute
unfolding routed extra_of quote_go
of_subresource ns name fifth rest none =
    err (not_found (codes "unknown WAF subresource " ++ quote_go fifth))
of_subresource ns name fifth rest (some sub) = routed ns name sub (extra_of sub rest)

-- A path of five segments and more.
unfoldable pub waf_route_of :
    Bytes → Bytes → Bytes → Bytes → Bytes → List Bytes → Result PathError WafRoute
unfolding has_empty bytes_eq of_subresource subresource_of
waf_route_of first ns third name fifth rest =
    if has_empty (first ∷ ns ∷ third ∷ name ∷ fifth ∷ [])
    then err (invalid (codes "empty path segment"))
    else if not (bytes_eq first (codes "namespaces"))
    then err (invalid (codes "expected namespaces"))
    else if not (bytes_eq third (codes "wafs"))
    then err (invalid (codes "expected wafs"))
    else of_subresource ns name fifth rest (subresource_of fifth)

unfoldable pub waf_route_at : List Bytes → Result PathError WafRoute
unfolding waf_route_of
waf_route_at (first ∷ ns ∷ third ∷ name ∷ fifth ∷ rest) =
    waf_route_of first ns third name fifth rest
waf_route_at _ = err (invalid (codes "path too short"))

-- `ParseWAFSubresourcePath`.
unfoldable pub parse_waf_subresource_path : Bytes → Result PathError WafRoute
unfolding waf_route_at segments
parse_waf_subresource_path url = waf_route_at (segments url)

pub data ParentKind : Type 0 where
  sec_rule : ParentKind
  rule_set : ParentKind
  waf : ParentKind

pub record ProbeRoute : Type 0 where
  pub parent_kind : ParentKind
  pub namespace : Bytes
  pub name : Bytes
  pub app_path : Bytes
  pub raw_query : Bytes

unfoldable pub parent_of : Bytes → Result PathError ParentKind
unfolding bytes_eq quote_go
parent_of resource =
    if bytes_eq resource (codes "secrules")
    then ok sec_rule
    else if bytes_eq resource (codes "rulesets")
    then ok rule_set
    else if bytes_eq resource (codes "wafs")
    then ok waf
    else if bytes_eq resource (codes "secactions")
    then err (record {
      reason = "SecActionProbesDeferred";
      message = codes "SecAction probes deferred to v1.1";
    })
    else err (invalid (codes "unknown parent resource " ++ quote_go resource))

-- The path of the simulated request: what stands behind `/http`.
unfoldable pub app_path_of : Bool → List Bytes → Result PathError Bytes
unfolding bytes_eq has_empty join
app_path_of trailing [] = ok (slash ∷ [])
app_path_of trailing (h ∷ path) =
    if not (bytes_eq h (codes "http"))
    then err (not_found (codes "only /probes/http/{path} suffix is supported"))
    else if is_nil path
    then ok (slash ∷ [])
    else if has_empty path
    then err (invalid (codes "empty path segment"))
    else ok (slash ∷ (join path (slash ∷ []) ++ (if trailing then slash ∷ [] else [])))

unfoldable pub probed :
    Bytes → Bytes → Bytes → ParentKind → Result PathError Bytes → Result PathError ProbeRoute
probed ns name query kind (err e) = err e
probed ns name query kind (ok path) =
    ok (record {
      parent_kind = kind;
      namespace = ns;
      name = name;
      app_path = path;
      raw_query = query;
    })

unfoldable pub probe_route_of :
    Bytes → Bool → Bytes → Bytes → Bytes → Bytes → Bytes → List Bytes → Result PathError ProbeRoute
unfolding has_empty bytes_eq parent_of app_path_of probed
probe_route_of query trailing first ns resource name fifth rest =
    if has_empty (first ∷ ns ∷ resource ∷ name ∷ fifth ∷ [])
    then err (invalid (codes "empty path segment"))
    else if not (bytes_eq first (codes "namespaces"))
    then err (invalid (codes "expected namespaces"))
    else if not (bytes_eq fifth (codes "probes"))
    then err (invalid (codes "expected probes subresource"))
    else (do kind ← parent_of resource; probed ns name query kind (app_path_of trailing rest))

unfoldable pub probe_route_at : Bytes → Bool → List Bytes → Result PathError ProbeRoute
unfolding probe_route_of
probe_route_at query trailing (first ∷ ns ∷ resource ∷ name ∷ fifth ∷ rest) =
    probe_route_of query trailing first ns resource name fifth rest
probe_route_at query trailing _ = err (invalid (codes "path too short"))

-- `len(urlPath) > 1 && strings.HasSuffix(urlPath, "/")`
unfoldable pub had_trailing_slash : Bytes → Bool
had_trailing_slash [] = false
had_trailing_slash (c ∷ []) = false
had_trailing_slash (c ∷ d ∷ []) = d == slash
had_trailing_slash (c ∷ d ∷ e ∷ s) = had_trailing_slash (d ∷ e ∷ s)

-- `ParseProbePath`
unfoldable pub parse_probe_path : Bytes → Bytes → Result PathError ProbeRoute
unfolding probe_route_at segments had_trailing_slash trim_front trim_suffix
parse_probe_path url query =
    if is_nil (trim_front (trim_suffix url slash) api_prefix)
    then err (invalid (codes "empty path"))
    else probe_route_at query (had_trailing_slash url) (segments url)

-- `isClusterMetricsPath`
unfoldable pub is_cluster_metrics_path : Bytes → Bool
unfolding bytes_eq trim_suffix
is_cluster_metrics_path url =
    bytes_eq (trim_suffix url slash) (api_prefix ++ codes "/clustermetrics")

names_probes : List Bytes → Bool
unfolding bytes_eq
names_probes (first ∷ ns ∷ resource ∷ name ∷ fifth ∷ rest) =
    bytes_eq first (codes "namespaces") && bytes_eq fifth (codes "probes")
names_probes _ = false

-- `isProbeSubresourcePath`
unfoldable pub is_probe_subresource_path : Bytes → Bool
unfolding names_probes segments
is_probe_subresource_path url = names_probes (segments url)
