-- ===== src/Server/Traces.antt =====
-- internal/subresourceapi/query.go: the handler of traces, which drops what belongs to another WAF. The
-- encoding as JSON is a parameter: what it reads from a body, a trace, a process and a span.
pub mod Own
use kubewaf.Prelude.{
  ◌≡◌, String, Bool, true, false, ◌&&◌, ◌||◌, not, Option, none, some, List, [], ◌∷◌, if◌then◌else◌,
  is_nil, ℕ,
}
use kubewaf.Prelude.Bytes.{Bytes, codes, bytes_eq, mem, trim_space}
use kubewaf.Prelude.Result.{Result, ok, err, ◌>>=◌, ◌>>◌}
use kubewaf.Server.Errors.{MappedError}
use kubewaf.Server.Routes.{WafRoute}
use kubewaf.Server.Gate.{Gate}
use kubewaf.Server.Query.{Request, Server, status, authorized_route, behind_checks, in_slot}
use kubewaf.Server.Window.{Window, parse_trace_window}

-- A tag, with its value as text.
pub record Tag : Type 0 where
  pub key : Bytes
  pub value : Bytes

-- A trace of raw processes and spans. A missing member is an empty one.
pub record Trace : Type 0 where
  pub processes : List (Bytes × Bytes)
  pub spans : List Bytes

-- What the handler asks of the traces backend.
pub data TraceCall : Type 0 where
  trace_by_id : Bytes → TraceCall
  search : Bytes → Bytes → Window → TraceCall

pub record Json : Type 0 where
  -- the member `data` of a body
  pub traces_of : Bytes → Option (List Bytes)
  pub trace_of : Bytes → Option Trace
  -- the tags of a process or a span, and a span's process id
  pub tags_of : Bytes → Option (List Tag)
  pub process_id_of : Bytes → Bytes
  -- the parameter `tags`: an object of strings
  pub members_of : Bytes → Option (List (Bytes × Bytes))

unfoldable pub is_either : Bytes → Bytes → Bytes → Bool
unfolding bytes_eq
is_either key a b = bytes_eq key a || bytes_eq key b

-- The loop of `identityFromTags`: a later tag wins.
unfoldable pub identity_from : Bytes × Bytes → List Tag → Bytes × Bytes
unfolding is_either
identity_from (ns, name) [] = (ns, name)
identity_from (ns, name) (t ∷ ts) =
    identity_from
      (if is_either t.key (codes "waf.namespace") (codes "waf_namespace")
        then (t.value, name)
        else if is_either t.key (codes "waf.name") (codes "waf_name")
        then (ns, t.value)
        else (ns, name))
      ts

unfoldable pub names_waf : Bytes → Bytes → Option (List Tag) → Bool
unfolding identity_from bytes_eq
names_waf ns name none = false
names_waf ns name (some tags) =
    let got = identity_from ([], []) tags in bytes_eq got.0 ns && bytes_eq got.1 name

-- `processRawMatchesWAF` and `spanRawMatchesWAF`
unfoldable pub raw_matches_waf : Json → Bytes → Bytes → Bytes → Bool
unfolding names_waf
raw_matches_waf json ns name raw = names_waf ns name (json.tags_of raw)

-- The ids of the processes that match.
unfoldable pub kept_processes : Json → Bytes → Bytes → List (Bytes × Bytes) → List Bytes
unfolding raw_matches_waf
kept_processes json ns name [] = []
kept_processes json ns name ((id, p) ∷ ps) =
    let rest = kept_processes json ns name ps in
    if raw_matches_waf json ns name p then id ∷ rest else rest

unfoldable pub kept_spans : Json → Bytes → Bytes → List Bytes → List Bytes → List Bytes
unfolding mem raw_matches_waf
kept_spans json ns name keep [] = []
kept_spans json ns name keep (sp ∷ sps) =
    let rest = kept_spans json ns name keep sps in
    if mem (json.process_id_of sp) keep || raw_matches_waf json ns name sp then sp ∷ rest else rest

unfoldable pub used_ids : Json → List Bytes → List Bytes
used_ids json [] = []
used_ids json (sp ∷ sps) =
    let rest = used_ids json sps in
    if is_nil (json.process_id_of sp) then rest else json.process_id_of sp ∷ rest

unfoldable pub new_processes : List Bytes → List Bytes → List (Bytes × Bytes) → List (Bytes × Bytes)
unfolding mem
new_processes used keep [] = []
new_processes used keep ((id, p) ∷ ps) =
    let rest = new_processes used keep ps in
    if mem id used && mem id keep then (id, p) ∷ rest else rest

-- `filterTraceRaw` on a trace that was decoded: none if no span is kept.
unfoldable pub filter_trace : Json → Bytes → Bytes → Trace → Option Trace
unfolding kept_processes kept_spans used_ids new_processes
filter_trace json ns name t =
    let keep = kept_processes json ns name t.processes in
    let spans = kept_spans json ns name keep t.spans in
    if is_nil spans
    then none
    else some
        (record { processes = new_processes (used_ids json spans) keep t.processes; spans = spans })

unfoldable pub prepend : Option Trace → List Trace → List Trace
prepend none ts = ts
prepend (some t) ts = t ∷ ts

unfoldable pub decoded_and_filtered : Json → Bytes → Bytes → Option Trace → Option Trace
unfolding filter_trace
decoded_and_filtered json ns name none = none
decoded_and_filtered json ns name (some t) = filter_trace json ns name t

unfoldable pub filter_traces : Json → Bytes → Bytes → List Bytes → List Trace
unfolding prepend decoded_and_filtered
filter_traces json ns name [] = []
filter_traces json ns name (raw ∷ raws) =
    prepend (decoded_and_filtered json ns name (json.trace_of raw))
      (filter_traces json ns name raws)

unfoldable pub of_traces : Json → Bytes → Bytes → Option (List Bytes) → List Trace
unfolding filter_traces
of_traces json ns name none = []
of_traces json ns name (some raws) = filter_traces json ns name raws

-- `filterJaegerToWAF`: the traces of the new body. (The rest of the envelope is passed on.)
unfoldable pub filter_jaeger_to_waf : Json → Bytes → Bytes → Bytes → List Trace
unfolding of_traces
filter_jaeger_to_waf json ns name body = of_traces json ns name (json.traces_of body)

-- A tag of the parameter `tags` that names another namespace, or another WAF.
escapes : Bytes → Bytes → Bytes × Bytes → Bool
unfolding is_either bytes_eq
escapes ns name (key, value) =
    is_either key (codes "waf.namespace") (codes "waf_namespace") && not (bytes_eq value ns)
    || is_either key (codes "waf.name") (codes "waf_name") && not (bytes_eq value name)

any_escapes : Bytes → Bytes → List (Bytes × Bytes) → Bool
unfolding escapes
any_escapes ns name [] = false
any_escapes ns name (t ∷ ts) = escapes ns name t || any_escapes ns name ts

unfoldable pub checked_tags :
    Bytes
    → Bytes
    → Option (List (Bytes × Bytes))
    → Result MappedError WafRoute
    → Result MappedError WafRoute
unfolding any_escapes status
checked_tags ns name none rest = err (status 400 "UnscopedQuery" "")
checked_tags ns name (some tags) rest =
    if any_escapes ns name tags then err (status 400 "UnscopedQuery" "") else rest

-- `scopedTraceTags`, whose result is only tested. The text of its errors is left out.
unfoldable pub scoped_trace_tags : Json → String → WafRoute → Result MappedError WafRoute
unfolding checked_tags trim_space
scoped_trace_tags json raw route =
    if is_nil (trim_space (codes raw))
    then ok route
    else checked_tags route.namespace route.name (json.members_of (codes raw)) (ok route)

abbrev pub TracesBackend : Type 0
TracesBackend = TraceCall → Result MappedError Bytes

unfoldable pub one_trace : List Trace → Result MappedError (List Trace)
unfolding status
one_trace [] = err (status 404 "NotFound" "trace not found for this WAF")
one_trace (t ∷ ts) = ok (t ∷ ts)

unfoldable pub by_trace_id : Json → TracesBackend → WafRoute → Result MappedError (List Trace)
unfolding one_trace filter_jaeger_to_waf
by_trace_id json ask route = do
  body ← ask (trace_by_id route.extra)
  one_trace (filter_jaeger_to_waf json route.namespace route.name body)

unfoldable pub by_search :
    Json → TracesBackend → ℕ → Request → WafRoute → Result MappedError (List Trace)
unfolding scoped_trace_tags parse_trace_window filter_jaeger_to_waf
by_search json ask now r route = do
  scope ← scoped_trace_tags json (r.param "tags") route
  body ← ask (search route.namespace route.name (parse_trace_window now r))
  ok (filter_jaeger_to_waf json route.namespace route.name body)

unfoldable pub traces_checks : Server → Request → Result MappedError WafRoute
unfolding authorized_route status
traces_checks s r = do
  route ← authorized_route s "traces subresource is disabled" r
  if s.has_query_backend
      then ok route
      else err (status 503 "NoTracesBackend" "traces backend is not configured")

unfoldable pub traces_reply :
    Json → TracesBackend → ℕ → Request → WafRoute → Result MappedError (List Trace)
unfolding by_trace_id by_search
traces_reply json ask now r route =
    if is_nil route.extra then by_search json ask now r route else by_trace_id json ask route

-- `handleWAFTraces`, up to the encoding of the traces.
unfoldable pub handle_waf_traces :
    Json
    → TracesBackend
    → ℕ
    → Server
    → List Bytes
    → Request
    → Gate
    → Result MappedError (List Trace) × Gate
unfolding behind_checks traces_checks in_slot traces_reply
handle_waf_traces json ask now s visit r =
    behind_checks (traces_checks s r)
      λ route. in_slot s visit route.namespace (traces_reply json ask now r route)
