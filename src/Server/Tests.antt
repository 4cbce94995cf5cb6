-- ===== src/Server/Tests.antt =====
-- Runs of the server's handlers and gates.
use kubewaf.Prelude.{
  ◌≡◌, ◌≤◌, refl, String, true, none, some, List, [], ◌∷◌, if◌then◌else◌, str_eq, arith, ◌*◌, ◌+◌,
  ◌^◌, inr,
}
use kubewaf.Prelude.Bytes.{Bytes, codes, bytes_eq, join}
use kubewaf.Prelude.Result.{ok, err}
use kubewaf.Server.Routes.{
  traces, parse_waf_subresource_path, parse_probe_path, is_probe_subresource_path,
  is_cluster_metrics_path, ParentKind, slash,
}
use kubewaf.Server.Routes.RoundTrip.{parse_waf_subresource_path-round_trip}
use kubewaf.Server.Gate.{Gate, Limits, capacity, acquire_query_slot}
use kubewaf.Server.Gate.Counts.{total}
use kubewaf.Server.Gate.Restore.{SameTokens, ended, acquire_query_slot-SameTokens}
use kubewaf.Server.Gate.Flight.{Event, arrive, look, send_token, run, idle_world, running}
use kubewaf.Server.Gate.Flight.Bounds.{IsBounded, run-IsBounded}
use kubewaf.Server.Gate.Flight.PerNamespace.{
  Visit, admit, finish, serve, runs_in, serve_runs_bounded,
}
use kubewaf.Server.Access.{AuthConfig, auth_request_header, Caller, SarAuthorizer}
use kubewaf.Server.Query.{Request, Server, handle_waf_metrics}
use kubewaf.Server.Window.{parse_trace_window, parse_trace_window-bounds, hour_us}
use kubewaf.Server.Traces.{Trace, Json, TracesBackend, handle_waf_traces}
use kubewaf.Server.Traces.Own.{IsOwnReply, handle_waf_traces-IsOwnReply}

abbrev limits : Limits
limits = record { global_max = 2; per_namespace = 1 }

abbrev caller : Caller
caller = record {
  peer_certificates = record { common_name = codes "front-proxy"; dns_names = [] } ∷ [];
  remote_user = codes "jane";
  remote_groups = [];
}

abbrev config : AuthConfig
config = record {
  auth = auth_request_header;
  dev_user = [];
  require_peer_cert = none;
  request_header_allowed_names = codes "front-proxy" ∷ [];
}

-- The user may get the WAFs of the namespace `a`.
abbrev only_a : SarAuthorizer
only_a who kind ns name =
    if bytes_eq ns (codes "a")
    then none
    else some (record { http_status = 403; reason = "Forbidden"; message = [] })

abbrev server : Server
server = record {
  config = config;
  enable_query = true;
  limits = limits;
  sar = only_a;
  has_query_backend = true;
  list_wafs = ok (
      record { namespace = codes "a"; name = codes "w" }
      ∷ record { namespace = codes "b"; name = codes "x" }
      ∷ []);
  validate_query_range = λ start end step. none;
}

abbrev asks : String → String → Request
asks path query = record {
  method = "GET";
  path = codes path;
  caller = caller;
  param = λ key. if str_eq key "query" then query else "";
}

abbrev metrics_path : String
metrics_path = "/apis/subresources.kubewaf.io/v1alpha1/namespaces/a/wafs/w/metrics"

abbrev empty_gate : Gate
empty_gate = record { global = 0; channels = []; entries = [] }

abbrev scoped_up : Bytes
scoped_up = codes "up{waf_namespace=\"a\",waf_name=\"w\"}"

forbids_other :
    (handle_waf_metrics server []
      (asks "/apis/subresources.kubewaf.io/v1alpha1/namespaces/b/wafs/x/metrics" "up")
      empty_gate).0
    ≡ err (record { http_status = 403; reason = "Forbidden"; message = [] })
unfolding handle_waf_metrics
forbids_other = refl

-- A body is one trace of two spans, of two processes, the second of another WAF.
abbrev json : Json
json = record {
  traces_of = λ body. some (codes "trace" ∷ []);
  trace_of = λ raw. some (record {
    processes = (codes "p1", codes "w") ∷ (codes "p2", codes "x") ∷ [];
    spans = codes "p1" ∷ codes "p2" ∷ [];
  });
  tags_of = λ raw. some (
      record { key = codes "waf.namespace"; value = codes "a" }
      ∷ record { key = codes "waf_name"; value = raw }
      ∷ []);
  process_id_of = λ raw. raw;
  members_of = λ raw. none;
}

abbrev traces_backend : TracesBackend
traces_backend call = ok []

abbrev traces_path : String
traces_path = "/apis/subresources.kubewaf.io/v1alpha1/namespaces/a/wafs/w/traces/7f"

abbrev kept_trace : Trace
kept_trace = record { processes = (codes "p1", codes "w") ∷ []; spans = codes "p1" ∷ [] }

handle_waf_traces-IsOwnReply_example :
    IsOwnReply json traces_backend server (asks traces_path "") (kept_trace ∷ [])
unfolding handle_waf_traces
handle_waf_traces-IsOwnReply_example =
    handle_waf_traces-IsOwnReply json traces_backend 0 server (asks traces_path "") [] empty_gate
      (kept_trace ∷ []) refl

abbrev race : List Event
race =
    arrive (codes "a")
    ∷ arrive (codes "a")
    ∷ arrive (codes "b")
    ∷ look 0 []
    ∷ look 1 []
    ∷ send_token 0
    ∷ send_token 1
    ∷ []

second_refused : (run limits race idle_world).requests ≡ running (codes "a") 0 ∷ []
unfolding run
second_refused = refl

run-IsBounded_example : IsBounded limits (run limits race idle_world)
run-IsBounded_example = run-IsBounded limits race

abbrev visits : List Visit
visits = admit [] (codes "a") ∷ admit [] (codes "a") ∷ finish 0 ∷ admit [] (codes "a") ∷ []

serve_runs_bounded_example :
    total (runs_in (codes "a")) (serve limits visits idle_world).requests ≤ capacity limits
serve_runs_bounded_example = serve_runs_bounded limits visits (codes "a")

acquire_query_slot-SameTokens_example :
    SameTokens empty_gate (ended (codes "a") (acquire_query_slot limits [] (codes "a") empty_gate))
acquire_query_slot-SameTokens_example =
    acquire_query_slot-SameTokens limits [] (codes "a") empty_gate
      (record { in_range = tt; entries_le = omega arith })

parse_waf_subresource_path-round_trip_example :
    parse_waf_subresource_path
      (codes "/apis/subresources.kubewaf.io/v1alpha1/namespaces/a/wafs/w/traces/7f/")
    ≡ ok (record {
      namespace = codes "a";
      name = codes "w";
      subresource = traces;
      extra = join (codes "7f" ∷ []) (slash ∷ []);
    })
unfolding join
parse_waf_subresource_path-round_trip_example =
    parse_waf_subresource_path-round_trip (codes "a") (codes "w") traces (codes "7f" ∷ []) _
      (refl, (refl, tt)) (refl, (refl, tt)) ((refl, (refl, (refl, tt))), tt) (inr refl)

parse_trace_window-bounds_example :
    let w = parse_trace_window (10 ^ 15) (asks traces_path "") in
    (1 ≤ w.limit) × (w.limit ≤ 200) × (w.end_us ≤ w.start_us + 24 * hour_us)
parse_trace_window-bounds_example = parse_trace_window-bounds (10 ^ 15) (asks traces_path "")

probe_path :
    parse_probe_path
      (codes "/apis/subresources.kubewaf.io/v1alpha1/namespaces/a/secrules/r/probes/http/search/")
      []
    ≡ ok (record {
      parent_kind = ParentKind.sec_rule;
      namespace = codes "a";
      name = codes "r";
      app_path = codes "/search/";
      raw_query = [];
    })
unfolding parse_probe_path
probe_path = refl

cluster_path :
    is_cluster_metrics_path (codes "/apis/subresources.kubewaf.io/v1alpha1/clustermetrics/") ≡ true
unfolding is_cluster_metrics_path
cluster_path = refl

probes_path : is_probe_subresource_path (codes "/namespaces/a/wafs/w/probes") ≡ true
unfolding is_probe_subresource_path
probes_path = refl
