-- ===== src/Server/Traces/Own.antt =====
-- internal/subresourceapi/query.go: a reply of the traces handler holds spans of the WAF alone.
use kubewaf.Prelude.{
  ◌≡◌, refl, true, ◌||◌, Option, none, some, List, [], ◌∷◌, ◌⊎◌, inl, inr, if_ind, if_rec, All, Any,
  is_nil, ℕ, or_cases,
}
use kubewaf.Prelude.Bytes.{Bytes, bytes_eq, mem}
use kubewaf.Prelude.Result.{
  ok, Returns, returned_value, yields_itself, bind-Returns, weaken-Returns,
}
use kubewaf.Server.Routes.{WafRoute}
use kubewaf.Server.Window.{Window, parse_trace_window}
use kubewaf.Server.Gate.{Gate}
use kubewaf.Server.Query.{Request, Server, authorized_route}
use kubewaf.Server.Query.Safety.{IsAuthorized, authorized_route-Returns, in_slot-Returns}
use kubewaf.Server.Query.Scoped.{behind_checks-Returns}
use kubewaf.Server.Traces.{
  Trace, Json, TraceCall, trace_by_id, search, raw_matches_waf, kept_processes, kept_spans,
  filter_trace, prepend, decoded_and_filtered, filter_traces, of_traces, filter_jaeger_to_waf,
  TracesBackend, by_trace_id, by_search, one_trace, scoped_trace_tags, traces_checks, traces_reply,
  handle_waf_traces,
}

module _ (json : Json) (ns name body : Bytes) where
  -- The tags of the process say so.
  abbrev pub IsOwnProcess : Bytes → Bytes × Bytes → Type 0
  IsOwnProcess pid (id, p) = (bytes_eq pid id ≡ true) × (raw_matches_waf json ns name p ≡ true)

  -- The span's own tags name the WAF, or those of its process do.
  abbrev pub BelongsTo : Trace → Bytes → Type 0
  BelongsTo t sp =
      (raw_matches_waf json ns name sp ≡ true)
      ⊎ Any (IsOwnProcess (json.process_id_of sp)) t.processes

  -- One of the raw traces of the body.
  abbrev pub IsListed : Bytes → Type 0
  IsListed raw = (raws : List Bytes) × (json.traces_of body ≡ some raws) × Any (λ x. x ≡ raw) raws

  -- A trace of the reply is one of the body, with spans of that trace that belong to the WAF.
  pub record IsOwn (u : Trace) : Type 0 where
    pub raw : Bytes
    pub trace : Trace
    pub is_listed : IsListed raw
    pub is_decoded : json.trace_of raw ≡ some trace
    pub belong : All (λ sp. BelongsTo trace sp × Any (λ x. x ≡ sp) trace.spans) u.spans

  own_process :
      (pid : Bytes) (ps : List (Bytes × Bytes))
      → mem pid (kept_processes json ns name ps) ≡ true
      → Any (IsOwnProcess pid) ps
  unfolding kept_processes mem
  own_process pid [] = λ h. cc
  own_process pid ((id, p) ∷ ps) =
      if_rec (λ ids. mem pid ids ≡ true → Any (IsOwnProcess pid) ((id, p) ∷ ps))
        (raw_matches_waf json ns name p)
        (λ matches h.
          first matches (own_process pid ps)
            (or_cases (bytes_eq pid id) (mem pid (kept_processes json ns name ps)) h))
        (λ _ h. inr (own_process pid ps h))
    where
      first :
          raw_matches_waf json ns name p ≡ true
          → (mem pid (kept_processes json ns name ps) ≡ true → Any (IsOwnProcess pid) ps)
          → (bytes_eq pid id ≡ true) ⊎ (mem pid (kept_processes json ns name ps) ≡ true)
          → Any (IsOwnProcess pid) ((id, p) ∷ ps)
      first matches rest (inl same) = inl (same, matches)
      first matches rest (inr later) = inr (rest later)

  kept-BelongsTo :
      (t : Trace) (sps : List Bytes)
      → ((sp : Bytes) → Any (λ x. x ≡ sp) sps → Any (λ x. x ≡ sp) t.spans)
      → All
          (λ sp. BelongsTo t sp × Any (λ x. x ≡ sp) t.spans)
          (kept_spans json ns name (kept_processes json ns name t.processes) sps)
  unfolding kept_spans
  kept-BelongsTo t [] own = tt
  kept-BelongsTo t (sp ∷ sps) own =
      let rest = kept-BelongsTo t sps (λ x h. own x (inr h)) in
      if_rec (All (λ sp. BelongsTo t sp × Any (λ x. x ≡ sp) t.spans))
        (mem (json.process_id_of sp) (kept_processes json ns name t.processes)
          || raw_matches_waf json ns name sp)
        (λ h. (
          (
            belongs (
                or_cases (mem (json.process_id_of sp) (kept_processes json ns name t.processes))
                  (raw_matches_waf json ns name sp) h),
            own sp (inl refl),
          ),
          rest,
        ))
        (λ _. rest)
    where
      belongs :
          (mem (json.process_id_of sp) (kept_processes json ns name t.processes) ≡ true)
            ⊎ (raw_matches_waf json ns name sp ≡ true)
          → BelongsTo t sp
      belongs (inl by_process) = inr (own_process (json.process_id_of sp) t.processes by_process)
      belongs (inr by_tags) = inl by_tags

  abbrev OwnOption : Option Trace → Type 0
  OwnOption none = Unit
  OwnOption (some u) = IsOwn u

  filtered-IsOwn :
      (raw : Bytes)
      → IsListed raw
      → OwnOption (decoded_and_filtered json ns name (json.trace_of raw))
  unfolding decoded_and_filtered filter_trace
  filtered-IsOwn raw listed = by_decoding (json.trace_of raw) refl
    where
      by_decoding :
          (o : Option Trace)
          → json.trace_of raw ≡ o
          → OwnOption (decoded_and_filtered json ns name o)
      by_decoding none e = tt
      by_decoding (some t) e =
          if_ind OwnOption
            (is_nil (kept_spans json ns name (kept_processes json ns name t.processes) t.spans)) tt
            (record {
              raw = raw;
              trace = t;
              is_listed = listed;
              is_decoded = e;
              belong = kept-BelongsTo t t.spans (λ sp h. h);
            })

  prepend-IsOwn :
      (o : Option Trace) (us : List Trace) → OwnOption o → All IsOwn us → All IsOwn (prepend o us)
  unfolding prepend
  prepend-IsOwn none us h hs = hs
  prepend-IsOwn (some u) us h hs = (h, hs)

  filter_traces-IsOwn :
      (raws : List Bytes) → All IsListed raws → All IsOwn (filter_traces json ns name raws)
  unfolding filter_traces
  filter_traces-IsOwn [] _ = tt
  filter_traces-IsOwn (raw ∷ raws) (listed, more) =
      prepend-IsOwn (decoded_and_filtered json ns name (json.trace_of raw))
        (filter_traces json ns name raws) (filtered-IsOwn raw listed)
        (filter_traces-IsOwn raws more)

  each :
      (P : Bytes → Type 0) (xs : List Bytes) → ((x : Bytes) → Any (λ y. y ≡ x) xs → P x) → All P xs
  each P [] f = tt
  each P (x ∷ xs) f = (f x (inl refl), each P xs (λ y h. f y (inr h)))

  filter_jaeger_to_waf-IsOwn : All IsOwn (filter_jaeger_to_waf json ns name body)
  unfolding filter_jaeger_to_waf of_traces
  filter_jaeger_to_waf-IsOwn = by_data (json.traces_of body) refl
    where
      by_data :
          (o : Option (List Bytes)) → json.traces_of body ≡ o → All IsOwn (of_traces json ns name o)
      by_data none e = tt
      by_data (some raws) e = filter_traces-IsOwn raws (each IsListed raws (λ raw h. (raws, e, h)))

-- A question to the backend for a route: the trace that the path names, or a search for the WAF.
pub data IsAsked (route : WafRoute) (call : TraceCall) : Type 0 where
  by_id : call ≡ trace_by_id route.extra → IsAsked route call
  searched : (w : Window) → call ≡ search route.namespace route.name w → IsAsked route call

-- The traces are from the backend's answer to such a question.
pub record IsAnswer (json : Json) (ask : TracesBackend) (route : WafRoute) (us : List Trace)
    : Type 0 where
  pub call : TraceCall
  pub body : Bytes
  pub is_asked : IsAsked route call
  pub is_answered : ask call ≡ ok body
  pub own : All (IsOwn json route.namespace route.name body) us

-- What a reply of traces is for: a caller that is authenticated and may get the WAF of the path.
pub record IsOwnReply (json : Json) (ask : TracesBackend) (s : Server) (r : Request)
    (us : List Trace) : Type 0 where
  pub route : WafRoute
  pub authorized : IsAuthorized s r route
  pub answer : IsAnswer json ask route us

module _ (json : Json) (ask : TracesBackend) (now : ℕ) (s : Server) (r : Request) where
  traces_checks-Returns : Returns (IsAuthorized s r) (traces_checks s r)
  unfolding traces_checks
  traces_checks-Returns =
      bind-Returns (IsAuthorized s r) (IsAuthorized s r)
        (authorized_route s "traces subresource is disabled" r) _
        (authorized_route-Returns s r "traces subresource is disabled")
        λ route h. if_ind (Returns (IsAuthorized s r)) s.has_query_backend h tt

  by_trace_id-Returns :
      (route : WafRoute) → Returns (IsAnswer json ask route) (by_trace_id json ask route)
  unfolding by_trace_id one_trace
  by_trace_id-Returns route =
      bind-Returns (λ body. ask (trace_by_id route.extra) ≡ ok body) (IsAnswer json ask route)
        (ask (trace_by_id route.extra)) _ (yields_itself (ask (trace_by_id route.extra)))
        λ body answered.
          not_empty (filter_jaeger_to_waf json route.namespace route.name body) (record {
            call = trace_by_id route.extra;
            body = body;
            is_asked = by_id refl;
            is_answered = answered;
            own = filter_jaeger_to_waf-IsOwn json route.namespace route.name body;
          })
    where
      not_empty :
          (us : List Trace)
          → IsAnswer json ask route us
          → Returns (IsAnswer json ask route) (one_trace us)
      not_empty [] _ = tt
      not_empty (u ∷ us) h = h

  by_search-Returns :
      (route : WafRoute) → Returns (IsAnswer json ask route) (by_search json ask now r route)
  unfolding by_search
  by_search-Returns route =
      let question = search route.namespace route.name (parse_trace_window now r) in
      bind-Returns (λ scope. scoped_trace_tags json (r.param "tags") route ≡ ok scope)
        (IsAnswer json ask route) (scoped_trace_tags json (r.param "tags") route) _
        (yields_itself (scoped_trace_tags json (r.param "tags") route))
        λ scope _.
          bind-Returns (λ body. ask question ≡ ok body) (IsAnswer json ask route) (ask question) _
            (yields_itself (ask question))
            λ body answered. record {
              call = question;
              body = body;
              is_asked = searched (parse_trace_window now r) refl;
              is_answered = answered;
              own = filter_jaeger_to_waf-IsOwn json route.namespace route.name body;
            }

  traces_reply-Returns :
      (route : WafRoute)
      → IsAuthorized s r route
      → Returns (IsOwnReply json ask s r) (traces_reply json ask now r route)
  unfolding traces_reply
  traces_reply-Returns route h =
      weaken-Returns (IsAnswer json ask route) (IsOwnReply json ask s r)
        (traces_reply json ask now r route)
        (λ us own. record { route = route; authorized = h; answer = own })
        (if_ind (Returns (IsAnswer json ask route)) (is_nil route.extra) (by_search-Returns route)
          (by_trace_id-Returns route))

  -- The traces handler replies only to a caller that is authenticated and may get the WAF that the path
  -- names, and then each trace of the reply is one of the backend's answer for that WAF, or for the trace
  -- that the path names, with only spans of it whose tags, or the tags of whose process, name the WAF.
  pub handle_waf_traces-IsOwnReply :
      (visit : List Bytes) (g : Gate) (us : List Trace)
      → (handle_waf_traces json ask now s visit r g).0 ≡ ok us
      → IsOwnReply json ask s r us
  unfolding handle_waf_traces
  handle_waf_traces-IsOwnReply visit g us e = returned_value (IsOwnReply json ask s r) _ us e (
      behind_checks-Returns (IsAuthorized s r) (IsOwnReply json ask s r) (traces_checks s r) _ g
        traces_checks-Returns
        λ route h.
          in_slot-Returns (IsOwnReply json ask s r) s visit route.namespace
            (traces_reply json ask now r route) g (traces_reply-Returns route h))
