-- ===== src/Server/Query/Safety.antt =====
-- internal/subresourceapi/query.go: what reaches the metrics backend.
use kubewaf.Prelude.{
  ◌≡◌, refl, sym, ◌∙◌, ap, String, Bool, true, false, ◌||◌, not, Option, none, some, List, [], ◌∷◌,
  if_ind, is_nil,
}
use kubewaf.Prelude.Bytes.{Bytes, codes}
use kubewaf.Prelude.Result.{
  Result, ok, err, ◌>>=◌, Returns, yields_itself, bind-Returns, weaken-Returns,
}
use kubewaf.Promql.Scan.{Error}
use kubewaf.Promql.Grammar.{IsScoped}
use kubewaf.Server.Errors.{MappedError, PathError}
use kubewaf.Server.Routes.{WafRoute, waf, parse_waf_subresource_path}
use kubewaf.Server.Access.{Identity, authenticate}
use kubewaf.Server.Gate.{Gate, acquire_query_slot}
use kubewaf.Server.Query.{
  is_read, with_status, unless, valid_range, Request, Server, MetricsCall, instant_query,
  range_query, admitted, routed_to, allowed, authorized_route, query_of, scoped, proxy_metrics,
  range_call, with_slot, in_slot,
}

-- The query that is asked.
abbrev pub text_of : MetricsCall → Bytes
text_of (instant_query q) = q
text_of (range_query q start end step) = q

-- A caller that is authenticated and may get the WAF that the path names.
pub record IsAuthorized (s : Server) (r : Request) (route : WafRoute) : Type 0 where
  pub who : Identity
  pub is_caller : authenticate s.config r.caller ≡ ok who
  pub is_route : parse_waf_subresource_path r.path ≡ ok route
  pub is_allowed : s.sar who waf route.namespace route.name ≡ none

module _ (s : Server) (r : Request) where
  abbrev pub IsCaller : Identity → Type 0
  IsCaller who = authenticate s.config r.caller ≡ ok who

  abbrev IsRoute : WafRoute → Type 0
  IsRoute route = parse_waf_subresource_path r.path ≡ ok route

  pub admitted-Returns : (why : String) → Returns IsCaller (admitted s why r)
  unfolding admitted
  admitted-Returns why = if_ind (Returns IsCaller) (not (is_read r.method)) tt (
      if_ind (Returns IsCaller) (not s.enable_query) tt
        (yields_itself (authenticate s.config r.caller)))

  routed_to-Returns : Returns IsRoute (routed_to r)
  unfolding routed_to with_status
  routed_to-Returns = by_result (parse_waf_subresource_path r.path)
    where
      by_result : (p : Result PathError WafRoute) → Returns (λ route. p ≡ ok route) (with_status p)
      by_result (ok route) = refl
      by_result (err e) = tt

  allowed-Returns :
      (who : Identity) (route : WafRoute)
      → IsCaller who
      → IsRoute route
      → Returns (IsAuthorized s r) (allowed s who route)
  unfolding allowed unless
  allowed-Returns who route is_caller is_route =
      by_answer (s.sar who waf route.namespace route.name) refl
    where
      by_answer :
          (o : Option MappedError)
          → s.sar who waf route.namespace route.name ≡ o
          → Returns (IsAuthorized s r) (unless o route)
      by_answer (some e) h = tt
      by_answer none h = record {
        who = who;
        is_caller = is_caller;
        is_route = is_route;
        is_allowed = h;
      }

  pub authorized_route-Returns :
      (why : String) → Returns (IsAuthorized s r) (authorized_route s why r)
  unfolding authorized_route
  authorized_route-Returns why =
      bind-Returns IsCaller (IsAuthorized s r) (admitted s why r) _ (admitted-Returns why)
        λ who is_caller.
          bind-Returns IsRoute (IsAuthorized s r) (routed_to r) _ routed_to-Returns
            λ route is_route. allowed-Returns who route is_caller is_route

  -- The backend is asked the text that it is given.
  proxy_metrics-Returns : (q : Bytes) → Returns (λ call. text_of call ≡ q) (proxy_metrics s r q)
  unfolding proxy_metrics range_call valid_range
  proxy_metrics-Returns q = if_ind (Returns Asks) (not s.has_query_backend) tt (
      if_ind (Returns Asks)
        (not (is_nil (param "start")) || not (is_nil (param "end")) || not (is_nil (param "step")))
        (if_ind (Returns Asks)
          (is_nil (param "start") || is_nil (param "end") || is_nil (param "step")) tt
          (in_range (s.validate_query_range (param "start") (param "end") (param "step"))))
        refl)
    where
      Asks : MetricsCall → Type 0
      Asks call = text_of call ≡ q

      param : String → Bytes
      param name = codes (r.param name)

      in_range :
          (o : Option Bytes)
          → Returns Asks
              (valid_range o (range_query q (param "start") (param "end") (param "step")))
      in_range none = refl
      in_range (some why) = tt

  scoped-Returns : (t : Result Error Bytes) → Returns (λ q. t ≡ ok q) (scoped t)
  unfolding scoped
  scoped-Returns (ok q) = refl
  scoped-Returns (err e) = tt

  -- What is asked behind a scoping is the scoped query.
  pub asked-Returns :
      (t : Result Error Bytes)
      → Returns (λ call. t ≡ ok (text_of call)) (do text ← scoped t; proxy_metrics s r text)
  asked-Returns t =
      bind-Returns (λ q. t ≡ ok q) (λ call. t ≡ ok (text_of call)) (scoped t) _ (scoped-Returns t)
        λ q is_text.
          weaken-Returns (λ call. text_of call ≡ q) (λ call. t ≡ ok (text_of call))
            (proxy_metrics s r q) (λ call same. is_text ∙ ap ok (sym same))
            (proxy_metrics-Returns q)

-- The value of a handler, whatever its slot did.
pub in_slot-Returns :
    {A : Type 0} (P : A → Type 0) (s : Server) (visit : List Bytes) (ns : Bytes)
    (rest : Result MappedError A) (g : Gate)
    → Returns P rest
    → Returns P (in_slot s visit ns rest g).0
unfolding in_slot
in_slot-Returns P s visit ns rest g h = by_slot (acquire_query_slot s.limits visit ns g)
  where
    by_slot : (o : Bool × Gate) → Returns P (with_slot ns rest o).0
    by_slot (true, g') = h
    by_slot (false, g') = tt

-- A metrics query for one WAF: what is asked is the request's query, with its selectors scoped to the WAF
-- of the path, which the caller may get.
pub record IsSafeCall (s : Server) (r : Request) (call : MetricsCall) : Type 0 where
  pub route : WafRoute
  pub query : Bytes
  pub authorized : IsAuthorized s r route
  pub is_query : query_of r ≡ ok query
  pub is_scoped :
      IsScoped (record { namespace = route.namespace; name = route.name } ∷ []) query (text_of call)
