-- ===== src/Server/Query/Scoped.antt =====
-- internal/subresourceapi/query.go: a query that reaches the metrics backend is authorized and scoped.
use kubewaf.Prelude.{◌≡◌, none, List, All}
use kubewaf.Prelude.Bytes.{Bytes}
use kubewaf.Prelude.Result.{Result, ok, err, Returns}
use kubewaf.Promql.Matcher.{WafIdentity}
use kubewaf.Promql.Rewrite.Walk.{IsScopedUnion}
use kubewaf.Server.Errors.{MappedError}
use kubewaf.Server.Routes.{WafRoute, waf}
use kubewaf.Server.Access.{Identity, authenticate}
use kubewaf.Server.Gate.{Gate}
use kubewaf.Server.Query.{Request, Server, MetricsCall, query_of, behind_checks}
use kubewaf.Server.Query.Safety.{text_of, IsAuthorized, IsCaller}

-- Behind the checks, what holds of the rest holds of the handler.
pub behind_checks-Returns :
    {A B : Type 0} (P : A → Type 0) (Q : B → Type 0) (checks : Result MappedError A)
    (rest : A → Gate → Result MappedError B × Gate) (g : Gate)
    → Returns P checks
    → ((a : A) → P a → Returns Q (rest a g).0)
    → Returns Q (behind_checks checks rest g).0
unfolding behind_checks
behind_checks-Returns P Q (err e) rest g h k = tt
behind_checks-Returns P Q (ok a) rest g h k = k a h

module _ (s : Server) (r : Request) where
  Checked : WafRoute × Bytes → Type 0
  Checked (route, q) = IsAuthorized s r route × (query_of r ≡ ok q)

-- The WAFs of a list that the caller may get.
module _ (s : Server) (who : Identity) where
  abbrev pub MayGet : WafIdentity → Type 0
  MayGet id = s.sar who waf id.namespace id.name ≡ none

-- A metrics query over the cluster: what is asked is the query of the request, scoped to WAFs each of which
-- the caller may get.
pub record IsSafeUnion (s : Server) (r : Request) (call : MetricsCall) : Type 0 where
  pub who : Identity
  pub query : Bytes
  pub ids : List WafIdentity
  pub is_caller : authenticate s.config r.caller ≡ ok who
  pub is_query : query_of r ≡ ok query
  pub are_allowed : All (MayGet s who) ids
  pub is_scoped : IsScopedUnion ids query (text_of call)

module _ (s : Server) (r : Request) where
  CallerChecked : Identity × Bytes → Type 0
  CallerChecked (who, q) = IsCaller s r who × (query_of r ≡ ok q)
