-- ===== src/Lib.antt =====
-- A model of kubeWAF (Go) and the theorems that make its core correct. kubeWAF is a Kubernetes
-- operator: custom resources describe firewall rules in the SecLang language, controllers give the
-- rules their ids, a resolver collects the rules of a WAF, the assembly writes them as one document for
-- the data plane (or for a probe), and a subresource API serves the metrics of one WAF from a shared
-- Prometheus.
--
-- Prelude: what the modules share. Go strings are lists of bytes (Prelude.Bytes), `(value, error)`
--   pairs are Prelude.Result, code that calls the API server is Prelude.State, and Prelude.Order,
--   Prelude.Sort and Prelude.SortUnique are `<` on strings and sort.SliceStable.
-- Api: the records of api/seclang/v1beta1 (SecRule, SecAction) with `IsSingleRuleForm`, and
--   strconv.Atoi as the id allocation uses it.
-- Promql: internal/subresourceapi/promql_scope.go. Scan has the readers (`readSelector`, `skipBracket`,
--   `skipParen`, `skipQuoted`, `skipNumber`, `readIdent`), Matcher the label matchers, Scope
--   `injectIdentity`, Names the tables of words, Selectors the rewriting of one selector or one call,
--   and Rewrite the walk and its two entry points. Grammar says apart from the walk what a scoped query
--   is, and Post is the predicate on results that the proofs use.
-- IdPool: internal/controller/seclang/id_pool.go. Pool has the pool object and the choice of an id,
--   Allocate the calls of the API server (`ensureClusterIDPool`, `collectUsedIDs`, `allocateOne`), and
--   Assign the ids of one SecRule (`allocateIDs`, `resolveOneID`). Apply is
--   internal/probeassemble/assigned_ids.go, which fills those ids in.
-- Assembly: Crs and Document are internal/probeassemble/preamble.go and assemble.go, ConfigCrs and
--   Directives are from internal/dataplane/config/build.go, Order is the order of
--   internal/references2/helpers.go and PathB the copy of it in internal/probeassemble/pathb.go, RenderIds
--   is the copy of `ApplyAssignedIDs` in internal/seclang/render.go, and Resolved puts them together
--   (`GetSecLang`, `RenderSecRule`, `AssembleResolved`), with the conversion of a rule as a parameter.
-- References: internal/references2/resolver.go without locks, on one snapshot of the cluster.
-- Server: internal/subresourceapi apart from promql_scope.go. Errors is errors.go, Routes the parsers
--   of paths (wafpath.go, passthrough.go), Access the authentication and the access reviews (server.go,
--   sar.go), Gate the semaphores of server.go and the query slots, Gate.Flight the requests that pass
--   them as steps in any order, Query the handlers `handleWAFMetrics` and `handleClusterMetrics` of
--   query.go up to the call of the backend, Window and Traces `handleWAFTraces`. The handlers use
--   Promql to scope their queries.
-- Convert: api/seclang/v1beta1/convert, from the API to the types of crslang. Crslang is the interface
--   of that library, of the copier and of the generated mappers; Transformations is
--   transformations.go, Actions is actions.go, and Rule, Chain and Legacy are secrule.go. A chain of
--   rules, linked by pointers in the source, is the list of its links.
-- Slot: internal/dataplane/slot/registry.go, over any adapters, run in tests.
-- Portable: what internal/dataplane/config/build.go makes of a WAF for the data plane, apart from its
--   directives. Labels are the labels of its metrics in `buildWAFPluginJSON`, Provider is
--   `resolveProvider` with `ParseHostPort`, and Filters the filters of `BuildFromWAF` and
--   `buildChallengeFilter` with their names. A map of Go is a list of pairs, or a function where it
--   is only read.
-- DataFiles: internal/probeassemble/scan.go and datafiles.go. Scan finds the files that operators such as
--   @pmFromFile name, Resolve is `ResolveDataFiles` over any provider of bodies, which drops the lines
--   of files that it cannot find if the policy lets it, and Lists is the provider that reads the lists
--   of the cluster, `ClientListProvider`.
--
-- Bounds. The walk of Promql.Rewrite takes as much fuel as the query has bytes. allocateOne makes 32
-- attempts, as in the source. The expansion of references takes the depth of nesting as fuel; the
-- source has no bound there, and a depth that RuleSets strictly descend in is enough. Ids, bounds and
-- cursors are 64-bit ints that stay far below their limit; a negative one is 0 in the model, as the
-- code only asks whether it is above 0. Decimal printing takes 20 digits, which 64 bits never exceed.
-- strconv.Quote is written out for text in ASCII, which the names of Kubernetes are in.
-- The times of a trace window are not negative and their difference fits in 64 bits.
--
-- Parameters. The API server (IdPool.Allocate.Client, References.Cluster) may answer anything, errors
-- included; what a theorem assumes of it is among its hypotheses. The label selectors of Kubernetes are
-- part of the cluster. The backends of metrics and traces, the reading of JSON, the access review and
-- the check of a range of floating-point times are parameters of Server; the matches of the regular
-- expression for file names and the text functions around it are parameters of DataFiles. The name
-- that crslang gives to an action is among the hypotheses.
--
-- Not modelled: the way back from CRS rules and the text of directives
-- (api/seclang/v1beta1/convert), the phrase files of the data plane,
-- telemetry and the block page, the rest of internal/dataplane, the controllers apart from the id pool,
-- the webhooks, the handlers of probes, directives and discovery, the calls of Coraza, the download of
-- Wasm modules, and the commands, charts and manifests.
pub mod Prelude
pub mod Api
pub mod IdPool
pub mod Promql
pub mod Assembly
pub mod References
pub mod Server
pub mod Convert
pub mod Slot
pub mod Portable
pub mod DataFiles
