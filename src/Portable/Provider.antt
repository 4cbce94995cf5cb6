-- ===== src/Portable/Provider.antt =====
-- internal/dataplane/config/build.go: the provider of a WAF and the address of the discovery service.
pub mod Usable
use kubewaf.Prelude.{
  ℕ, ◌+◌, ◌-◌, ◌*◌, ◌^◌, ◌<◌, ◌≡◌, ◌≢◌, refl, Bool, true, false, ◌&&◌, Option, none, some, List, [],
  ◌∷◌, leb, ltb, ◌==◌, if◌then◌else◌, if_ind, is_nil, arith,
}
use kubewaf.Prelude.Bytes.{Bytes, codes, bytes_eq, trim_space, trim_front}
use kubewaf.Slot.{ProviderType, istio, cilium, envoy_gateway, auto, unset}

-- The text before and behind the last `:`.
unfoldable pub at_last_colon : Bytes → Option (Bytes × Bytes)
at_last_colon [] = none
at_last_colon (c ∷ s) = elim (at_last_colon s) [
  | some (before, behind) ↦ some (c ∷ before, behind)
  | none ↦ if c == b':' then some ([], s) else none
]

unfoldable pub digits_from : ℕ → Bytes → Option ℕ
digits_from n [] = some n
digits_from n (c ∷ s) =
    let more = digits_from (n * 10 + (c - b'0')) s in
    if leb b'0' c && leb c b'9' then more else none

unfoldable pub below_2_32 : Option ℕ → Option ℕ
below_2_32 none = none
below_2_32 (some n) = if ltb n (2 ^ 32) then some n else none

-- `strconv.ParseUint(s, 10, 32)`
unfoldable pub parse_uint32 : Bytes → Option ℕ
unfolding digits_from below_2_32
parse_uint32 [] = none
parse_uint32 (c ∷ s) = below_2_32 (digits_from 0 (c ∷ s))

unfoldable pub with_port : Bytes → ℕ → Bytes → Option ℕ → Bytes × ℕ
with_port service default host none = (service, default)
with_port service default host (some port) = (host, port)

unfoldable pub split_service : Bytes → ℕ → Option (Bytes × Bytes) → Bytes × ℕ
unfolding with_port parse_uint32
split_service service default none = (service, default)
split_service service default (some ([], port)) = (service, default)
split_service service default (some (c ∷ host, port)) =
    with_port service default (c ∷ host) (parse_uint32 port)

-- `ParseHostPort`: nothing for the error of an empty service.
unfoldable pub parse_host_port : Bytes → ℕ → Option (Bytes × ℕ)
unfolding split_service at_last_colon trim_space trim_front
parse_host_port service default =
    if is_nil (trim_space service)
    then none
    else (let name =
          trim_front (trim_front (trim_space service) (codes "https://")) (codes "http://") in
        some (split_service name default (at_last_colon name)))

-- `WAF.spec.provider`. The types are those that the resource allows. No selector is an empty one.
pub record ProviderSpec : Type 0 where
  pub type : ProviderType
  pub ecds_cluster : Bytes
  pub ecds_service : Bytes
  pub workload_selector : List (Bytes × Bytes)
  pub istio_context : Bytes
  pub service_name : Bytes
  pub service_namespace : Bytes

-- What the operator gives for all WAFs, and what it has found out for this one.
pub record ProviderOptions : Type 0 where
  pub default_ecds_host : Bytes
  pub default_ecds_port : ℕ
  pub detected_provider : ProviderType
  pub detected_service_name : Bytes
  pub detected_service_namespace : Bytes

pub record Resolved : Type 0 where
  pub provider : ProviderType
  pub cluster : Bytes
  pub host : Bytes
  pub port : ℕ
  pub istio_selector : List (Bytes × Bytes)
  pub istio_context : Bytes
  pub cilium_service : Bytes
  pub cilium_namespace : Bytes

-- The first if it is one of the platforms, or else the second.
unfoldable pub concrete_or : ProviderType → ProviderType → ProviderType
concrete_or auto default = default
concrete_or unset default = default
concrete_or t default = t

unfoldable pub or_other : Bytes → Bytes → Bytes
or_other s default = if is_nil s then default else s

-- Before the WAF's own provider is read.
unfoldable pub defaults : Bytes → Bytes → ProviderOptions → Resolved
unfolding concrete_or or_other
defaults ns name opts = record {
  provider = concrete_or opts.detected_provider envoy_gateway;
  cluster = codes "kubewaf_ecds";
  host = opts.default_ecds_host;
  port = if opts.default_ecds_port == 0 then 18001 else opts.default_ecds_port;
  istio_selector = (codes "istio", codes "ingressgateway") ∷ [];
  istio_context = codes "GATEWAY";
  cilium_service = or_other opts.detected_service_name name;
  cilium_namespace =
      if is_nil opts.detected_service_name then ns else or_other opts.detected_service_namespace ns;
}

unfoldable pub or_parsed : Option (Bytes × ℕ) → Resolved → Bytes × ℕ
or_parsed none d = (d.host, d.port)
or_parsed (some hp) d = hp

-- An empty service fails to parse, which is ignored.
unfoldable pub with_spec : Resolved → ProviderSpec → Resolved
unfolding concrete_or or_other or_parsed parse_host_port
with_spec d p =
    let address = or_parsed (parse_host_port p.ecds_service d.port) d in
    record {
      provider = concrete_or p.type d.provider;
      cluster = or_other p.ecds_cluster d.cluster;
      host = address.0;
      port = address.1;
      istio_selector = if is_nil p.workload_selector then d.istio_selector else p.workload_selector;
      istio_context = or_other p.istio_context d.istio_context;
      cilium_service = or_other p.service_name d.cilium_service;
      cilium_namespace = or_other p.service_namespace d.cilium_namespace;
    }

-- `resolveProvider` for a WAF at a namespace and a name.
unfoldable pub resolve_provider : Bytes → Bytes → Option ProviderSpec → ProviderOptions → Resolved
unfolding defaults with_spec
resolve_provider ns name none opts = defaults ns name opts
resolve_provider ns name (some p) opts = with_spec (defaults ns name opts) p
