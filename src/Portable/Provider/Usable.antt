-- ===== src/Portable/Provider/Usable.antt =====
-- internal/dataplane/config/build.go: a resolved provider can be attached and reached.
use kubewaf.Prelude.{
  ℕ, ◌^◌, ◌<◌, Option, none, some, [], ◌∷◌, ltb, ltb→lt, ◌==◌, if_rec, if_ind, is_nil, arith,
}
use kubewaf.Prelude.Bytes.{Bytes, codes, trim_space, trim_front}
use kubewaf.Slot.{ProviderType, istio, cilium, envoy_gateway, auto, unset}
use kubewaf.Portable.Provider.{
  at_last_colon, below_2_32, digits_from, parse_uint32, with_port, split_service, parse_host_port,
  ProviderSpec, ProviderOptions, Resolved, concrete_or, or_parsed, defaults, with_spec,
  resolve_provider,
}

-- One of the platforms.
abbrev pub IsConcrete : ProviderType → Type 0
IsConcrete auto = ⊥
IsConcrete unset = ⊥
IsConcrete _ = Unit

concrete_or-IsConcrete : (t d : ProviderType) → IsConcrete d → IsConcrete (concrete_or t d)
unfolding concrete_or
concrete_or-IsConcrete auto d h = h
concrete_or-IsConcrete unset d h = h
concrete_or-IsConcrete istio d h = tt
concrete_or-IsConcrete cilium d h = tt
concrete_or-IsConcrete envoy_gateway d h = tt

abbrev pub IsPort : ℕ → Type 0
IsPort n = n < 2 ^ 32

abbrev IsPortOption : Option ℕ → Type 0
IsPortOption none = Unit
IsPortOption (some n) = IsPort n

below-IsPort : (o : Option ℕ) → IsPortOption (below_2_32 o)
unfolding below_2_32
below-IsPort none = tt
below-IsPort (some n) = if_rec IsPortOption (ltb n (2 ^ 32)) (ltb→lt n (2 ^ 32)) (λ _. tt)

parse_uint32-IsPort : (s : Bytes) → IsPortOption (parse_uint32 s)
unfolding parse_uint32
parse_uint32-IsPort [] = tt
parse_uint32-IsPort (c ∷ s) = below-IsPort (digits_from 0 (c ∷ s))

with_port-IsPort :
    (service host : Bytes) (default : ℕ) (o : Option ℕ)
    → IsPort default
    → IsPortOption o
    → IsPort (with_port service default host o).1
unfolding with_port
with_port-IsPort service host default none h p = h
with_port-IsPort service host default (some port) h p = p

split_service-IsPort :
    (service : Bytes) (default : ℕ) (o : Option (Bytes × Bytes))
    → IsPort default
    → IsPort (split_service service default o).1
unfolding split_service
split_service-IsPort service default none h = h
split_service-IsPort service default (some ([], port)) h = h
split_service-IsPort service default (some (c ∷ host, port)) h =
    with_port-IsPort service (c ∷ host) default (parse_uint32 port) h (parse_uint32-IsPort port)

or_parsed-IsPort :
    (service : Bytes) (d : Resolved)
    → IsPort d.port
    → IsPort (or_parsed (parse_host_port service d.port) d).1
unfolding or_parsed parse_host_port
or_parsed-IsPort service d h =
    let name = trim_front (trim_front (trim_space service) (codes "https://")) (codes "http://") in
    if_ind (λ o. IsPort (or_parsed o d).1) (is_nil (trim_space service)) h
      (split_service-IsPort name d.port (at_last_colon name) h)

defaults-IsPort :
    (ns name : Bytes) (opts : ProviderOptions)
    → IsPort opts.default_ecds_port
    → IsPort (defaults ns name opts).port
unfolding defaults
defaults-IsPort ns name opts h = if_ind IsPort (opts.default_ecds_port == 0) (omega arith) h

-- Where the operator's port fits in 32 bits, a provider resolves to one of the platforms, never to none
-- or `Auto`, and its port fits in 32 bits, whatever the WAF states as its service.
pub resolve_provider_is_usable :
    (ns name : Bytes) (spec : Option ProviderSpec) (opts : ProviderOptions)
    → IsPort opts.default_ecds_port
    → let r = resolve_provider ns name spec opts in IsConcrete r.provider × IsPort r.port
unfolding resolve_provider with_spec defaults
resolve_provider_is_usable ns name none opts h =
    (concrete_or-IsConcrete opts.detected_provider envoy_gateway tt, defaults-IsPort ns name opts h)
resolve_provider_is_usable ns name (some p) opts h = (
  concrete_or-IsConcrete p.type (concrete_or opts.detected_provider envoy_gateway)
      (concrete_or-IsConcrete opts.detected_provider envoy_gateway tt),
  or_parsed-IsPort p.ecds_service (defaults ns name opts) (defaults-IsPort ns name opts h),
)
