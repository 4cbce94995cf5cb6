-- ===== src/Portable/Tests.antt =====
-- Portable configurations of a WAF at concrete inputs.
use kubewaf.Prelude.{◌≡◌, refl, true, none, some, List, [], ◌∷◌, arith}
use kubewaf.Prelude.Bytes.{Bytes, codes, bytes_eq}
use kubewaf.Prelude.Result.{ok, err}
use kubewaf.Slot.{cilium, unset}
use kubewaf.Portable.Labels.{Labels, lookup, metric_labels}
use kubewaf.Portable.Labels.Pinned.{metric_labels_pinned}
use kubewaf.Portable.Provider.{ProviderSpec, ProviderOptions, resolve_provider, parse_host_port}
use kubewaf.Portable.Provider.Usable.{IsConcrete, IsPort, resolve_provider_is_usable}
use kubewaf.Portable.Filters.{
  ChallengeSpec, FilterOptions, PortableFilter, ModuleId, mod_security, challenge, build_filters,
  challenge_filter, engine_filter, all_extension_names, challenge_secret_too_short,
}
use kubewaf.Portable.Filters.Loadable.{IsFilterChain, names_of, build_filters-IsFilterChain}

-- A tenant that states another WAF's name, and a label of its own.
abbrev tenant_labels : Labels
tenant_labels = (codes "waf_name", codes "other") ∷ (codes "team", codes "red") ∷ []

metric_labels_pinned_example :
    (lookup (codes "waf_namespace") (metric_labels (codes "a") (codes "w") tenant_labels)
      ≡ some (codes "a"))
    × (lookup (codes "waf_name") (metric_labels (codes "a") (codes "w") tenant_labels)
        ≡ some (codes "w"))
    × (lookup (codes "team") (metric_labels (codes "a") (codes "w") tenant_labels)
        ≡ lookup (codes "team") tenant_labels)
unfolding bytes_eq
metric_labels_pinned_example =
    metric_labels_pinned (codes "a") (codes "w") tenant_labels (codes "team")
      (refl, (refl, (refl, (refl, tt))))

abbrev provider : ProviderSpec
provider = record {
  type = unset;
  ecds_cluster = [];
  ecds_service = codes "https://ecds.kubewaf:19000";
  workload_selector = [];
  istio_context = [];
  service_name = [];
  service_namespace = [];
}

abbrev operator : ProviderOptions
operator = record {
  default_ecds_host = codes "kubewaf-operator";
  default_ecds_port = 0;
  detected_provider = cilium;
  detected_service_name = [];
  detected_service_namespace = [];
}

address :
    parse_host_port (codes " http://ecds.kubewaf:19000") 18001 ≡ some (codes "ecds.kubewaf", 19000)
unfolding parse_host_port
address = refl

no_port : parse_host_port (codes "ecds:4294967296") 18001 ≡ some (codes "ecds:4294967296", 18001)
unfolding parse_host_port
no_port = refl

resolve_provider_is_usable_example :
    let r = resolve_provider (codes "a") (codes "w") (some provider) operator in
    IsConcrete r.provider × IsPort r.port
resolve_provider_is_usable_example =
    resolve_provider_is_usable (codes "a") (codes "w") (some provider) operator (omega arith)

abbrev hash : ModuleId → Bytes
hash mod_security = codes "e3b0"
hash challenge = codes "c442"

abbrev address_of : ModuleId → Bytes
address_of mod_security = codes "http://operator/wasm/modsecurity.wasm"
address_of challenge = codes "http://operator/wasm/challenge.wasm"

abbrev options : FilterOptions
options = record {
  module_url = address_of;
  module_sha = hash;
  default_wasm_http_url = [];
  default_wasm_sha256 = [];
  challenge_secrets = λ _. [];
  challenge_hmac = codes "0123456789abcdef0123456789abcdef";
}

abbrev proof_of_work : ChallengeSpec
proof_of_work = record {
  enabled = none;
  secret = codes "short";
  secret_ref = none;
  base_difficulty = none;
  min_difficulty = none;
  max_difficulty = none;
  header = [];
  header_value = [];
}

abbrev filters : List PortableFilter
filters =
    record (challenge_filter (codes "a") (codes "w") proof_of_work
      (some (codes "0123456789abcdef0123456789abcdef"))) {
        http_url = address_of challenge;
        sha256 = hash challenge;
      }
    ∷ record (engine_filter (codes "a") (codes "w") [] []) {
      http_url = address_of mod_security;
      sha256 = hash mod_security;
    }
    ∷ []

filters_built :
    build_filters (codes "a") (codes "w") [] [] (some proof_of_work) options ≡ ok filters
unfolding build_filters
filters_built = refl

secret_too_short :
    build_filters
      (codes "a")
      (codes "w")
      []
      []
      (some proof_of_work)
      (record options { challenge_hmac = [] })
    ≡ err (challenge_secret_too_short 5)
unfolding build_filters
secret_too_short = refl

build_filters-IsFilterChain_example :
    IsFilterChain (codes "a") (codes "w") true filters
    × (all_extension_names [] filters ≡ names_of (codes "a") (codes "w") true)
build_filters-IsFilterChain_example =
    build_filters-IsFilterChain (codes "a") (codes "w") [] [] [] (some proof_of_work) options
      filters filters_built
