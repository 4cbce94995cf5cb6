-- ===== src/Slot/Tests.antt =====
-- A world of three flags, of which each adapter has one.
use kubewaf.Prelude.{String, ◌≡◌, refl, Bool, true, false, some, [], ◌∷◌, if◌then◌else◌}
use kubewaf.Prelude.Bytes.{codes}
use kubewaf.Prelude.Result.{ok}
use kubewaf.Slot.{
  ProviderType, istio, cilium, envoy_gateway, same, Config, Provider, Registry, new_registry,
  ensure_desired,
}

abbrev World : Type 0
World = ProviderType → Bool

abbrev set : ProviderType → Bool → World → World
set t b w = λ s. if same s t then b else w s

abbrev adapter : ProviderType → String → Provider World
adapter t kind = record {
  type = t;
  kind = kind;
  ensure = λ c w. (ok c.name, set t true w);
  delete = λ ns name w. (ok tt, set t false w);
}

abbrev registry : Registry World
registry =
    (istio, adapter istio "EnvoyFilter")
    ∷ (cilium, adapter cilium "CiliumEnvoyConfig")
    ∷ (envoy_gateway, adapter envoy_gateway "ExtensionServer")
    ∷ []

is_registry :
    new_registry
      (adapter istio "EnvoyFilter")
      (adapter cilium "CiliumEnvoyConfig")
      (adapter envoy_gateway "ExtensionServer")
    ≡ registry
unfolding new_registry
is_registry = refl

abbrev to_cilium : Config
to_cilium = record { namespace = []; name = codes "w"; provider = cilium }

-- Before the switch, the slot of Istio is there.
abbrev before : World
before = set istio true (λ s. false)

istio_removed : (ensure_desired registry (some to_cilium) before).1 istio ≡ false
unfolding ensure_desired same
istio_removed = refl

cilium_installed : (ensure_desired registry (some to_cilium) before).1 cilium ≡ true
unfolding ensure_desired same
cilium_installed = refl
