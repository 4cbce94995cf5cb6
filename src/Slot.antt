-- ===== src/Slot.antt =====
-- internal/dataplane/slot/registry.go: the registry of the platforms' filter slots. An adapter works on
-- a world (the API server and the Envoy Gateway index), which its operations pass on.
pub mod Tests
use kubewaf.Prelude.{String, Bool, true, false, Option, none, some, List, [], ◌∷◌, if◌then◌else◌}
use kubewaf.Prelude.Bytes.{Bytes}
use kubewaf.Prelude.Result.{Result, ok, err}
use kubewaf.Prelude.State.{Effect, pure, fail, ◌>>=◌}

-- `ProviderType`, with the empty text.
pub data ProviderType : Type 0 where
  istio : ProviderType
  cilium : ProviderType
  envoy_gateway : ProviderType
  auto : ProviderType
  unset : ProviderType

-- `==` on provider types.
unfoldable pub same : ProviderType → ProviderType → Bool
same istio istio = true
same cilium cilium = true
same envoy_gateway envoy_gateway = true
same auto auto = true
same unset unset = true
same _ _ = false

-- No provider, and `Auto`, are Envoy Gateway.
unfoldable pub or_gateway : ProviderType → ProviderType
or_gateway auto = envoy_gateway
or_gateway unset = envoy_gateway
or_gateway t = t

pub data SlotError : Type 0 where
  unsupported_provider : ProviderType → SlotError
  nil_config : SlotError
  -- `delete %s slot: %w`
  delete_slot : ProviderType → Bytes → SlotError
  ensure_slot : Bytes → SlotError

-- The fields of the configuration that the registry reads.
pub record Config : Type 0 where
  pub namespace : Bytes
  pub name : Bytes
  pub provider : ProviderType

-- `Provider`: an adapter, whose errors are texts.
pub record Provider (W : Type 0) : Type 0 where
  pub type : ProviderType
  pub kind : String
  pub ensure : Config → Effect W Bytes Bytes
  pub delete : Bytes → Bytes → Effect W Bytes Unit

-- The map by type. A range visits it in any order: the order of the list.
abbrev pub Registry : Type 0 → Type 0
Registry W = List (ProviderType × Provider W)

module _ {W : Type 0} where
  -- `Register`
  unfoldable pub register : Provider W → Registry W → Registry W
  unfolding same
  register p [] = (p.type, p) ∷ []
  register p ((t, q) ∷ r) =
      let rest = register p r in if same p.type t then (t, p) ∷ r else (t, q) ∷ rest

  -- `NewRegistry`, from the three adapters.
  unfoldable pub new_registry : Provider W → Provider W → Provider W → Registry W
  unfolding register
  new_registry istio_adapter cilium_adapter eg_adapter =
      register eg_adapter (register cilium_adapter (register istio_adapter []))

  unfoldable pub find : ProviderType → Registry W → Option (Provider W)
  unfolding same
  find t [] = none
  find t ((s, p) ∷ r) = if same t s then some p else find t r

  unfoldable pub supported : ProviderType → Option (Provider W) → Result SlotError (Provider W)
  supported t none = err (unsupported_provider t)
  supported t (some p) = ok p

  -- `Get`
  unfoldable pub get : Registry W → ProviderType → Result SlotError (Provider W)
  unfolding supported find or_gateway
  get r t = supported (or_gateway t) (find (or_gateway t) r)

  -- `Delete` with the text around its error.
  unfoldable pub wrapped :
      ProviderType
      → Result Bytes Unit × W
      → (W → Result SlotError Unit × W)
      → Result SlotError Unit × W
  wrapped t (err e, w) next = (err (delete_slot t e), w)
  wrapped t (ok _, w) next = next w

  -- `DeleteOthers`
  unfoldable pub delete_others : Registry W → Bytes → Bytes → ProviderType → Effect W SlotError Unit
  unfolding same wrapped
  delete_others [] ns name keep w = (ok tt, w)
  delete_others ((t, p) ∷ r) ns name keep w =
      if same t keep
      then delete_others r ns name keep w
      else wrapped t (p.delete ns name w) (delete_others r ns name keep)

  -- `DeleteAll`
  unfoldable pub delete_all : Registry W → Bytes → Bytes → Effect W SlotError Unit
  unfolding wrapped
  delete_all [] ns name w = (ok tt, w)
  delete_all ((t, p) ∷ r) ns name w = wrapped t (p.delete ns name w) (delete_all r ns name)

  unfoldable pub named : String → Result Bytes Bytes × W → Result SlotError (String × Bytes) × W
  named kind (err e, w) = (err (ensure_slot e), w)
  named kind (ok name, w) = (ok (kind, name), w)

  unfoldable pub ensure_after :
      Provider W → Config → Result SlotError Unit × W → Result SlotError (String × Bytes) × W
  unfolding named
  ensure_after desired p (err e, w) = (err e, w)
  ensure_after desired p (ok _, w) = named desired.kind (desired.ensure p w)

  -- Once the desired adapter is known: the others go first.
  unfoldable pub ensure_with :
      Registry W → Config → Result SlotError (Provider W) → Effect W SlotError (String × Bytes)
  unfolding ensure_after delete_others
  ensure_with r p (err e) w = (err e, w)
  ensure_with r p (ok desired) w =
      ensure_after desired p (delete_others r p.namespace p.name desired.type w)

  -- `EnsureDesired`
  unfoldable pub ensure_desired : Registry W → Option Config → Effect W SlotError (String × Bytes)
  unfolding ensure_with get
  ensure_desired r none w = (err nil_config, w)
  ensure_desired r (some p) w = ensure_with r p (get r p.provider) w
