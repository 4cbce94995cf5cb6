-- ===== src/Portable/Filters/Loadable.antt =====
-- internal/dataplane/config/build.go: the filters that are built can be loaded by the proxy.
use kubewaf.Prelude.{
  ◌≤◌, ◌≡◌, refl, Bool, true, false, Option, none, some, List, [], ◌∷◌, ◌++◌, ltb, if◌then◌else◌,
  if_rec, is_nil, length, arith,
}
use kubewaf.Prelude.Bytes.{Bytes, trim_space}
use kubewaf.Prelude.Result.{ok, Returns, returned_value, bind-Returns, ◌>>=◌}
use kubewaf.Portable.Filters.{
  BuildError, no_challenge_url, no_challenge_sha256, no_wasm_url, no_wasm_sha256, mod_security,
  challenge, first_of, challenge_filter, engine_filter, ChallengeSpec, FilterOptions,
  PortableFilter, ChallengePlugin, extension_name, challenge_extension_name, challenge_enabled,
  checked_secret, challenge_secret, challenge_plugin, located, build_challenge_filter, waf_filter,
  optional_challenge, build_filters, all_extension_names,
}

-- What the proxy needs of a remote module: an address, and a hash that is not blank.
abbrev pub IsLocated : PortableFilter → Type 0
IsLocated f = (is_nil f.http_url ≡ false) × (is_nil (trim_space f.sha256) ≡ false)

-- A secret that is stated has at least 32 bytes.
abbrev pub IsLong : Option Bytes → Type 0
IsLong none = Unit
IsLong (some s) = 32 ≤ length s

abbrev pub HasLongSecret : Option ChallengePlugin → Type 0
HasLongSecret none = ⊥
HasLongSecret (some p) = IsLong p.secret

abbrev pub IsEngine : Bytes → Bytes → PortableFilter → Type 0
IsEngine ns name f =
    (f.extension_name ≡ extension_name ns name) × (f.challenge_plugin ≡ none) × IsLocated f

abbrev pub IsChallenge : Bytes → Bytes → PortableFilter → Type 0
IsChallenge ns name f =
    (f.extension_name ≡ challenge_extension_name ns name)
    × HasLongSecret f.challenge_plugin
    × IsLocated f

-- The challenge in front of the engine, or the engine alone.
abbrev pub IsFilterChain : Bytes → Bytes → Bool → List PortableFilter → Type 0
IsFilterChain ns name true (c ∷ e ∷ []) = IsChallenge ns name c × IsEngine ns name e
IsFilterChain ns name false (e ∷ []) = IsEngine ns name e
IsFilterChain ns name _ _ = ⊥

located-Returns :
    (P : PortableFilter → Type 0) (url sha : Bytes) (no_url : BuildError)
    (no_sha : Bytes → BuildError) (f : PortableFilter)
    → (is_nil url ≡ false
        → is_nil (trim_space sha) ≡ false
        → P (record f { http_url = url; sha256 = sha }))
    → Returns P (located url sha no_url no_sha f)
unfolding located
located-Returns P url sha no_url no_sha f h =
    if_rec (Returns P) (is_nil url) (λ _. tt)
      λ there. if_rec (Returns P) (is_nil (trim_space sha)) (λ _. tt) λ hashed. h there hashed

checked_secret-IsLong : (s : Bytes) → Returns IsLong (checked_secret s)
unfolding checked_secret
checked_secret-IsLong s =
    if_rec (Returns IsLong) (is_nil s) (λ _. tt)
      λ _. if_rec (Returns IsLong) (ltb (length s) 32) (λ _. tt) λ long. ground arith

module _ (ns name : Bytes) (opts : FilterOptions) where
  build_challenge_filter-IsChallenge :
      (ch : ChallengeSpec) → Returns (IsChallenge ns name) (build_challenge_filter ns name ch opts)
  unfolding build_challenge_filter challenge_filter challenge_plugin
  build_challenge_filter-IsChallenge ch =
      bind-Returns IsLong (IsChallenge ns name) (checked_secret (challenge_secret ns ch opts)) _
        (checked_secret-IsLong (challenge_secret ns ch opts))
        λ secret long.
          located-Returns (IsChallenge ns name) (opts.module_url challenge)
            (opts.module_sha challenge) no_challenge_url no_challenge_sha256
            (challenge_filter ns name ch secret) λ there hashed. (refl, long, (there, hashed))

  waf_filter-IsEngine :
      (metrics_name metrics_root : Bytes)
      → Returns (IsEngine ns name) (waf_filter ns name metrics_name metrics_root opts)
  unfolding waf_filter engine_filter
  waf_filter-IsEngine metrics_name metrics_root =
      located-Returns (IsEngine ns name)
        (first_of (opts.module_url mod_security) opts.default_wasm_http_url)
        (first_of (opts.module_sha mod_security) opts.default_wasm_sha256) no_wasm_url
        no_wasm_sha256 (engine_filter ns name metrics_name metrics_root)
        λ there hashed. (refl, refl, (there, hashed))

  -- In front of the engine, a chain.
  abbrev IsFront : Bool → List PortableFilter → Type 0
  IsFront true (c ∷ []) = IsChallenge ns name c
  IsFront false [] = Unit
  IsFront _ _ = ⊥

  optional_challenge-IsFront :
      (ch : Option ChallengeSpec)
      → Returns (IsFront (challenge_enabled ch)) (optional_challenge ns name ch opts)
  unfolding optional_challenge
  optional_challenge-IsFront none = tt
  optional_challenge-IsFront (some ch) = front (challenge_enabled (some ch))
    where
      front :
          (b : Bool)
          → Returns
              (IsFront b)
              (if b then (do f ← build_challenge_filter ns name ch opts; ok (f ∷ [])) else ok [])
      front false = tt
      front true =
          bind-Returns (IsChallenge ns name) (IsFront true) (build_challenge_filter ns name ch opts)
            _ (build_challenge_filter-IsChallenge ch) λ f h. h

  joined :
      (b : Bool) (first : List PortableFilter) (engine : PortableFilter)
      → IsFront b first
      → IsEngine ns name engine
      → IsFilterChain ns name b (first ++ (engine ∷ []))
  joined true (c ∷ []) e h k = (h, k)
  joined false [] e h k = k
  joined true [] e h k = absurd h
  joined true (c ∷ d ∷ fs) e h k = absurd h
  joined false (c ∷ fs) e h k = absurd h

  build_filters-Returns :
      (metrics_name metrics_root : Bytes) (ch : Option ChallengeSpec)
      → Returns
          (IsFilterChain ns name (challenge_enabled ch))
          (build_filters ns name metrics_name metrics_root ch opts)
  unfolding build_filters
  build_filters-Returns metrics_name metrics_root ch =
      bind-Returns (IsEngine ns name) (IsFilterChain ns name (challenge_enabled ch))
        (waf_filter ns name metrics_name metrics_root opts) _
        (waf_filter-IsEngine metrics_name metrics_root)
        λ engine e.
          bind-Returns (IsFront (challenge_enabled ch))
            (IsFilterChain ns name (challenge_enabled ch)) (optional_challenge ns name ch opts) _
            (optional_challenge-IsFront ch)
            λ first f. joined (challenge_enabled ch) first engine f e

abbrev pub names_of : Bytes → Bytes → Bool → List Bytes
names_of ns name b =
    if b
    then challenge_extension_name ns name ∷ extension_name ns name ∷ []
    else extension_name ns name ∷ []

chain-names :
    (ns name own : Bytes) (b : Bool) (fs : List PortableFilter)
    → IsFilterChain ns name b fs
    → all_extension_names own fs ≡ names_of ns name b
unfolding all_extension_names
chain-names ns name own true (c ∷ e ∷ []) h = cc
chain-names ns name own false (e ∷ []) h = cc
chain-names ns name own true [] h = absurd h
chain-names ns name own true (c ∷ []) h = absurd h
chain-names ns name own true (c ∷ e ∷ f ∷ fs) h = absurd h
chain-names ns name own false [] h = absurd h
chain-names ns name own false (c ∷ e ∷ fs) h = absurd h

-- Where the filters of a WAF are built, the engine's filter is the last of them, with the challenge in
-- front of it exactly where that is enabled, each with its own name, an address and a hash that is not
-- blank. A secret of the challenge has at least 32 bytes. The names that are deleted with the
-- configuration are those of the filters.
pub build_filters-IsFilterChain :
    (ns name metrics_name metrics_root own : Bytes) (ch : Option ChallengeSpec)
    (opts : FilterOptions) (fs : List PortableFilter)
    → build_filters ns name metrics_name metrics_root ch opts ≡ ok fs
    → IsFilterChain ns name (challenge_enabled ch) fs
      × (all_extension_names own fs ≡ names_of ns name (challenge_enabled ch))
build_filters-IsFilterChain ns name metrics_name metrics_root own ch opts fs built =
    let chain =
      returned_value (IsFilterChain ns name (challenge_enabled ch))
        (build_filters ns name metrics_name metrics_root ch opts) fs built
        (build_filters-Returns ns name opts metrics_name metrics_root ch) in
    (chain, chain-names ns name own (challenge_enabled ch) fs chain)
