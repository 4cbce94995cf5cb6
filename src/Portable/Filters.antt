-- ===== src/Portable/Filters.antt =====
-- internal/dataplane/config/build.go: the filters of a WAF, in the order of the chain.
pub mod Loadable
use kubewaf.Prelude.{
  ℕ, ◌≡◌, refl, Bool, true, false, Option, none, some, List, [], ◌∷◌, ◌++◌, ltb, if◌then◌else◌,
  if_rec, if_ind, is_nil, length,
}
use kubewaf.Prelude.Int.{ℤ, pos}
use kubewaf.Prelude.Bytes.{Bytes, codes, trim_space}
use kubewaf.Prelude.Result.{Result, ok, err, ◌>>=◌}

pub data BuildError : Type 0 where
  challenge_secret_too_short : ℕ → BuildError
  no_challenge_url : BuildError
  no_challenge_sha256 : Bytes → BuildError
  no_wasm_url : BuildError
  no_wasm_sha256 : Bytes → BuildError

-- `ModuleID`, of the modules that a WAF needs.
pub data ModuleId : Type 0 where
  mod_security : ModuleId
  challenge : ModuleId

pub record SecretKeyRef : Type 0 where
  pub name : Bytes
  pub key : Bytes

pub record ChallengeSpec : Type 0 where
  pub enabled : Option Bool
  pub secret : Bytes
  pub secret_ref : Option SecretKeyRef
  pub base_difficulty : Option ℤ
  pub min_difficulty : Option ℤ
  pub max_difficulty : Option ℤ
  pub header : Bytes
  pub header_value : Bytes

-- The options that the filters are built from. A module or a secret that a map lacks is empty.
pub record FilterOptions : Type 0 where
  pub module_url : ModuleId → Bytes
  pub module_sha : ModuleId → Bytes
  pub default_wasm_http_url : Bytes
  pub default_wasm_sha256 : Bytes
  pub challenge_secrets : Bytes → Bytes
  pub challenge_hmac : Bytes

-- The plugin configuration of the challenge: a member that is left out is none.
pub record ChallengePlugin : Type 0 where
  pub secret : Option Bytes
  pub base_difficulty : ℤ
  pub min_difficulty : Option ℤ
  pub max_difficulty : Option ℤ
  pub header : Option Bytes
  pub value : Option Bytes

-- `PortableFilter`, with the role that its module has, and the plugin configuration of a challenge.
pub record PortableFilter : Type 0 where
  pub extension_name : Bytes
  pub module_id : ModuleId
  pub wasm_name : Bytes
  pub root_id : Bytes
  pub http_url : Bytes
  pub sha256 : Bytes
  pub challenge_plugin : Option ChallengePlugin

-- `ExtensionName` and `ChallengeExtensionName`
unfoldable pub extension_name : Bytes → Bytes → Bytes
extension_name ns name = codes "kubewaf/" ++ (ns ++ (codes "/" ++ name))

unfoldable pub challenge_extension_name : Bytes → Bytes → Bytes
challenge_extension_name ns name =
    codes "kubewaf/" ++ (ns ++ (codes "/" ++ (name ++ codes "/challenge")))

-- `ChallengeEnabled`
abbrev pub challenge_enabled : Option ChallengeSpec → Bool
challenge_enabled none = false
challenge_enabled (some ch) = elim ch.enabled [ none ↦ true | some b ↦ b ]

unfoldable pub first_of : Bytes → Bytes → Bytes
first_of a b = if is_nil a then b else a

unfoldable pub referenced : Bytes → FilterOptions → Option SecretKeyRef → Bytes
referenced ns opts none = []
referenced ns opts (some r) =
    opts.challenge_secrets (ns ++ (codes "/" ++ (r.name ++ (codes "/" ++ r.key))))

-- The controller's secret, or else the one that is stated, or else the one that is referenced.
unfoldable pub challenge_secret : Bytes → ChallengeSpec → FilterOptions → Bytes
unfolding referenced first_of
challenge_secret ns ch opts =
    first_of (first_of opts.challenge_hmac ch.secret) (referenced ns opts ch.secret_ref)

-- No secret at all is let through.
unfoldable pub checked_secret : Bytes → Result BuildError (Option Bytes)
checked_secret s =
    if is_nil s
    then ok none
    else if ltb (length s) 32
    then err (challenge_secret_too_short (length s))
    else ok (some s)

unfoldable pub present : Bytes → Option Bytes
present s = if is_nil s then none else some s

unfoldable pub challenge_plugin : ChallengeSpec → Option Bytes → ChallengePlugin
unfolding present
challenge_plugin ch secret = record {
  secret = secret;
  base_difficulty = elim ch.base_difficulty [ none ↦ pos 18 | some d ↦ d ];
  min_difficulty = ch.min_difficulty;
  max_difficulty = ch.max_difficulty;
  header = present ch.header;
  value = if is_nil ch.header then none else present ch.header_value;
}

-- The address of a module, which must have a hash.
unfoldable pub located :
    Bytes
    → Bytes
    → BuildError
    → (Bytes → BuildError)
    → PortableFilter
    → Result BuildError PortableFilter
unfolding trim_space
located url sha no_url no_sha f =
    if is_nil url
    then err no_url
    else if is_nil (trim_space sha)
    then err (no_sha url)
    else ok (record f { http_url = url; sha256 = sha })

-- The filter of the challenge before its module is located.
unfoldable pub challenge_filter : Bytes → Bytes → ChallengeSpec → Option Bytes → PortableFilter
unfolding challenge_plugin challenge_extension_name
challenge_filter ns name ch secret = record {
  extension_name = challenge_extension_name ns name;
  module_id = challenge;
  wasm_name = codes "kubewaf.challenge";
  root_id = [];
  http_url = [];
  sha256 = [];
  challenge_plugin = some (challenge_plugin ch secret);
}

-- `buildChallengeFilter`
unfoldable pub build_challenge_filter :
    Bytes → Bytes → ChallengeSpec → FilterOptions → Result BuildError PortableFilter
unfolding challenge_secret checked_secret challenge_filter located
build_challenge_filter ns name ch opts = do
  secret ← checked_secret (challenge_secret ns ch opts)
  located (opts.module_url challenge) (opts.module_sha challenge) no_challenge_url
      no_challenge_sha256 (challenge_filter ns name ch secret)

-- The filter of the WAF engine before its module is located, with the names that its metrics state.
unfoldable pub engine_filter : Bytes → Bytes → Bytes → Bytes → PortableFilter
unfolding extension_name first_of
engine_filter ns name metrics_name metrics_root = record {
  extension_name = extension_name ns name;
  module_id = mod_security;
  wasm_name = first_of metrics_name (codes "kubewaf.modsecurity");
  root_id = metrics_root;
  http_url = [];
  sha256 = [];
  challenge_plugin = none;
}

unfoldable pub waf_filter :
    Bytes → Bytes → Bytes → Bytes → FilterOptions → Result BuildError PortableFilter
unfolding located engine_filter first_of
waf_filter ns name metrics_name metrics_root opts =
    located (first_of (opts.module_url mod_security) opts.default_wasm_http_url)
      (first_of (opts.module_sha mod_security) opts.default_wasm_sha256) no_wasm_url no_wasm_sha256
      (engine_filter ns name metrics_name metrics_root)

unfoldable pub optional_challenge :
    Bytes → Bytes → Option ChallengeSpec → FilterOptions → Result BuildError (List PortableFilter)
unfolding build_challenge_filter
optional_challenge ns name none opts = ok []
optional_challenge ns name (some ch) opts =
    if challenge_enabled (some ch)
    then (do f ← build_challenge_filter ns name ch opts; ok (f ∷ []))
    else ok []

-- The filters of `BuildFromWAF`. The engine's module is looked for before the challenge is built.
unfoldable pub build_filters :
    Bytes
    → Bytes
    → Bytes
    → Bytes
    → Option ChallengeSpec
    → FilterOptions
    → Result BuildError (List PortableFilter)
unfolding waf_filter optional_challenge
build_filters ns name metrics_name metrics_root ch opts = do
  engine ← waf_filter ns name metrics_name metrics_root opts
  first ← optional_challenge ns name ch opts
  ok (first ++ (engine ∷ []))

-- `AllExtensionNames` of a configuration: its filters' names, or else its own.
unfoldable pub all_extension_names : Bytes → List PortableFilter → List Bytes
all_extension_names own [] = own ∷ []
all_extension_names own (f ∷ []) = f.extension_name ∷ []
all_extension_names own (f ∷ g ∷ fs) = f.extension_name ∷ all_extension_names own (g ∷ fs)
