-- ===== src/Assembly/Directives.antt =====
-- internal/dataplane/config/build.go: the directives of a WAF.
use kubewaf.Prelude.{
  ◌≡◌, ap, sym, ◌∙◌, Bool, true, false, Option, none, some, List, [], ◌∷◌, ◌++◌, ◌||◌,
  if◌then◌else◌, append-nil,
}
use kubewaf.Prelude.Int.{ℤ, pos, eqb_ℤ}
use kubewaf.Prelude.Bytes.{Bytes, codes, bytes_eq, trim_space, to_lower}
use kubewaf.Prelude.Decimal.{decimal}
use kubewaf.Assembly.Crs.{
  CrsTuning, preamble, crs_setup_actions as probe_setup_actions, crs_exclusions as probe_exclusions,
}
use kubewaf.Assembly.ConfigCrs.{
  crs_setup_actions, crs_exclusions, crs_setup_actions_agree, crs_exclusions_agree,
}
use kubewaf.Assembly.Document.{document_parts}

-- What `BuildDirectives` reads of a WAF: its mode, its log level, the annotation
-- `kubewaf.io/ftw-profile`, and the tuning.
pub record WafDirectives : Type 0 where
  pub detection_only : Bool
  pub log_level : ℤ
  pub ftw_profile : Option Bytes
  pub crs_enable : Bool
  pub crs : Option CrsTuning

unfoldable pub ftw_profile_enabled : Option Bytes → Bool
unfolding bytes_eq trim_space to_lower
ftw_profile_enabled none = false
ftw_profile_enabled (some v) =
    let word = to_lower (trim_space v) in
    bytes_eq word (codes "true") || bytes_eq word (codes "1") || bytes_eq word (codes "yes")

abbrev pub sec_rule_engine_value : WafDirectives → Bytes
sec_rule_engine_value waf = if waf.detection_only then codes "DetectionOnly" else codes "On"

-- The lines before the CRS.
unfoldable pub base_directives : WafDirectives → List Bytes
unfolding ftw_profile_enabled decimal
base_directives waf =
    codes "Include @kubewaf-defaults"
    ∷ (codes "SecRuleEngine " ++ sec_rule_engine_value waf)
    ∷ (codes "SecDebugLogLevel "
        ++ decimal (if eqb_ℤ waf.log_level (pos 0) then pos 1 else waf.log_level))
    ∷ (if ftw_profile_enabled waf.ftw_profile then codes "Include @ftw-conf" ∷ [] else [])

-- Path A includes the engine's CRS, with the setup before it and the exclusions behind it; path B has
-- the setup only.
unfoldable pub crs_directives : Bool → Option CrsTuning → List Bytes
unfolding crs_setup_actions crs_exclusions
crs_directives true crs =
    codes "Include @crs-setup-conf"
    ∷ (crs_setup_actions crs ++ (codes "Include @owasp_crs/*.conf" ∷ crs_exclusions crs))
crs_directives false crs = crs_setup_actions crs

-- In path B the exclusions stand behind the rules.
unfoldable pub closing_directives : Bool → Option CrsTuning → List Bytes
unfolding crs_exclusions
closing_directives true crs = []
closing_directives false crs = crs_exclusions crs

unfoldable pub build_directives : WafDirectives → List Bytes → List Bytes
unfolding base_directives crs_directives closing_directives
build_directives waf rules =
    base_directives waf
    ++ (crs_directives waf.crs_enable waf.crs
        ++ (rules ++ closing_directives waf.crs_enable waf.crs))

-- The parts of the probe's document, one after the other.
abbrev pub concat_parts : List (List Bytes) → List Bytes
concat_parts [] = []
concat_parts (p ∷ ps) = p ++ concat_parts ps

-- Behind their first lines (the fixed preamble of the probe, and what the WAF's mode, log level and
-- profile give in the data plane) the two have the same directives for a tuned WAF of path B: the
-- setup, the rules, and the exclusions last.
pub path_b_agrees :
    (waf : WafDirectives) (crs : CrsTuning) (rules : List Bytes) (stamp : Bool)
    → waf.crs_enable ≡ false
    → waf.crs ≡ some crs
    → let common = crs_setup_actions (some crs) ++ (rules ++ crs_exclusions (some crs)) in
      (build_directives waf rules ≡ base_directives waf ++ common)
      × (concat_parts (document_parts rules stamp (some crs)) ≡ preamble ++ common)
unfolding build_directives document_parts
path_b_agrees waf crs rules stamp path_b tuned =
    let base = base_directives waf in
    (
      ap (λ b. base ++ (crs_directives b waf.crs ++ (rules ++ closing_directives b waf.crs))) path_b
          ∙ ap (λ o. base ++ (crs_setup_actions o ++ (rules ++ crs_exclusions o))) tuned,
      ap (λ l. preamble ++ (probe_setup_actions (some crs) ++ (rules ++ l)))
            (append-nil (probe_exclusions (some crs)) ∙ sym (crs_exclusions_agree (some crs)))
          ∙ ap (λ l. preamble ++ (l ++ (rules ++ crs_exclusions (some crs))))
              (sym (crs_setup_actions_agree (some crs))),
    )
