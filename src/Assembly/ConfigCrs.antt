-- ===== src/Assembly/ConfigCrs.antt =====
-- internal/dataplane/config/build.go: the data plane's copies of the CRS functions.
use kubewaf.Prelude.{Option, none, some, List, [], ◌∷◌, ◌++◌, map, ◌≡◌, refl, ap}
use kubewaf.Prelude.Int.{ℤ, pos}
use kubewaf.Prelude.Bytes.{Bytes, codes, join}
use kubewaf.Prelude.Decimal.{decimal}
use kubewaf.Assembly.Crs.{CrsTuning, CrsUpdateTarget}
use kubewaf.Assembly.Crs

abbrev pub crs_setup_version_stamp : ℤ
crs_setup_version_stamp = pos 427

-- The settings of an optional number, one for each variable.
unfoldable pub set_to : List Bytes → Option ℤ → List Bytes
unfolding decimal
set_to names none = []
set_to names (some n) = map (λ name. codes "setvar:tx." ++ name ++ codes "=" ++ decimal n) names

unfoldable pub setup_sets : CrsTuning → List Bytes
unfolding set_to decimal
setup_sets crs =
    (codes "setvar:tx.crs_setup_version=" ++ decimal crs_setup_version_stamp)
    ∷ (set_to (codes "detection_paranoia_level" ∷ codes "blocking_paranoia_level" ∷ [])
          crs.paranoia_level
        ++ set_to (codes "inbound_anomaly_score_threshold" ∷ []) crs.inbound_anomaly_threshold
        ++ set_to (codes "outbound_anomaly_score_threshold" ∷ []) crs.outbound_anomaly_threshold)

unfoldable pub crs_setup_actions : Option CrsTuning → List Bytes
unfolding setup_sets join
crs_setup_actions none = []
crs_setup_actions (some crs) =
    (codes "SecAction \"id:900990,phase:1,nolog,pass,"
      ++ join (setup_sets crs) (codes ",")
      ++ codes "\"")
    ∷ []

-- An exclusion that removes no target is skipped.
unfoldable pub updated : CrsUpdateTarget → List Bytes → List Bytes
unfolding join decimal
updated te [] = []
updated te (t ∷ ts) =
    (codes "SecRuleUpdateTargetById "
      ++ decimal te.id
      ++ codes " \""
      ++ join (map (λ target. codes "!" ++ target) (t ∷ ts)) (codes "|")
      ++ codes "\"")
    ∷ []

unfoldable pub update_targets : List CrsUpdateTarget → List Bytes
unfolding updated
update_targets [] = []
update_targets (te ∷ tes) = updated te te.remove_targets ++ update_targets tes

-- The removals by id, by tag, and of single targets, in that order.
unfoldable pub crs_exclusions : Option CrsTuning → List Bytes
unfolding update_targets decimal
crs_exclusions none = []
crs_exclusions (some crs) =
    map (λ id. codes "SecRuleRemoveById " ++ decimal id) crs.remove_by_id
    ++ map (λ tag. codes "SecRuleRemoveByTag " ++ tag) crs.remove_by_tag
    ++ update_targets crs.update_target_by_id

set_to_agrees : (names : List Bytes) (n : Option ℤ) → set_to names n ≡ Crs.set_to names n
unfolding set_to Crs.set_to
set_to_agrees names none = refl
set_to_agrees names (some n) = refl

setup_sets_agree : (crs : CrsTuning) → setup_sets crs ≡ Crs.setup_sets crs
unfolding setup_sets Crs.setup_sets
setup_sets_agree crs =
    rw
      (
        set_to_agrees (codes "detection_paranoia_level" ∷ codes "blocking_paranoia_level" ∷ [])
            crs.paranoia_level,
        set_to_agrees (codes "inbound_anomaly_score_threshold" ∷ []) crs.inbound_anomaly_threshold,
        set_to_agrees (codes "outbound_anomaly_score_threshold" ∷ [])
            crs.outbound_anomaly_threshold,
      )
      refl

pub crs_setup_actions_agree :
    (crs : Option CrsTuning) → crs_setup_actions crs ≡ Crs.crs_setup_actions crs
unfolding crs_setup_actions Crs.crs_setup_actions
crs_setup_actions_agree none = refl
crs_setup_actions_agree (some crs) =
    ap
      (λ sets.
        (codes "SecAction \"id:900990,phase:1,nolog,pass," ++ join sets (codes ",") ++ codes "\"")
        ∷ [])
      (setup_sets_agree crs)

updated_agrees : (te : CrsUpdateTarget) (ts : List Bytes) → updated te ts ≡ Crs.updated te ts
unfolding updated Crs.updated
updated_agrees te [] = refl
updated_agrees te (t ∷ ts) = refl

update_targets_agree : (tes : List CrsUpdateTarget) → update_targets tes ≡ Crs.update_targets tes
unfolding update_targets Crs.update_targets
update_targets_agree [] = refl
update_targets_agree (te ∷ tes) =
    rw (updated_agrees te te.remove_targets, update_targets_agree tes) refl

pub crs_exclusions_agree : (crs : Option CrsTuning) → crs_exclusions crs ≡ Crs.crs_exclusions crs
unfolding crs_exclusions Crs.crs_exclusions
crs_exclusions_agree none = refl
crs_exclusions_agree (some crs) = rw (update_targets_agree crs.update_target_by_id) refl
