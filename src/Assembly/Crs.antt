-- ===== src/Assembly/Crs.antt =====
-- internal/probeassemble/preamble.go: the setup action and the exclusions of the CRS.
use kubewaf.Prelude.{Option, none, some, List, [], ◌∷◌, ◌++◌, map}
use kubewaf.Prelude.Int.{ℤ, pos}
use kubewaf.Prelude.Bytes.{Bytes, codes, join}
use kubewaf.Prelude.Decimal.{decimal}

-- An exclusion of SecRuleUpdateTargetById.
pub record CrsUpdateTarget : Type 0 where
  pub id : ℤ
  pub remove_targets : List Bytes

pub record CrsTuning : Type 0 where
  pub paranoia_level : Option ℤ
  pub inbound_anomaly_threshold : Option ℤ
  pub outbound_anomaly_threshold : Option ℤ
  pub remove_by_id : List ℤ
  pub remove_by_tag : List Bytes
  pub update_target_by_id : List CrsUpdateTarget

abbrev pub crs_setup_version_stamp : ℤ
crs_setup_version_stamp = pos 427

-- The frozen lines at the start of a document.
abbrev pub preamble : List Bytes
preamble =
    codes "SecRuleEngine On"
    ∷ codes "SecRequestBodyAccess On"
    ∷ codes "SecResponseBodyAccess Off"
    ∷ []

unfoldable pub stamp_only_900990 : Bytes
unfolding decimal
stamp_only_900990 =
    codes "SecAction \"id:900990,phase:1,nolog,pass,setvar:tx.crs_setup_version="
    ++ decimal crs_setup_version_stamp
    ++ codes "\""

-- The settings of an optional number, one for each variable.
unfoldable pub set_to : List Bytes → Option ℤ → List Bytes
unfolding decimal
set_to names none = []
set_to names (some n) = map (λ name. codes "setvar:tx." ++ name ++ codes "=" ++ decimal n) names

unfoldable pub setup_sets : CrsTuning → List Bytes
unfolding set_to decimal
setup_sets crs =
    (codes "setvar:tx.crs_setup_version=" ++ decimal crs_setup_version_stamp)
    ∷ (set_to (codes "detection_paranoia_level" ∷ codes "blocking_paranoia_level" ∷ [])
          crs.paranoia_level
        ++ set_to (codes "inbound_anomaly_score_threshold" ∷ []) crs.inbound_anomaly_threshold
        ++ set_to (codes "outbound_anomaly_score_threshold" ∷ []) crs.outbound_anomaly_threshold)

unfoldable pub crs_setup_actions : Option CrsTuning → List Bytes
unfolding setup_sets join
crs_setup_actions none = []
crs_setup_actions (some crs) =
    (codes "SecAction \"id:900990,phase:1,nolog,pass,"
      ++ join (setup_sets crs) (codes ",")
      ++ codes "\"")
    ∷ []

-- An exclusion that removes no target is skipped.
unfoldable pub updated : CrsUpdateTarget → List Bytes → List Bytes
unfolding join decimal
updated te [] = []
updated te (t ∷ ts) =
    (codes "SecRuleUpdateTargetById "
      ++ decimal te.id
      ++ codes " \""
      ++ join (map (λ target. codes "!" ++ target) (t ∷ ts)) (codes "|")
      ++ codes "\"")
    ∷ []

unfoldable pub update_targets : List CrsUpdateTarget → List Bytes
unfolding updated
update_targets [] = []
update_targets (te ∷ tes) = updated te te.remove_targets ++ update_targets tes

-- The removals by id, by tag, and of single targets, in that order.
unfoldable pub crs_exclusions : Option CrsTuning → List Bytes
unfolding update_targets decimal
crs_exclusions none = []
crs_exclusions (some crs) =
    map (λ id. codes "SecRuleRemoveById " ++ decimal id) crs.remove_by_id
    ++ map (λ tag. codes "SecRuleRemoveByTag " ++ tag) crs.remove_by_tag
    ++ update_targets crs.update_target_by_id
