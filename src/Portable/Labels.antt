-- ===== src/Portable/Labels.antt =====
-- internal/dataplane/config/build.go: the labels of a WAF's metrics.
pub mod Pinned
use kubewaf.Prelude.{Option, none, some, List, [], ◌∷◌, if◌then◌else◌}
use kubewaf.Prelude.Bytes.{Bytes, codes, bytes_eq}

-- `map[string]string`
abbrev pub Labels : Type 0
Labels = List (Bytes × Bytes)

unfoldable pub lookup : Bytes → Labels → Option Bytes
unfolding bytes_eq
lookup k [] = none
lookup k ((j, v) ∷ m) = if bytes_eq k j then some v else lookup k m

unfoldable pub insert : Bytes → Bytes → Labels → Labels
unfolding bytes_eq
insert k v [] = (k, v) ∷ []
insert k v ((j, w) ∷ m) =
    let rest = insert k v m in if bytes_eq k j then (k, v) ∷ m else (j, w) ∷ rest

unfoldable pub erase : Bytes → Labels → Labels
unfolding bytes_eq
erase k [] = []
erase k ((j, w) ∷ m) = let rest = erase k m in if bytes_eq k j then rest else (j, w) ∷ rest

-- `reservedMetricLabelKeys`
abbrev pub reserved_metric_label_keys : List Bytes
reserved_metric_label_keys =
    codes "waf_namespace" ∷ codes "waf_name" ∷ codes "engine" ∷ codes "owner" ∷ []

unfoldable pub erase_all : List Bytes → Labels → Labels
unfolding erase
erase_all [] m = m
erase_all (k ∷ ks) m = erase_all ks (erase k m)

-- The extra labels of the WAF without the reserved keys, and those on top.
unfoldable pub metric_labels : Bytes → Bytes → Labels → Labels
unfolding erase_all insert
metric_labels ns name extra = insert (codes "owner") (codes "modsecurity-proxy-wasm") (
    insert (codes "engine") (codes "modsecurity") (
      insert (codes "waf_name") name
        (insert (codes "waf_namespace") ns (erase_all reserved_metric_label_keys extra))))
