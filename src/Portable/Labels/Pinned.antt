-- ===== src/Portable/Labels/Pinned.antt =====
-- internal/dataplane/config/build.go: a WAF cannot take the identity of another in its metrics.
use kubewaf.Prelude.{
  ◌≡◌, refl, sym, ◌∙◌, ap, subst, Bool, true, false, Option, some, List, [], ◌∷◌, if◌then◌else◌,
  if_rec, if_false, All,
}
use kubewaf.Prelude.Bytes.{Bytes, codes, bytes_eq, bytes_eq→eq}
use kubewaf.Portable.Labels.{
  Labels, lookup, insert, erase, erase_all, reserved_metric_label_keys, metric_labels,
}

absorbed :
    (b : Bool) (x y z : Option Bytes) → (if b then x else z) ≡ (if b then x else if b then y else z)
absorbed true x y z = refl
absorbed false x y z = refl

swapped :
    (a b : Bool) (x y z : Option Bytes)
    → (a ≡ true → b ≡ true → ⊥)
    → (if a then x else if b then y else z) ≡ (if b then y else if a then x else z)
swapped true true x y z h = absurd (h refl refl)
swapped true false x y z h = refl
swapped false b x y z h = refl

pub lookup-insert :
    (j k v : Bytes) (m : Labels)
    → lookup j (insert k v m) ≡ (if bytes_eq j k then some v else lookup j m)
unfolding lookup insert
lookup-insert j k v [] = refl
lookup-insert j k v ((i, w) ∷ m) =
    if_rec (λ m'. lookup j m' ≡ (if bytes_eq j k then some v else lookup j ((i, w) ∷ m)))
      (bytes_eq k i)
      (λ same.
        subst
          (λ x.
            (if bytes_eq j k then some v else lookup j m)
            ≡ (if bytes_eq j k then some v else if bytes_eq j x then some w else lookup j m))
          (bytes_eq→eq k i same) (absorbed (bytes_eq j k) (some v) (some w) (lookup j m)))
      (λ other.
        ap (λ o. if bytes_eq j i then some w else o) (lookup-insert j k v m)
        ∙ swapped (bytes_eq j i) (bytes_eq j k) (some w) (some v) (lookup j m)
            λ is_i is_k. clash (subst (λ x. bytes_eq x i ≡ true) (bytes_eq→eq j k is_k) is_i) other)
  where
    clash : bytes_eq k i ≡ true → bytes_eq k i ≡ false → ⊥
    clash same differs = cc

lookup-erase : (j k : Bytes) (m : Labels) → bytes_eq j k ≡ false → lookup j (erase k m) ≡ lookup j m
unfolding lookup erase
lookup-erase j k [] h = refl
lookup-erase j k ((i, w) ∷ m) h =
    if_rec (λ m'. lookup j m' ≡ lookup j ((i, w) ∷ m)) (bytes_eq k i)
      (λ same.
        lookup-erase j k m h
        ∙ sym (
            if_false (bytes_eq j i) (some w) (lookup j m)
              (subst (λ x. bytes_eq j x ≡ false) (bytes_eq→eq k i same) h)))
      (λ other. ap (λ o. if bytes_eq j i then some w else o) (lookup-erase j k m h))

-- Not one of the keys.
abbrev pub IsOutside : Bytes → List Bytes → Type 0
IsOutside j keys = All (λ k. bytes_eq j k ≡ false) keys

lookup-erase_all :
    (j : Bytes) (keys : List Bytes) (m : Labels)
    → IsOutside j keys
    → lookup j (erase_all keys m) ≡ lookup j m
unfolding erase_all
lookup-erase_all j [] m _ = refl
lookup-erase_all j (k ∷ keys) m (h, hs) =
    lookup-erase_all j keys (erase k m) hs ∙ lookup-erase j k m h

abbrev base : Labels → Labels
base extra = erase_all reserved_metric_label_keys extra

-- What the labels say of a key: four inserts deep.
lookup-metric_labels :
    (j ns name : Bytes) (extra : Labels)
    → lookup j (metric_labels ns name extra) ≡ (
        if bytes_eq j (codes "owner")
        then some (codes "modsecurity-proxy-wasm")
        else if bytes_eq j (codes "engine")
        then some (codes "modsecurity")
        else if bytes_eq j (codes "waf_name")
        then some name
        else if bytes_eq j (codes "waf_namespace")
        then some ns
        else lookup j (base extra))
unfolding metric_labels
lookup-metric_labels j ns name extra =
    let named = insert (codes "waf_namespace") ns (base extra) in
    let both = insert (codes "waf_name") name named in
    let all = insert (codes "engine") (codes "modsecurity") both in
    lookup-insert j (codes "owner") (codes "modsecurity-proxy-wasm") all
    ∙ ap (λ o. if bytes_eq j (codes "owner") then some (codes "modsecurity-proxy-wasm") else o)
        (lookup-insert j (codes "engine") (codes "modsecurity") both
          ∙ ap (λ o. if bytes_eq j (codes "engine") then some (codes "modsecurity") else o)
              (lookup-insert j (codes "waf_name") name named
                ∙ ap (λ o. if bytes_eq j (codes "waf_name") then some name else o)
                    (lookup-insert j (codes "waf_namespace") ns (base extra))))

-- Whatever extra labels a WAF has, its metrics carry its own namespace and name, and an extra label with
-- another key than the four that are reserved keeps its value.
pub metric_labels_pinned :
    (ns name : Bytes) (extra : Labels) (key : Bytes)
    → IsOutside key reserved_metric_label_keys
    → (lookup (codes "waf_namespace") (metric_labels ns name extra) ≡ some ns)
      × (lookup (codes "waf_name") (metric_labels ns name extra) ≡ some name)
      × (lookup key (metric_labels ns name extra) ≡ lookup key extra)
unfolding bytes_eq
metric_labels_pinned ns name extra key (n, (m, (e, (o, t)))) = (
  lookup-metric_labels (codes "waf_namespace") ns name extra,
  lookup-metric_labels (codes "waf_name") ns name extra,
  lookup-metric_labels key ns name extra
      ∙ if_false (bytes_eq key (codes "owner")) _ _ o
      ∙ if_false (bytes_eq key (codes "engine")) _ _ e
      ∙ if_false (bytes_eq key (codes "waf_name")) _ _ m
      ∙ if_false (bytes_eq key (codes "waf_namespace")) _ _ n
      ∙ lookup-erase_all key reserved_metric_label_keys extra (n, (m, (e, (o, t)))),
)
