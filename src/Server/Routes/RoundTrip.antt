-- ===== src/Server/Routes/RoundTrip.antt =====
-- internal/subresourceapi/wafpath.go and passthrough.go: a path that is built of a route parses back.
use kubewaf.Prelude.{◌≡◌, refl, ap, ◌∙◌, false, ◌⊎◌, inl, inr, List, [], ◌∷◌, ◌++◌, All, if_false}
use kubewaf.Prelude.Bytes.{
  Bytes, codes, bytes_eq, trim_front, trim_front-append, trim_prefix, trim_suffix, join,
}
use kubewaf.Prelude.Split.{split, split-join, IsPiece}
use kubewaf.Prelude.Trim.{
  has_byte, constant_IsSegment, IsSegment, EndsOff, append-EndsOff, join-EndsOff,
  trim_suffix-EndsOff, trim_suffix-snoc,
}
use kubewaf.Prelude.Result.{Result, ok, err}
use kubewaf.Api.SecRule.{is_nil}
use kubewaf.Server.Routes.{
  PathError, not_found, WafRoute, api_prefix, slash, split_path, segments, has_empty,
  WafSubresource, directives, metrics, traces, of_subresource, routed, waf_route_at, extra_of,
  parse_waf_subresource_path, waf_route_of,
}

-- The path of some segments.
abbrev pub path_of : List Bytes → Bytes
path_of segs = api_prefix ++ (slash ∷ join segs (slash ∷ []))

abbrev pub AreSegments : List Bytes → Type 0
AreSegments = All (IsSegment slash)

pieces : (segs : List Bytes) → AreSegments segs → All (IsPiece slash) segs
pieces [] _ = tt
pieces (s ∷ ss) ((_, h), hs) = (h, pieces ss hs)

not_empty :
    (s : Bytes) (ss : List Bytes) → IsSegment slash s → is_nil (join (s ∷ ss) (slash ∷ [])) ≡ false
unfolding join
not_empty [] ss (h, _) = cc
not_empty (c ∷ s) [] h = refl
not_empty (c ∷ s) (t ∷ ss) h = refl

split_behind :
    (s : Bytes) (ss : List Bytes)
    → AreSegments (s ∷ ss)
    → split_path (slash ∷ join (s ∷ ss) (slash ∷ [])) ≡ s ∷ ss
unfolding split_path trim_prefix
split_behind s ss h =
    let whole = join (s ∷ ss) (slash ∷ []) in
    if_false (is_nil whole) [] (split whole slash) (not_empty s ss h.0)
    ∙ split-join slash s ss (pieces (s ∷ ss) h)

path-EndsOff :
    (s : Bytes) (ss : List Bytes) → AreSegments (s ∷ ss) → EndsOff slash (path_of (s ∷ ss))
path-EndsOff s ss h =
    append-EndsOff slash (api_prefix ++ (slash ∷ [])) (join (s ∷ ss) (slash ∷ []))
      (join-EndsOff slash s ss h)

-- The segments of a path are those that it was made of, with or without a slash behind it.
segments-path :
    (s : Bytes) (ss : List Bytes) (url : Bytes)
    → AreSegments (s ∷ ss)
    → trim_suffix url slash ≡ path_of (s ∷ ss)
    → segments url ≡ s ∷ ss
unfolding segments
segments-path s ss url h trimmed =
    ap (λ t. split_path (trim_front t api_prefix)) trimmed
    ∙ ap split_path (trim_front-append api_prefix (slash ∷ join (s ∷ ss) (slash ∷ [])))
    ∙ split_behind s ss h

abbrev pub IsPath : Bytes → List Bytes → Type 0
IsPath url segs = (url ≡ path_of segs) ⊎ (url ≡ path_of segs ++ (slash ∷ []))

pub segments_of_path :
    (s : Bytes) (ss : List Bytes) (url : Bytes)
    → AreSegments (s ∷ ss)
    → IsPath url (s ∷ ss)
    → segments url ≡ s ∷ ss
segments_of_path s ss url h (inl e) = segments-path s ss url h (
    ap (λ t. trim_suffix t slash) e
    ∙ trim_suffix-EndsOff slash (path_of (s ∷ ss)) (path-EndsOff s ss h))
segments_of_path s ss url h (inr e) =
    segments-path s ss url h
      (ap (λ t. trim_suffix t slash) e ∙ trim_suffix-snoc slash (path_of (s ∷ ss)))

abbrev pub name_of : WafSubresource → Bytes
name_of directives = codes "directives"
name_of metrics = codes "metrics"
name_of traces = codes "traces"

-- What the path of some segments stands for: the route, or for a suffix behind another subresource than
-- `traces` the refusal.
abbrev pub route_or_refusal :
    Bytes → Bytes → WafSubresource → List Bytes → Result PathError WafRoute
route_or_refusal ns name sub [] =
    ok (record { namespace = ns; name = name; subresource = sub; extra = [] })
route_or_refusal ns name traces (s ∷ ss) = ok (record {
  namespace = ns;
  name = name;
  subresource = traces;
  extra = join (s ∷ ss) (slash ∷ []);
})
route_or_refusal ns name directives (s ∷ ss) = err (not_found (codes "unexpected path suffix"))
route_or_refusal ns name metrics (s ∷ ss) = err (not_found (codes "unexpected path suffix"))

no_empty : (ss : List Bytes) → AreSegments ss → has_empty ss ≡ false
unfolding has_empty
no_empty [] _ = refl
no_empty ([] ∷ ss) (h, _) = cc
no_empty ((c ∷ s) ∷ ss) (_, h) = no_empty ss h

routed-extra :
    (ns name : Bytes) (sub : WafSubresource) (extra : List Bytes)
    → AreSegments extra
    → routed ns name sub (extra_of sub extra) ≡ route_or_refusal ns name sub extra
unfolding extra_of routed
routed-extra ns name sub [] h = refl
routed-extra ns name traces (s ∷ ss) h =
    ap (routed ns name traces)
      (if_false (has_empty (s ∷ ss)) _ (ok (join (s ∷ ss) (slash ∷ []))) (no_empty (s ∷ ss) h))
routed-extra ns name directives (s ∷ ss) h = refl
routed-extra ns name metrics (s ∷ ss) h = refl

fixed_IsSegment : (sub : WafSubresource) → IsSegment slash (name_of sub)
unfolding has_byte
fixed_IsSegment directives = constant_IsSegment slash (name_of directives) refl refl
fixed_IsSegment metrics = constant_IsSegment slash (name_of metrics) refl refl
fixed_IsSegment traces = constant_IsSegment slash (name_of traces) refl refl

waf_route_of-segments :
    (ns name : Bytes) (sub : WafSubresource) (extra : List Bytes)
    → is_nil ns ≡ false
    → is_nil name ≡ false
    → AreSegments extra
    → waf_route_of (codes "namespaces") ns (codes "wafs") name (name_of sub) extra
      ≡ route_or_refusal ns name sub extra
unfolding waf_route_of of_subresource routed has_empty bytes_eq
waf_route_of-segments [] name sub extra hn hm he = cc
waf_route_of-segments (c ∷ ns) [] sub extra hn hm he = cc
waf_route_of-segments (c ∷ ns) (d ∷ name) directives extra hn hm he =
    routed-extra (c ∷ ns) (d ∷ name) directives extra he
waf_route_of-segments (c ∷ ns) (d ∷ name) metrics extra hn hm he =
    routed-extra (c ∷ ns) (d ∷ name) metrics extra he
waf_route_of-segments (c ∷ ns) (d ∷ name) traces extra hn hm he =
    routed-extra (c ∷ ns) (d ∷ name) traces extra he

-- The path of a route whose names and suffix are segments parses back to that route, with or without
-- one slash behind it, except that a suffix behind another subresource than `traces` is refused.
pub parse_waf_subresource_path-round_trip :
    (ns name : Bytes) (sub : WafSubresource) (extra : List Bytes) (url : Bytes)
    → IsSegment slash ns
    → IsSegment slash name
    → AreSegments extra
    → IsPath url (codes "namespaces" ∷ ns ∷ codes "wafs" ∷ name ∷ name_of sub ∷ extra)
    → parse_waf_subresource_path url ≡ route_or_refusal ns name sub extra
unfolding parse_waf_subresource_path waf_route_at has_byte
parse_waf_subresource_path-round_trip ns name sub extra url hn hm he p =
    let first = constant_IsSegment slash (codes "namespaces") refl refl in
    let third = constant_IsSegment slash (codes "wafs") refl refl in
    ap waf_route_at (
      segments_of_path (codes "namespaces") (ns ∷ codes "wafs" ∷ name ∷ name_of sub ∷ extra) url
        (first, (hn, (third, (hm, (fixed_IsSegment sub, he))))) p)
    ∙ waf_route_of-segments ns name sub extra hn.0 hm.0 he
