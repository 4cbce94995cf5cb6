-- ===== src/Promql/Grammar.antt =====
-- internal/subresourceapi/promql_scope.go: what a scoped query consists of, stated apart from the walk.
use kubewaf.Prelude.{
  false, drop, All, is_nil, if◌then◌else◌, ℕ, ◌≡◌, true, [], ◌∷◌, List, ◌++◌, map, ◌==◌,
}
use kubewaf.Prelude.Bytes.{Bytes, codes, mem, to_lower, trim_space, trim_prefix, trim_suffix}
use kubewaf.Prelude.Result.{ok}
use kubewaf.Promql.Scan.{
  skip_paren, is_blank, read_selector, skip_quoted, skip_number, skip_bracket, read_ident, is_quote,
  is_number_start, is_ident_start, skip_space,
}
use kubewaf.Promql.Matcher.{WafIdentity, reject_foreign_identity, strip_identity_matchers}
use kubewaf.Promql.Scope.{quote_go}
use kubewaf.Promql.Names.{promql_keywords, promql_aggregators, grouping_keywords}
use kubewaf.Promql.Selectors.{Output, starts, union_of, copy_grouping_list}

-- The matchers of the labels that a WAF's metrics carry, the namespace and the name quoted.
abbrev pub identity_matchers : WafIdentity → Bytes
identity_matchers id =
    codes "waf_namespace=" ++ (quote_go id.namespace ++ (codes ",waf_name=" ++ quote_go id.name))

-- The selector of a metric for one WAF: its matchers stand first between the braces.
abbrev pub scoped_selector : Bytes → Bytes → Bytes → WafIdentity → Bytes
unfolding trim_space
scoped_selector metric inner range id =
    (metric
      ++ (codes "{"
          ++ ((if is_nil (trim_space inner)
                then identity_matchers id
                else identity_matchers id ++ (codes "," ++ trim_space inner))
              ++ codes "}")))
    ++ range

-- A range function called on such a selector.
abbrev pub scoped_call : Bytes → Bytes → Bytes → Bytes → Bytes → WafIdentity → Bytes
scoped_call function metric inner range extra id =
    function ++ (codes "(" ++ (scoped_selector metric inner range id ++ (extra ++ codes ")")))

-- The identifier at the front of the text.
abbrev pub ident_of : Bytes → Bytes
unfolding read_ident
ident_of q = (read_ident q).taken

-- A slice `w` of the text `q`, with `rest` behind it, that may be written as it stands: a string, a
-- number or a range as the scanners cut it, a keyword with the labels behind it if it groups, the name
-- of a function or of an aggregator, or a byte that begins no selector.
pub data IsVerbatim (q w rest : Bytes) : Type 0 where
  string :
      (c : ℕ) (s : Bytes)
      → w ≡ c ∷ s
      → is_quote c ≡ true
      → skip_quoted q ≡ ok (record { taken = w; rest = rest })
      → IsVerbatim q w rest
  number : is_number_start q ≡ true → w ≡ (skip_number q).taken → IsVerbatim q w rest
  range :
      (s : Bytes)
      → w ≡ b'[' ∷ s
      → skip_bracket q ≡ ok (record { taken = w; rest = rest })
      → IsVerbatim q w rest
  keyword :
      w ≡ ident_of q → mem (to_lower (ident_of q)) promql_keywords ≡ true → IsVerbatim q w rest
  grouping :
      w ≡ ident_of q ++ (copy_grouping_list (read_ident q).rest).written
      → mem (to_lower (ident_of q)) grouping_keywords ≡ true
      → IsVerbatim q w rest
  function : w ≡ ident_of q → starts b'(' (skip_space rest).rest ≡ true → IsVerbatim q w rest
  aggregator :
      w ≡ ident_of q → mem (to_lower (ident_of q)) promql_aggregators ≡ true → IsVerbatim q w rest
  other :
      (c : ℕ)
      → w ≡ c ∷ []
      → is_quote c ≡ false
      → (c == b'{') ≡ false
      → is_ident_start c ≡ false
      → IsVerbatim q w rest

abbrev pub IsBlank : Bytes → Type 0
IsBlank = All (λ c. is_blank c ≡ true)

-- The text begins with a selector: a metric, or matchers between braces, or both. `inner` is what stands
-- between the braces, and `after` is behind the selector.
pub data IsSelector (text metric inner after : Bytes) : Type 0 where
  bare :
      (gap : Bytes)
      → metric ++ (gap ++ after) ≡ text
      → IsBlank gap
      → inner ≡ []
      → IsSelector text metric inner after
  braced :
      (gap braces sel : Bytes)
      → metric ++ (gap ++ braces) ≡ text
      → IsBlank gap
      → read_selector braces ≡ ok (record { taken = sel; rest = after })
      → inner ≡ trim_space (trim_prefix (trim_suffix sel b'}') b'{')
      → IsSelector text metric inner after

-- The range behind a selector, with the blanks before it, and the text behind it; or no range.
pub data IsRange (after range behind : Bytes) : Type 0 where
  without : range ≡ [] → behind ≡ after → IsRange after range behind
  bracketed :
      (gap brackets cut : Bytes)
      → gap ++ brackets ≡ after
      → IsBlank gap
      → skip_bracket brackets ≡ ok (record { taken = cut; rest = behind })
      → range ≡ gap ++ cut
      → IsRange after range behind

-- No brace in it.
abbrev pub HasNoBrace : Bytes → Type 0
HasNoBrace = All (λ c. ((c == b'{') ≡ false) × ((c == b'}') ≡ false))

-- What one round may write at the text `q` for the WAFs `ids`: the copied slice; or in the place of the
-- selector at the front, that selector once for each WAF, with its range; or in the place of a range
-- function's call on a selector, the call once for each WAF, where `extra`, which are all the arguments
-- behind the selector and its range, is copied as it stands and has no brace. The matchers of a
-- selector were accepted for these WAFs, and those of the identity are taken out of them.
pub data IsPiece (ids : List WafIdentity) (q : Bytes) (o : Output) : Type 0 where
  copied : o.written ++ o.rest ≡ q → IsVerbatim q o.written o.rest → IsPiece ids q o
  selected :
      (inner after range : Bytes)
      → IsSelector q (ident_of q) inner after
      → IsRange after range o.rest
      → reject_foreign_identity inner ids ≡ ok tt
      → o.written
        ≡ union_of (map (scoped_selector (ident_of q) (strip_identity_matchers inner) range) ids)
      → IsPiece ids q o
  called :
      (gap call paren lead text metric inner after range extra : Bytes) (last : ℕ)
      → ident_of q ++ (gap ++ call) ≡ q
      → skip_paren call ≡ ok (record { taken = paren; rest = o.rest })
      → lead ++ text ≡ drop 1 call
      → IsBlank lead
      → IsSelector text metric inner after
      → IsRange after range (extra ++ (last ∷ o.rest))
      → HasNoBrace extra
      → reject_foreign_identity inner ids ≡ ok tt
      → o.written
        ≡ union_of
            (map (scoped_call (ident_of q) metric (strip_identity_matchers inner) range extra) ids)
      → IsPiece ids q o

-- `out` is `q` with each piece copied or scoped.
pub data IsScoped (ids : List WafIdentity) : Bytes → Bytes → Type 0 where
  done : IsScoped ids [] []
  next :
      {q out : Bytes} (o : Output)
      → IsPiece ids q o
      → IsScoped ids o.rest out
      → IsScoped ids q (o.written ++ out)
