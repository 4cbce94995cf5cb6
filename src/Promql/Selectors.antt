-- ===== src/Promql/Selectors.antt =====
-- internal/subresourceapi/promql_scope.go: the selectors that stand for one selector of the query.
pub mod Shape
pub mod Call
use kubewaf.Prelude.{
  ℕ, zero, suc, ◌-◌, Bool, true, false, ◌&&◌, ◌||◌, Option, none, some, List, [], ◌∷◌, ◌++◌, map,
  ltb, ◌==◌, if◌then◌else◌, length, take, drop,
}
use kubewaf.Prelude.Bytes.{Bytes, codes, mem, join, trim_space, trim_prefix, trim_suffix, to_lower}
use kubewaf.Prelude.Result.{Result, ok, err, ◌>>=◌, ◌>>◌}
use kubewaf.Promql.Scan.{
  Error, empty_query, missing_identity, panic, out_of_fuel, Cut, skip_quoted, read_selector,
  skip_bracket, skip_paren, skip_number, is_number_start, is_ident_start, skip_space, read_ident,
  is_quote,
}
use kubewaf.Promql.Scope.{inject_identity}
use kubewaf.Promql.Matcher.{WafIdentity, is_empty, reject_foreign_identity, strip_identity_matchers}

-- `i < len(q) && q[i] == c`
abbrev pub starts : ℕ → Bytes → Bool
starts c [] = false
starts c (d ∷ s) = d == c

-- The text written for a selector, and the query behind the selector.
pub record Output : Type 0 where
  pub written : Bytes
  pub rest : Bytes

-- The selectors for the WAFs, one for each, and the query behind the selector.
pub record Parts : Type 0 where
  pub parts : List Bytes
  pub after : Bytes

inject_all : Bytes → Bytes → Bytes → List WafIdentity → Result Error (List Bytes)
unfolding inject_identity
inject_all metric cleaned range_str [] = ok []
inject_all metric cleaned range_str (id ∷ ids) = do
  sel ← inject_identity metric cleaned id
  parts ← inject_all metric cleaned range_str ids
  ok ((sel ++ range_str) ∷ parts)

-- The range behind a selector with the spaces before it, if there is one.
unfoldable pub read_range : Bytes → Result Error Cut
unfolding skip_space skip_bracket
read_range after =
    let gap = skip_space after in
    if starts b'[' gap.rest
    then (do
      range ← skip_bracket gap.rest
      ok (record { taken = gap.taken ++ range.taken; rest = range.rest }))
    else ok (record { taken = []; rest = after })

unfoldable pub scoped_selector_parts : Bytes → Bytes → Bytes → List WafIdentity → Result Error Parts
unfolding inject_all reject_foreign_identity strip_identity_matchers read_range
scoped_selector_parts metric inner after ids = do
  reject_foreign_identity inner ids
  range ← read_range after
  parts ← inject_all metric (strip_identity_matchers inner) range.taken ids
  ok (record { parts = parts; after = range.rest })

-- One part stands as it is; a union is put in parentheses.
unfoldable pub union_of : List Bytes → Bytes
unfolding join
union_of (p ∷ []) = p
union_of ps = codes "(" ++ (join ps (codes " or ") ++ codes ")")

unfoldable pub emit_scoped_selectors :
    Bytes → Bytes → Bytes → List WafIdentity → Result Error Output
unfolding scoped_selector_parts union_of
emit_scoped_selectors metric inner after ids = do
  r ← scoped_selector_parts metric inner after ids
  ok (record { written = union_of r.parts; rest = r.after })

-- What stands between the braces of a selector.
unfoldable pub inner_of : Bytes → Bytes
unfolding trim_space trim_prefix trim_suffix
inner_of sel = trim_space (trim_prefix (trim_suffix sel b'}') b'{')

unfoldable pub rewrite_selector_at : Bytes → Bytes → List WafIdentity → Result Error Output
unfolding emit_scoped_selectors inner_of read_selector
rewrite_selector_at metric q ids = do
  sel ← read_selector q
  emit_scoped_selectors metric (inner_of sel.taken) sel.rest ids

-- `isAggModifier`
unfoldable pub is_agg_modifier : Bytes → Bool
unfolding read_ident to_lower mem skip_space
is_agg_modifier [] = false
is_agg_modifier (c ∷ q) =
    if c == b'('
    then true
    else let ident = read_ident (c ∷ q) in
      mem (to_lower ident.taken) (codes "by" ∷ codes "without" ∷ [])
      && starts b'(' (skip_space ident.rest).rest

-- What `copyGroupingList` writes of the text `q`, with the spaces `gap` at its front.
labels_behind : Bytes → Bytes → Result Error Cut → Output
labels_behind q gap (ok labels) = record { written = gap ++ labels.taken; rest = labels.rest }
labels_behind q gap (err _) = record { written = []; rest = q }

-- `copyGroupingList`: the labels behind a grouping keyword, or nothing.
unfoldable pub copy_grouping_list : Bytes → Output
unfolding skip_space skip_paren labels_behind
copy_grouping_list q =
    let gap = skip_space q in
    if starts b'(' gap.rest
    then labels_behind q gap.taken (skip_paren gap.rest)
    else record { written = []; rest = q }

-- `text[lo:hi]`
slice : Bytes → ℕ → ℕ → Result Error Bytes
slice text lo hi = if ltb hi lo then err panic else ok (drop lo (take hi text))

-- The argument of a range function up to its selector: the metric, what stands between the braces
-- if they are there, and the text behind them. `none` is the result `ok = false` of the source.
pub record Argument : Type 0 where
  pub metric : Bytes
  pub inner : Bytes
  pub after : Bytes

unfoldable pub read_argument : Bytes → Result Error (Option Argument)
unfolding skip_space read_ident read_selector inner_of
read_argument inside =
    let at = (skip_space inside).rest in
    let ident = read_ident at in
    let behind = if is_empty ident.taken then at else (skip_space ident.rest).rest in
    if starts b'{' behind
    then (do
      sel ← read_selector behind
      ok (some (record { metric = ident.taken; inner = inner_of sel.taken; after = sel.rest })))
    else if is_empty ident.taken
    then ok none
    else ok (some (record { metric = ident.taken; inner = []; after = behind }))

abbrev pub has_brace : Bytes → Bool
has_brace [] = false
has_brace (c ∷ s) = c == b'{' || c == b'}' || has_brace s

-- `ident + "(" + p + extra + ")"`
abbrev pub call_of : Bytes → Bytes → Bytes → Bytes
call_of ident extra p = ident ++ (codes "(" ++ (p ++ (extra ++ codes ")")))

-- `rewriteRangeFuncCall`; `call` begins at the parenthesis.
unfoldable pub rewrite_range_func_call :
    Bytes → Bytes → List WafIdentity → Result Error (Option Output)
unfolding read_argument scoped_selector_parts skip_paren slice union_of
rewrite_range_func_call ident call ids = do
  arg ← read_argument (drop 1 call)
  elim arg [
    | none ↦ ok none
    | some a ↦ do
      r ← scoped_selector_parts a.metric a.inner a.after ids
      paren ← skip_paren call
      extra ← slice call (length call - length r.after) (length paren.taken - 1)
      if has_brace extra
          then ok none
          else ok (
              some (record {
                written = union_of (map (call_of ident extra) r.parts);
                rest = paren.rest;
              }))
  ]
