-- ===== src/Promql/Matcher.antt =====
-- internal/subresourceapi/promql_scope.go: the matchers of one selector, and the scope put into it.
pub mod Failures
use mathlib.Core.Option
use kubewaf.Prelude.{
  ℕ, ◌+◌, ◌-◌, ◌/◌, ◌%◌, Bool, true, false, ◌&&◌, ◌||◌, Option, none, some, List, [], ◌∷◌, ◌++◌,
  ltb, ◌==◌, if◌then◌else◌, length, drop,
}
use kubewaf.Prelude.Bytes.{Bytes, codes, bytes_eq, has_prefix, join, trim_space}
use kubewaf.Prelude.Result.{Result, ok, err, ◌>>=◌}
use kubewaf.Promql.Scan.{
  Error, invalid_identity, escapes_scope, not_exact, unterminated_matcher, Mode, plain, step,
  is_plain, is_quote,
}

pub record WafIdentity : Type 0 where
  pub namespace : Bytes
  pub name : Bytes

abbrev pub is_empty : Bytes → Bool
is_empty [] = true
is_empty (c ∷ s) = false

-- `if s := TrimSpace(cur); s != "" { parts = append(parts, s) }`
last_part : List Bytes → Bytes → List Bytes
last_part parts [] = parts
last_part parts (c ∷ s) = parts ++ (c ∷ s) ∷ []

-- Behind the loop of `splitMatchers`.
finish_split : Mode → List Bytes → Bytes → Result Error (List Bytes)
unfolding last_part trim_space
finish_split m parts cur =
    if is_plain m then ok (last_part parts (trim_space cur)) else err unterminated_matcher

-- The loop of `splitMatchers`; a backslash in a string is written with the byte behind it.
split_loop : Mode → List Bytes → Bytes → Bytes → Result Error (List Bytes)
unfolding finish_split step
split_loop m parts cur [] = finish_split m parts cur
split_loop m parts cur (c ∷ s) =
    let cut = is_plain m && c == b',' in
    split_loop (step m c) (if cut then parts ++ trim_space cur ∷ [] else parts)
      (if cut then [] else cur ++ c ∷ []) s

unfoldable pub split_matchers : Bytes → Result Error (List Bytes)
unfolding split_loop
split_matchers inner =
    let t = trim_space inner in if is_empty t then ok [] else split_loop plain [] [] t

-- `strings.Index`: the text before the first occurrence, and the text behind it.
unfoldable pub find_sub : Bytes → Bytes → Option (Bytes × Bytes)
unfolding has_prefix
find_sub pat [] = none
find_sub pat (c ∷ s) =
    if has_prefix (c ∷ s) pat
    then some ([], drop (length pat) (c ∷ s))
    else Option.map (λ (before, after). (c ∷ before, after)) (find_sub pat s)

pub record LabelMatcher : Type 0 where
  pub key : Bytes
  pub op : Bytes
  pub val : Bytes

last : ℕ → Bytes → ℕ
last c [] = c
last c (d ∷ s) = last d s

init : ℕ → Bytes → Bytes
init c [] = []
init c (d ∷ s) = c ∷ init d s

strip_quotes : Bytes → Bytes
unfolding last init
strip_quotes [] = []
strip_quotes (c ∷ []) = c ∷ []
strip_quotes (c ∷ d ∷ s) = if is_quote c && last d s == c then init d s else c ∷ d ∷ s

unfoldable pub unquote_prom : Bytes → Bytes
unfolding strip_quotes
unquote_prom s = strip_quotes (trim_space s)

-- The operators in the order in which `parseMatcher` tries them.
abbrev pub operators : List Bytes
operators = codes "=~" ∷ codes "!~" ∷ codes "!=" ∷ codes "=" ∷ []

-- The body of the loop where the operator was found behind at least one byte; no key is `ok = false`.
found_matcher : Bytes → Bytes → Bytes → Option LabelMatcher
unfolding unquote_prom
found_matcher op before after =
    let key = trim_space before in
    if is_empty key
    then none
    else some (record { key = key; op = op; val = unquote_prom (trim_space after) })

parse_with : List Bytes → Bytes → Option LabelMatcher
unfolding found_matcher find_sub
parse_with [] m = none
parse_with (op ∷ ops) m =
    let next = parse_with ops m in
    elim (find_sub op m) [
      | none ↦ next
      | some (before, after) ↦ if is_empty before then next else found_matcher op before after
    ]

unfoldable pub parse_matcher : Bytes → Option LabelMatcher
unfolding parse_with
parse_matcher m = parse_with operators (trim_space m)

abbrev pub waf_namespace : Bytes
waf_namespace = codes "waf_namespace"

abbrev pub waf_name : Bytes
waf_name = codes "waf_name"

unfoldable pub is_identity_key : Bytes → Bool
unfolding bytes_eq
is_identity_key key = bytes_eq key waf_namespace || bytes_eq key waf_name

-- What one matcher adds to the identity that was read so far.
note_matcher : WafIdentity → LabelMatcher → Result Error WafIdentity
unfolding is_identity_key
note_matcher id m =
    if bytes_eq m.op (codes "=")
    then if bytes_eq m.key waf_namespace
      then ok (record id { namespace = m.val })
      else if bytes_eq m.key waf_name
      then ok (record id { name = m.val })
      else ok id
    else if is_identity_key m.key
    then err not_exact
    else ok id

extract_from : WafIdentity → List Bytes → Result Error WafIdentity
unfolding note_matcher parse_matcher
extract_from id [] = ok id
extract_from id (m ∷ ms) = elim (parse_matcher m) [
  | none ↦ extract_from id ms
  | some p ↦ note_matcher id p >>= λ id'. extract_from id' ms
]

unfoldable pub extract_identity_matchers : Bytes → Result Error WafIdentity
unfolding extract_from split_matchers
extract_identity_matchers inner = do
  matchers ← split_matchers inner
  extract_from (record { namespace = []; name = [] }) matchers

-- An empty part of the identity, one that the query does not name, fits every WAF.
unfoldable pub fits : WafIdentity → WafIdentity → Bool
unfolding bytes_eq
fits named id =
    (is_empty named.namespace || bytes_eq named.namespace id.namespace)
    && (is_empty named.name || bytes_eq named.name id.name)

unfoldable pub any_fits : WafIdentity → List WafIdentity → Bool
unfolding fits
any_fits named [] = false
any_fits named (id ∷ ids) = fits named id || any_fits named ids

unfoldable pub reject_foreign_identity : Bytes → List WafIdentity → Result Error (Unit {0})
unfolding extract_identity_matchers any_fits
reject_foreign_identity inner allowed = do
  named ← extract_identity_matchers inner
  if is_empty named.namespace && is_empty named.name
      then ok tt
      else if any_fits named allowed
      then ok tt
      else err escapes_scope

unfoldable pub names_identity : Bytes → Bool
unfolding is_identity_key parse_matcher
names_identity m = elim (parse_matcher m) [ none ↦ false | some p ↦ is_identity_key p.key ]

unfoldable pub keep_foreign : List Bytes → List Bytes
unfolding names_identity
keep_foreign [] = []
keep_foreign (m ∷ ms) = let rest = keep_foreign ms in if names_identity m then rest else m ∷ rest

unfoldable pub strip_identity_matchers : Bytes → Bytes
unfolding keep_foreign split_matchers
strip_identity_matchers inner = elim (split_matchers inner) [
  | err _ ↦ inner
  | ok matchers ↦ join (keep_foreign matchers) (codes ",")
]
