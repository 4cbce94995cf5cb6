-- ===== src/Promql/Matcher/Failures.antt =====
-- internal/subresourceapi/promql_scope.go: how the work on the matchers of a selector can end.
use kubewaf.Prelude.{◌≡◌, refl, ◌&&◌, ◌||◌, List, [], ◌∷◌, ◌++◌}
use kubewaf.Prelude.Bytes.{Bytes, codes, bytes_eq, trim_space}
use kubewaf.Promql.Scan.{Mode, plain, is_plain}
use kubewaf.Promql.Matcher.{
  WafIdentity, LabelMatcher, is_empty, finish_split, split_loop, split_matchers, parse_matcher,
  note_matcher, extract_from, extract_identity_matchers, any_fits, reject_foreign_identity,
  is_identity_key, waf_namespace, waf_name,
}
use kubewaf.Promql.Scope.{inject_identity, selector_body}
use kubewaf.Promql.Post.{Post, returned, failed, if-Post, bind-Post, option-Post}

abbrev pub Anything : {A : Type 0} → A → Type 0
Anything a = Unit

split_loop-Post :
    (s : Bytes) (m : Mode) (parts : List Bytes) (cur : Bytes)
    → Post Anything (split_loop m parts cur s)
unfolding split_loop finish_split
split_loop-Post [] m parts cur = if-Post (is_plain m) (returned tt) (failed tt)
split_loop-Post (c ∷ s) m parts cur = split_loop-Post s _ _ _

pub split_matchers-Post : (s : Bytes) → Post Anything (split_matchers s)
unfolding split_matchers
split_matchers-Post s =
    if-Post (is_empty (trim_space s)) (returned tt) (split_loop-Post (trim_space s) plain [] [])

note_matcher-Post : (id : WafIdentity) (m : LabelMatcher) → Post Anything (note_matcher id m)
unfolding note_matcher
note_matcher-Post id m =
    if-Post (bytes_eq m.op (codes "="))
      (if-Post (bytes_eq m.key waf_namespace) (returned tt)
        (if-Post (bytes_eq m.key waf_name) (returned tt) (returned tt)))
      (if-Post (is_identity_key m.key) (failed tt) (returned tt))

extract_from-Post : (id : WafIdentity) (ms : List Bytes) → Post Anything (extract_from id ms)
unfolding extract_from
extract_from-Post id [] = returned tt
extract_from-Post id (m ∷ ms) = option-Post (parse_matcher m) (extract_from-Post id ms) λ p.
    bind-Post (note_matcher id p) _ (note_matcher-Post id p) (λ id' _. extract_from-Post id' ms)

pub extract_identity_matchers-Post : (s : Bytes) → Post Anything (extract_identity_matchers s)
unfolding extract_identity_matchers
extract_identity_matchers-Post s =
    bind-Post (split_matchers s) _ (split_matchers-Post s) (λ ms _. extract_from-Post _ ms)

pub reject_foreign_identity-Post :
    (s : Bytes) (ids : List WafIdentity) → Post Anything (reject_foreign_identity s ids)
unfolding reject_foreign_identity
reject_foreign_identity-Post s ids =
    bind-Post (extract_identity_matchers s) _ (extract_identity_matchers-Post s) λ named _.
      if-Post (is_empty named.namespace && is_empty named.name) (returned tt)
        (if-Post (any_fits named ids) (returned tt) (failed tt))

-- A selector that is returned is the metric with the scope and the matchers in braces.
pub inject_identity-Post :
    (metric inner : Bytes) (id : WafIdentity)
    → Post
        (λ sel. sel ≡ metric ++ (codes "{" ++ (selector_body inner id ++ codes "}")))
        (inject_identity metric inner id)
unfolding inject_identity
inject_identity-Post metric inner id =
    if-Post (is_empty id.namespace || is_empty id.name) (failed tt) (returned refl)
