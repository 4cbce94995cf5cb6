-- ===== src/Promql/Selectors/Shape.antt =====
-- internal/subresourceapi/promql_scope.go: each selector is written once for each WAF, with its scope.
use kubewaf.Prelude.{
  ℕ, ◌≤◌, ◌<◌, ◌≡◌, refl, ap, ◌∙◌, [], ◌∷◌, List, ◌++◌, map, append_assoc, length, length-append,
  arith, if_ind,
}
use kubewaf.Prelude.Bytes.{Bytes, codes, trim_space}
use kubewaf.Prelude.Result.{Result, ok, err}
use kubewaf.Promql.Scan.{Error, Cut, skip_bracket, skip_paren, read_selector, skip_space}
use kubewaf.Promql.Scan.Slices.{
  Splits, read_selector-Splits, skip_bracket-Splits, skip_paren-Splits, skip_space-Spells,
  skip_space-All,
}
use kubewaf.Promql.Matcher.{WafIdentity, reject_foreign_identity, strip_identity_matchers}
use kubewaf.Promql.Matcher.Failures.{reject_foreign_identity-Post, inject_identity-Post}
use kubewaf.Promql.Scope.{inject_identity, selector_body, scope_of}
use kubewaf.Promql.Post.{Post, returned, if-Post, bind-Post, bind-eq-Post, returns-Post}
use kubewaf.Promql.Grammar.{
  ident_of, scoped_selector, IsPiece, selected, IsBlank, IsSelector, bare, braced, IsRange, without,
  bracketed,
}
use kubewaf.Promql.Selectors.{
  Output, Parts, inject_all, read_range, scoped_selector_parts, union_of, emit_scoped_selectors,
  rewrite_selector_at, inner_of, labels_behind, copy_grouping_list, starts,
}

pub rest-le : (q taken rest : Bytes) → taken ++ rest ≡ q → length rest ≤ length q
rest-le q taken rest e = omega (arith, length-append taken rest, ap length e)

pub rest-lt : (q taken rest : Bytes) → taken ++ rest ≡ q → 0 < length taken → length rest < length q
rest-lt q taken rest e h = omega (arith, length-append taken rest, ap length e)

-- The injected_selector selector is the one of the grammar.
injected_selector :
    (metric inner range : Bytes) (id : WafIdentity)
    → (metric ++ (codes "{" ++ (selector_body inner id ++ codes "}"))) ++ range
      ≡ scoped_selector metric inner range id
unfolding selector_body scope_of trim_space
injected_selector metric inner range id = refl

inject_all-Post :
    (metric inner range : Bytes) (ids : List WafIdentity)
    → Post
        (λ ps. ps ≡ map (scoped_selector metric inner range) ids)
        (inject_all metric inner range ids)
unfolding inject_all
inject_all-Post metric inner range [] = returned refl
inject_all-Post metric inner range (id ∷ ids) =
    bind-Post (inject_identity metric inner id) _ (inject_identity-Post metric inner id) λ sel e.
      bind-Post (inject_all metric inner range ids) _ (inject_all-Post metric inner range ids)
        λ ps f. returned (
          ap (λ s. (s ++ range) ∷ ps) e
          ∙ ap (λ s. s ∷ ps) (injected_selector metric inner range id)
          ∙ ap (λ xs. scoped_selector metric inner range id ∷ xs) f)

-- The text ends in `rest`.
abbrev pub EndsIn : Bytes → Bytes → Type 0
EndsIn q rest = (gone : Bytes) × (gone ++ rest ≡ q)

ends_in : (q rest : Bytes) (gone : Bytes) → gone ++ rest ≡ q → EndsIn q rest
ends_in q rest gone e = (gone, e)

pub EndsIn-trans : (q r s : Bytes) → EndsIn q r → EndsIn r s → EndsIn q s
EndsIn-trans q r s (gone, e) (gone', e') = (gone ++ gone', rw append_assoc (rw e' e))

EndsIn-le : (q r : Bytes) → EndsIn q r → length r ≤ length q
EndsIn-le q r (gone, e) = rest-le q gone r e

read_range-Post : (after : Bytes) → Post (λ r. IsRange after r.taken r.rest) (read_range after)
unfolding read_range
read_range-Post after =
    let gap = skip_space after in
    if-Post (starts b'[' gap.rest)
      (bind-eq-Post (skip_bracket gap.rest) _ (skip_bracket-Splits gap.rest) λ r cut _. returned (
        bracketed gap.taken gap.rest r.taken (skip_space-Spells after) (skip_space-All after) cut
          refl))
      (returned (without refl refl))

pub IsRange-EndsIn : (after range behind : Bytes) → IsRange after range behind → EndsIn after behind
IsRange-EndsIn after range behind (without e f) = ([], f)
IsRange-EndsIn after range behind (bracketed gap brackets cut e blank found f) =
    let h = returns-Post (skip_bracket-Splits brackets) found in
    EndsIn-trans after brackets behind (gap, e) (cut, h.0)

pub IsSelector-EndsIn :
    (text metric inner after : Bytes) → IsSelector text metric inner after → EndsIn text after
IsSelector-EndsIn text metric inner after (bare gap e blank f) = (metric ++ gap, rw append_assoc e)
IsSelector-EndsIn text metric inner after (braced gap braces sel e blank found f) =
    let h = returns-Post (read_selector-Splits braces) found in
    EndsIn-trans text braces after (metric ++ gap, rw append_assoc e) (sel, h.0)

-- The parts are the selectors of the WAFs, in their order, with the range behind them.
abbrev pub AreScoped : Bytes → Bytes → Bytes → List WafIdentity → Parts → Type 0
AreScoped metric inner after ids r =
    (range : Bytes) × (r.parts
      ≡ map (scoped_selector metric (strip_identity_matchers inner) range) ids)
    × IsRange after range r.after
    × (reject_foreign_identity inner ids ≡ ok tt)

pub scoped_selector_parts-Post :
    (metric inner after : Bytes) (ids : List WafIdentity)
    → Post (AreScoped metric inner after ids) (scoped_selector_parts metric inner after ids)
unfolding scoped_selector_parts
scoped_selector_parts-Post metric inner after ids =
    bind-eq-Post (reject_foreign_identity inner ids) _ (reject_foreign_identity-Post inner ids)
      λ _ accepted _. bind-Post (read_range after) _ (read_range-Post after) λ range cut.
        bind-Post (inject_all metric (strip_identity_matchers inner) range.taken ids) _
          (inject_all-Post metric (strip_identity_matchers inner) range.taken ids)
          λ parts e. returned (range.taken, e, cut, accepted)

-- A round at `q` that leaves less than `n` bytes.
abbrev pub Progress : List WafIdentity → Bytes → ℕ → Output → Type 0
Progress ids q n o = (length o.rest < n) × IsPiece ids q o

pub emit_scoped_selectors-Post :
    (inner after q : Bytes) (n : ℕ) (ids : List WafIdentity)
    → length after < n
    → IsSelector q (ident_of q) inner after
    → Post (Progress ids q n) (emit_scoped_selectors (ident_of q) inner after ids)
unfolding emit_scoped_selectors
emit_scoped_selectors-Post inner after q n ids lt selector =
    bind-Post (scoped_selector_parts (ident_of q) inner after ids) _
      (scoped_selector_parts-Post (ident_of q) inner after ids)
      λ r (range, e, cut, accepted).
        let le = EndsIn-le after r.after (IsRange-EndsIn after range r.after cut) in
        returned
          (omega (arith, le), selected inner after range selector cut accepted (ap union_of e))

pub rewrite_selector_at-Post :
    (gap at q : Bytes) (n : ℕ) (ids : List WafIdentity)
    → length at ≤ n
    → ident_of q ++ (gap ++ at) ≡ q
    → IsBlank gap
    → Post (Progress ids q n) (rewrite_selector_at (ident_of q) at ids)
unfolding rewrite_selector_at inner_of
rewrite_selector_at-Post gap at q n ids le e blank =
    bind-eq-Post (read_selector at) _ (read_selector-Splits at) λ sel found h.
      emit_scoped_selectors-Post (inner_of sel.taken) sel.rest q n ids
        (omega (arith, rest-lt at sel.taken sel.rest h.0 h.1))
        (braced gap at sel.taken e blank found refl)

-- The written text and the rest spell `q`.
abbrev pub SpellsOut : Bytes → Output → Type 0
SpellsOut q o = o.written ++ o.rest ≡ q

labels_behind-SpellsOut :
    (q gap s : Bytes) (r : Result Error Cut)
    → gap ++ s ≡ q
    → Splits s r
    → SpellsOut q (labels_behind q gap r)
unfolding labels_behind
labels_behind-SpellsOut q gap s (ok r) e (returned (f, _)) = rw append_assoc (rw f e)
labels_behind-SpellsOut q gap s (err _) e h = refl

pub copy_grouping_list-SpellsOut : (q : Bytes) → SpellsOut q (copy_grouping_list q)
unfolding copy_grouping_list
copy_grouping_list-SpellsOut q =
    let gap = skip_space q in
    if_ind (SpellsOut q) (starts b'(' gap.rest)
      (labels_behind-SpellsOut q gap.taken gap.rest (skip_paren gap.rest) (skip_space-Spells q)
        (skip_paren-Splits gap.rest))
      refl
