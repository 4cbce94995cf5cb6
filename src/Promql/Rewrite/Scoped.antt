-- ===== src/Promql/Rewrite/Scoped.antt =====
-- internal/subresourceapi/promql_scope.go: every round of the walk reads on, and writes a piece that
-- is copied from the query or scoped.
use kubewaf.Prelude.{
  ap, ◌∙◌, ℕ, suc, ◌<◌, ◌≡◌, refl, sym, subst, true, ◌&&◌, [], ◌∷◌, List, ◌++◌, append_assoc, ◌==◌,
  Option, none, some, length, arith, Bool,
}
use kubewaf.Prelude.Bytes.{Bytes, mem, to_lower}
use kubewaf.Prelude.Result.{Result, ok, err, ◌>>=◌}
use kubewaf.Promql.Scan.{
  Error, Cut, is_quote, is_number_start, is_ident_start, skip_quoted, skip_number, skip_bracket,
  skip_space, read_ident,
}
use kubewaf.Promql.Scan.Slices.{
  Splits, skip_quoted-Splits, skip_bracket-Splits, skip_space-Spells, skip_space-All,
  read_ident-Spells, skip_number-Spells, skip_number-pos, read_ident-pos,
}
use kubewaf.Promql.Matcher.{WafIdentity}
use kubewaf.Promql.Post.{Post, returned, failed, if-Post, test-Post, bind-Post}
use kubewaf.Promql.Grammar.{ident_of, IsVerbatim, copied, bare}
use kubewaf.Promql.Names.{
  promql_keywords, promql_aggregators, grouping_keywords, range_vector_funcs,
}
use kubewaf.Promql.Selectors.{
  Output, starts, is_agg_modifier, copy_grouping_list, rewrite_range_func_call, rewrite_selector_at,
}
use kubewaf.Promql.Selectors.Call.{CallProgress, rewrite_range_func_call-Post}
use kubewaf.Promql.Selectors.Shape.{
  rest-le, rest-lt, Progress, emit_scoped_selectors-Post, rewrite_selector_at-Post,
  copy_grouping_list-SpellsOut,
}
use kubewaf.Promql.Rewrite.{word, rewrite_round}

-- The source goes on with the rewritten call, or with the plain name of the function.
call_or-Post :
    (ids : List WafIdentity) (q : Bytes) (n : ℕ) (call : Option Output) (r : Result Error Output)
    → CallProgress ids q n call
    → Post (Progress ids q n) r
    → Post (Progress ids q n) (elim call [ none ↦ r | some out ↦ ok out ])
call_or-Post ids q n none r h k = k
call_or-Post ids q n (some out) r h k = returned h

and_left : (a b : Bool) → (a && b) ≡ true → a ≡ true
and_left a b h = ground arith

word-Post :
    (q : Bytes) (n : ℕ) (ids : List WafIdentity)
    → length (read_ident q).rest < n
    → Post (Progress ids q n) (word (ident_of q) (read_ident q).rest ids)
unfolding word
word-Post q n ids lt =
    let ident = ident_of q in
    let next = (read_ident q).rest in
    let low = to_lower ident in
    let gap = skip_space next in
    let at = gap.rest in
    let at_lt : length at < n = omega (arith, rest-le next gap.taken at (skip_space-Spells next)) in
    let at_ends : ident ++ (gap.taken ++ at) ≡ q =
      ap (λ s. ident ++ s) (skip_space-Spells next) ∙ read_ident-Spells q in
    let labels = copy_grouping_list next in
    let spelt : labels.written ++ labels.rest ≡ next = copy_grouping_list-SpellsOut next in
    let plainly : IsVerbatim q ident next
        → Post (Progress ids q n) (ok (record { written = ident; rest = next })) =
      λ v. returned (lt, copied (read_ident-Spells q) v) in
    test-Post (mem low promql_keywords)
      (λ k.
        test-Post (mem low grouping_keywords)
          (λ g. returned (
            omega (arith, rest-le next labels.written labels.rest spelt),
            copied (rw append_assoc (rw spelt (read_ident-Spells q))) (IsVerbatim.grouping refl g),
          ))
          (λ _. plainly (IsVerbatim.keyword refl k)))
      λ _.
        test-Post (starts b'(' at)
          (λ p.
            if-Post (mem low range_vector_funcs)
              (bind-Post (rewrite_range_func_call ident at ids) _
                (rewrite_range_func_call-Post gap.taken at q n ids (omega arith) at_ends)
                λ call h. call_or-Post ids q n call _ h (plainly (IsVerbatim.function refl p)))
              (plainly (IsVerbatim.function refl p)))
          λ _.
            test-Post (mem low promql_aggregators && is_agg_modifier at)
              (λ a. plainly (IsVerbatim.aggregator refl (and_left _ _ a)))
              λ _.
                if-Post (starts b'{' at)
                  (rewrite_selector_at-Post gap.taken at q n ids (omega arith) at_ends
                    (skip_space-All next))
                  (emit_scoped_selectors-Post [] next q n ids lt
                    (bare [] (read_ident-Spells q) tt refl))

-- A slice that is copied.
copied-Post :
    (ids : List WafIdentity) (q : Bytes) (r : Result Error Cut)
    → Splits q r
    → ((cut : Cut)
        → r ≡ ok cut
        → cut.taken ++ cut.rest ≡ q
        → 0 < length cut.taken
        → IsVerbatim q cut.taken cut.rest)
    → Post
        (Progress ids q (length q))
        (r >>= λ cut. ok (record { written = cut.taken; rest = cut.rest }))
copied-Post ids q (ok cut) (returned (e, pos)) verbatim =
    returned (rest-lt q cut.taken cut.rest e pos, copied e (verbatim cut refl e pos))
copied-Post ids q (err e) (failed h) verbatim = failed h

no_ident : (c : ℕ) (s : Bytes) → (c == b'{') ≡ true → [] ≡ ident_of (c ∷ s)
unfolding read_ident is_ident_start
no_ident c s e = ground arith

-- A slice that is not empty begins with the first byte of the text.
head-taken :
    (c : ℕ) (s w rest : Bytes) → w ++ rest ≡ c ∷ s → 0 < length w → (t : Bytes) × (w ≡ c ∷ t)
head-taken c s [] rest e pos = absurd (omega arith)
head-taken c s (d ∷ w) rest e pos = (w, cc)

pub rewrite_round-Post :
    (c : ℕ) (s : Bytes) (ids : List WafIdentity)
    → Post (Progress ids (c ∷ s) (suc (length s))) (rewrite_round (c ∷ s) ids)
unfolding rewrite_round
rewrite_round-Post c s ids =
    let q : Bytes = c ∷ s in
    let ident = read_ident q in
    test-Post (is_quote c)
      (λ quote. copied-Post ids q (skip_quoted q) (skip_quoted-Splits q) λ cut found e pos.
        let (t, f) = head-taken c s cut.taken cut.rest e pos in IsVerbatim.string c t f quote found)
      λ not_quote.
        test-Post (is_number_start q)
          (λ num. returned (
            rest-lt q (skip_number q).taken (skip_number q).rest (skip_number-Spells q)
                (skip_number-pos q num),
            copied (skip_number-Spells q) (IsVerbatim.number num refl),
          ))
          λ _.
            test-Post (c == b'[')
              (λ bracket.
                copied-Post ids q (skip_bracket q) (skip_bracket-Splits q) λ cut found e pos.
                  let (t, f) = head-taken c s cut.taken cut.rest e pos in
                  IsVerbatim.range t (ground arith) found)
              λ _.
                test-Post (c == b'{')
                  (λ brace.
                    subst
                      (λ metric.
                        Post (Progress ids q (length q)) (rewrite_selector_at metric q ids))
                      (sym (no_ident c s brace))
                      (rewrite_selector_at-Post [] q q (length q) ids (omega arith)
                        (ap (λ s. s ++ q) (sym (no_ident c s brace))) tt))
                  λ not_brace.
                    test-Post (is_ident_start c)
                      (λ start. word-Post q (length q) ids (
                        rest-lt q ident.taken ident.rest (read_ident-Spells q)
                          (read_ident-pos c s start)))
                      λ not_ident. returned (
                        omega arith,
                        copied refl (IsVerbatim.other c refl not_quote not_brace not_ident),
                      )
