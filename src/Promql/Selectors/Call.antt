-- ===== src/Promql/Selectors/Call.antt =====
-- internal/subresourceapi/promql_scope.go: a call of a range function is written once for each WAF.
use kubewaf.Prelude.{
  ℕ, ◌-◌, ◌≤◌, ◌≡◌, refl, ap, ◌∙◌, sym, subst, zero, suc, ◌+◌, take, Bool, true, false, ◌||◌, ◌==◌,
  [], ◌∷◌, List, ◌++◌, map, ltb, Option, none, some, length, length-append, arith, if◌then◌else◌,
  drop,
}
use kubewaf.Prelude.Bytes.{Bytes}
use kubewaf.Prelude.Result.{ok, ◌>>=◌}
use kubewaf.Promql.Scan.{skip_paren, read_selector, skip_space, read_ident}
use kubewaf.Promql.Scan.Slices.{
  read_selector-Splits, skip_paren-Splits, skip_space-Spells, skip_space-All, read_ident-Spells,
}
use kubewaf.Promql.Matcher.{WafIdentity, is_empty, strip_identity_matchers}
use kubewaf.Promql.Post.{
  Post, returned, failed, if-Post, bind-Post, bind-eq-Post, test-Post, returns-Post,
}
use kubewaf.Promql.Grammar.{
  ident_of, scoped_selector, called, IsBlank, IsSelector, bare, braced, IsRange, HasNoBrace,
}
use kubewaf.Promql.Selectors.{
  Output, Parts, scoped_selector_parts, union_of, inner_of, starts, slice, has_brace, Argument,
  read_argument, rewrite_range_func_call, call_of,
}
use kubewaf.Promql.Selectors.Shape.{
  rest-lt, EndsIn, EndsIn-trans, IsRange-EndsIn, IsSelector-EndsIn, AreScoped,
  scoped_selector_parts-Post, Progress,
}

last_split :
    (hi : ℕ) (taken rest : Bytes)
    → hi + 1 ≡ length taken
    → (last : ℕ) × (taken ++ rest ≡ take hi (taken ++ rest) ++ (last ∷ rest))
last_split hi [] rest n = absurd (omega arith)
last_split zero (t ∷ []) rest n = (t, refl)
last_split zero (t ∷ u ∷ us) rest n = absurd (omega arith)
last_split (suc hi) (t ∷ ts) rest n =
    let (last, e) = last_split hi ts rest (omega arith) in (last, ap (λ s. t ∷ s) e)

-- The slice that ends one byte before `rest` and begins behind `gone`.
argument_tail :
    (lo hi : ℕ) (gone behind taken rest : Bytes)
    → gone ++ behind ≡ taken ++ rest
    → lo ≡ length gone
    → hi + 1 ≡ length taken
    → lo ≤ hi
    → (last : ℕ) × (behind ≡ drop lo (take hi (taken ++ rest)) ++ (last ∷ rest))
argument_tail zero hi [] behind taken rest e m n le =
    let (last, f) = last_split hi taken rest n in (last, e ∙ f)
argument_tail zero hi (g ∷ gone) behind taken rest e m n le = absurd (omega arith)
argument_tail (suc lo) hi [] behind taken rest e m n le = absurd (omega arith)
argument_tail (suc lo) hi (g ∷ gone) behind [] rest e m n le = absurd (omega arith)
argument_tail (suc lo) zero (g ∷ gone) behind (t ∷ taken) rest e m n le = absurd (omega arith)
argument_tail (suc lo) (suc hi) (g ∷ gone) behind (t ∷ taken) rest e m n le =
    argument_tail lo hi gone behind taken rest (cc e) (omega arith) (omega arith) (omega arith)

has_brace-none : (s : Bytes) → has_brace s ≡ false → HasNoBrace s
has_brace-none [] h = tt
has_brace-none (c ∷ s) h = by_tests (c == b'{') (c == b'}') refl refl (has_brace-none s) h
  where
    by_tests :
        (a b : Bool)
        → (c == b'{') ≡ a
        → (c == b'}') ≡ b
        → (has_brace s ≡ false → HasNoBrace s)
        → (a || b || has_brace s) ≡ false
        → HasNoBrace (c ∷ s)
    by_tests false false e f rest k = ((e, f), rest k)
    by_tests true b e f rest k = cc
    by_tests false true e f rest k = cc

-- The argument of a range function that is read begins with a selector.
abbrev IsArgument : Bytes → Option Argument → Type 0
IsArgument inside none = Unit
IsArgument inside (some a) =
    (lead text : Bytes) × (lead ++ text ≡ inside)
    × IsBlank lead
    × IsSelector text a.metric a.inner a.after

behind_metric :
    (at : Bytes) (b : Bool)
    → let next = (read_ident at).rest in
      is_empty (read_ident at).taken ≡ b
      → (gap : Bytes) × ((read_ident at).taken
            ++ (gap ++ (if b then at else (skip_space next).rest))
          ≡ at)
        × IsBlank gap
behind_metric at true e = ([], nothing (read_ident at).taken e, tt)
  where
    nothing : (s : Bytes) → is_empty s ≡ true → s ++ at ≡ at
    nothing [] h = refl
    nothing (c ∷ s) h = cc
behind_metric at false e =
    let next = (read_ident at).rest in
    (
      (skip_space next).taken,
      ap (λ s. (read_ident at).taken ++ s) (skip_space-Spells next) ∙ read_ident-Spells at,
      skip_space-All next,
    )

read_argument-Post : (inside : Bytes) → Post (IsArgument inside) (read_argument inside)
unfolding read_argument inner_of
read_argument-Post inside =
    let lead = skip_space inside in
    let at = lead.rest in
    let ident = read_ident at in
    let behind = if is_empty ident.taken then at else (skip_space ident.rest).rest in
    let (gap, e, blank) = behind_metric at (is_empty ident.taken) refl in
    if-Post (starts b'{' behind)
      (bind-eq-Post (read_selector behind) _ (read_selector-Splits behind) λ sel found _. returned (
        lead.taken,
        at,
        skip_space-Spells inside,
        skip_space-All inside,
        braced gap behind sel.taken e blank found refl,
      ))
      (if-Post (is_empty ident.taken) (returned tt) (
        returned
          (lead.taken, at, skip_space-Spells inside, skip_space-All inside, bare gap e blank refl)))

-- A slice whose ends are in order.
slice-Post :
    (text : Bytes) (lo hi : ℕ)
    → Post (λ s. (lo ≤ hi) × (s ≡ drop lo (take hi text))) (slice text lo hi)
unfolding slice
slice-Post text lo hi = test-Post (ltb hi lo) (λ _. failed tt) (λ h. returned (ground arith, refl))

map-map {ℓ} :
    {A B C : Type ℓ} (f : B → C) (g : A → B) (xs : List A)
    → map f (map g xs) ≡ map (λ x. f (g x)) xs
map-map f g [] = refl
map-map f g (x ∷ xs) = rw (map-map f g xs)

-- The outcome of a range function's call, if the source rewrites it.
abbrev pub CallProgress : List WafIdentity → Bytes → ℕ → Option Output → Type 0
CallProgress ids q n none = Unit
CallProgress ids q n (some o) = Progress ids q n o

-- What `rewriteRangeFuncCall` returns, once the selector and the parentheses are read.
call-Progress :
    (gap call paren q : Bytes) (n : ℕ) (ids : List WafIdentity) (a : Argument) (r : Parts)
    (rest extra : Bytes)
    → length call ≤ n
    → ident_of q ++ (gap ++ call) ≡ q
    → skip_paren call ≡ ok (record { taken = paren; rest = rest })
    → IsArgument (drop 1 call) (some a)
    → AreScoped a.metric a.inner a.after ids r
    → (length call - length r.after ≤ length paren - 1)
      × (extra ≡ drop (length call - length r.after) (take (length paren - 1) call))
    → has_brace extra ≡ false
    → Progress ids q n
        (record { written = union_of (map (call_of (ident_of q) extra) r.parts); rest = rest })
call-Progress gap call paren q n ids a r rest extra le e found (lead, text, f, blank, selector)
      (range, parts, cut, accepted) (ordered, is_slice) free =
    let h = returns-Post (skip_paren-Splits call) found in
    let (gone, g) = EndsIn-trans call text r.after (one_more call lead text f) (
      EndsIn-trans text a.after r.after (IsSelector-EndsIn text a.metric a.inner a.after selector)
        (IsRange-EndsIn a.after range r.after cut)) in
    let (last, tail) =
      argument_tail (length call - length r.after) (length paren - 1) gone r.after paren rest
        (g ∙ sym h.0) (omega (arith, length-append gone r.after, ap length g)) (omega (arith, h.1))
        ordered in
    let is_tail : r.after ≡ extra ++ (last ∷ rest) =
      tail
      ∙ ap (λ s. drop (length call - length r.after) (take (length paren - 1) s) ++ (last ∷ rest))
          h.0
      ∙ ap (λ s. s ++ (last ∷ rest)) (sym is_slice) in
    (
      omega (arith, rest-lt call paren rest h.0 h.1),
      called gap call paren lead text a.metric a.inner a.after range extra last e found f blank
          selector (subst (λ s. IsRange a.after range s) is_tail cut) (has_brace-none extra free)
          accepted
          (ap union_of (
            ap (map (call_of (ident_of q) extra)) parts
            ∙ map-map (call_of (ident_of q) extra)
                (scoped_selector a.metric (strip_identity_matchers a.inner) range) ids)),
    )
  where
    one_more : (c l s : Bytes) → l ++ s ≡ drop 1 c → EndsIn c s
    one_more [] l s k = (l, k)
    one_more (d ∷ c) l s k = (d ∷ l, ap (λ x. d ∷ x) k)

pub rewrite_range_func_call-Post :
    (gap call q : Bytes) (n : ℕ) (ids : List WafIdentity)
    → length call ≤ n
    → ident_of q ++ (gap ++ call) ≡ q
    → Post (CallProgress ids q n) (rewrite_range_func_call (ident_of q) call ids)
unfolding rewrite_range_func_call
rewrite_range_func_call-Post gap call q n ids le e =
    bind-Post (read_argument (drop 1 call)) _ (read_argument-Post (drop 1 call))
      λ arg is_arg. by_argument arg is_arg
  where
    by_argument :
        (arg : Option Argument)
        → IsArgument (drop 1 call) arg
        → Post (CallProgress ids q n) (elim arg [
          | none ↦ ok none
          | some a ↦ do
            r ← scoped_selector_parts a.metric a.inner a.after ids
            paren ← skip_paren call
            extra ← slice call (length call - length r.after) (length paren.taken - 1)
            if has_brace extra
                then ok none
                else ok (
                    some (record {
                      written = union_of (map (call_of (ident_of q) extra) r.parts);
                      rest = paren.rest;
                    }))
        ])
    by_argument none is_arg = returned tt
    by_argument (some a) is_arg =
        bind-Post (scoped_selector_parts a.metric a.inner a.after ids) _
          (scoped_selector_parts-Post a.metric a.inner a.after ids)
          λ r scoped. bind-eq-Post (skip_paren call) _ (skip_paren-Splits call) λ paren found _.
            bind-Post (slice call (length call - length r.after) (length paren.taken - 1)) _
              (slice-Post call _ _)
              λ extra cut.
                test-Post (has_brace extra) (λ _. returned tt)
                  λ free. returned (
                    call-Progress gap call paren.taken q n ids a r paren.rest extra le e found
                      is_arg scoped cut free)
