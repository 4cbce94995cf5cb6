-- ===== src/Promql/Scan/Slices.antt =====
-- internal/subresourceapi/promql_scope.go: what the scanning functions slice off the query.
use kubewaf.Prelude.{
  All, if_rec, ℕ, ◌<◌, ◌≡◌, refl, ap, Bool, true, false, ◌&&◌, ◌||◌, [], ◌∷◌, ◌++◌, append_assoc,
  arith, length, length-append, Bool-cases, inl, inr, ◌==◌, if◌then◌else◌,
}
use kubewaf.Prelude.Bytes.{Bytes}
use kubewaf.Prelude.Result.{Result, ok, err}
use kubewaf.Promql.Scan.{
  is_blank, Error, unterminated_range, unterminated_grouping, Cut, push, Mode, plain, within, step,
  deepen, quoted, skip_quoted, selector, read_selector, nested, skip_bracket, skip_paren, span,
  skip_space, read_ident, is_ident_start, is_ident_cont, is_digit, starts_with_digit, skip_number,
  is_number_start, then_read, fraction, sign, exponent,
}
use kubewaf.Promql.Post.{IsSource, Post, returned, failed, if-Post}

-- If a slice is returned then it is not empty, and it and the rest spell the text.
abbrev pub Splits : Bytes → Result Error Cut → Type 0
Splits q = Post (λ r. (r.taken ++ r.rest ≡ q) × (0 < length r.taken))

push-Splits : (c : ℕ) (q : Bytes) (r : Result Error Cut) → Splits q r → Splits (c ∷ q) (push c r)
push-Splits c q (ok r) (returned (e, _)) = returned (ap (λ t. c ∷ t) e, omega arith)
push-Splits c q (err e) (failed h) = failed h

-- One round of each of the three loops: the slice ends here, or goes on by this byte.
round-Splits :
    (b : Bool) (c : ℕ) (s : Bytes) (r : Result Error Cut)
    → Splits s r
    → Splits (c ∷ s) (if b then ok (record { taken = c ∷ []; rest = s }) else push c r)
round-Splits true c s r h = returned (refl, omega arith)
round-Splits false c s r h = push-Splits c s r h

quoted-Splits : (m : Mode) (s : Bytes) → Splits s (quoted m s)
unfolding quoted
quoted-Splits m [] = failed tt
quoted-Splits m (c ∷ s) = round-Splits _ c s _ (quoted-Splits (step m c) s)

selector-Splits : (m : Mode) (s : Bytes) → Splits s (selector m s)
unfolding selector
selector-Splits m [] = failed tt
selector-Splits m (c ∷ s) = round-Splits _ c s _ (selector-Splits (step m c) s)

nested-Splits :
    (open_by close_by : ℕ) (e : Error) (m : Mode) (depth : ℕ) (s : Bytes)
    → IsSource e
    → Splits s (nested open_by close_by e m depth s)
unfolding nested
nested-Splits open_by close_by e m depth [] h = failed h
nested-Splits open_by close_by e m depth (c ∷ s) h =
    round-Splits _ c s _
      (nested-Splits open_by close_by e (step m c) (deepen open_by close_by m depth c) s h)

-- A quoted string, a selector, a range and a parenthesised group are slices of the query.
pub skip_quoted-Splits : (q : Bytes) → Splits q (skip_quoted q)
unfolding skip_quoted
skip_quoted-Splits [] = failed tt
skip_quoted-Splits (c ∷ s) = push-Splits c s _ (quoted-Splits (within c) s)

pub read_selector-Splits : (q : Bytes) → Splits q (read_selector q)
unfolding read_selector
read_selector-Splits [] = failed tt
read_selector-Splits (c ∷ s) =
    if-Post (c == b'{') (push-Splits c s _ (selector-Splits plain s)) (failed tt)

pub skip_bracket-Splits : (q : Bytes) → Splits q (skip_bracket q)
unfolding skip_bracket
skip_bracket-Splits [] = failed tt
skip_bracket-Splits (c ∷ s) =
    if-Post (c == b'[') (nested-Splits b'[' b']' unterminated_range plain 0 (c ∷ s) tt) (failed tt)

pub skip_paren-Splits : (q : Bytes) → Splits q (skip_paren q)
unfolding skip_paren
skip_paren-Splits [] = failed tt
skip_paren-Splits (c ∷ s) =
    if-Post (c == b'(') (nested-Splits b'(' b')' unterminated_grouping plain 0 (c ∷ s) tt)
      (failed tt)

-- The slice and the rest spell the text; the slice may be empty.
abbrev pub Spells : Bytes → Cut → Type 0
Spells q r = r.taken ++ r.rest ≡ q

pub span-Spells : (p : ℕ → Bool) (q : Bytes) → Spells q (span p q)
unfolding span
span-Spells p [] = refl
span-Spells p (c ∷ s) = ground (arith, span-Spells p s)

span-All : (p : ℕ → Bool) (q : Bytes) → All (λ c. p c ≡ true) (span p q).taken
unfolding span
span-All p [] = tt
span-All p (c ∷ s) =
    if_rec (λ (r : Cut). All (λ d. p d ≡ true) r.taken) (p c) (λ h. (h, span-All p s)) (λ _. tt)

-- Only blanks are skipped.
pub skip_space-All : (q : Bytes) → All (λ c. is_blank c ≡ true) (skip_space q).taken
unfolding skip_space
skip_space-All q = span-All is_blank q

pub skip_space-Spells : (q : Bytes) → Spells q (skip_space q)
unfolding skip_space
skip_space-Spells q = span-Spells _ q

pub read_ident-Spells : (q : Bytes) → Spells q (read_ident q)
unfolding read_ident
read_ident-Spells [] = refl
read_ident-Spells (c ∷ s) = ground (arith, span-Spells is_ident_cont s)

then_read-Spells :
    (q : Bytes) (r : Cut) (more : Bytes → Cut)
    → Spells q r
    → ((s : Bytes) → Spells s (more s))
    → Spells q (then_read r more)
then_read-Spells q r more h k = rw append_assoc (rw (k r.rest) h)

fraction-Spells : (q : Bytes) → Spells q (fraction q)
unfolding fraction
fraction-Spells [] = refl
fraction-Spells (c ∷ s) = ground (arith, span-Spells is_digit s)

sign-Spells : (q : Bytes) → Spells q (sign q)
unfolding sign
sign-Spells [] = refl
sign-Spells (c ∷ s) = ground arith

exponent-Spells : (q : Bytes) → Spells q (exponent q)
unfolding exponent
exponent-Spells [] = refl
exponent-Spells (c ∷ s) =
    elim (Bool-cases ((c == b'e' || c == b'E') && starts_with_digit (sign s).rest)) [
      | inl e ↦ rw e (
          then_read-Spells (c ∷ s) (then_read (record { taken = c ∷ []; rest = s }) sign)
            (span is_digit)
            (then_read-Spells (c ∷ s) (record { taken = c ∷ []; rest = s }) sign refl sign-Spells)
            (span-Spells is_digit))
      | inr e ↦ rw e refl
    ]

pub skip_number-Spells : (q : Bytes) → Spells q (skip_number q)
unfolding skip_number
skip_number-Spells q =
    then_read-Spells q (then_read (span is_digit q) fraction) exponent
      (then_read-Spells q (span is_digit q) fraction (span-Spells is_digit q) fraction-Spells)
      exponent-Spells

then_read-pos :
    (r : Cut) (more : Bytes → Cut) → 0 < length r.taken → 0 < length (then_read r more).taken
then_read-pos r more h = omega (arith, length-append r.taken (more r.rest).taken)

-- Behind no digits the fraction is read in full.
then_fraction-pos :
    (c : ℕ) (s : Bytes)
    → (is_digit c || c == b'.') ≡ true
    → 0 < length (then_read (span is_digit (c ∷ s)) fraction).taken
unfolding span fraction
then_fraction-pos c s h = elim (Bool-cases (is_digit c)) [
  | inl e ↦ rw e (omega arith)
  | inr e ↦
      rw e (elim (Bool-cases (c == b'.')) [
        | inl f ↦ rw f (omega arith)
        | inr f ↦ absurd (ground arith)
      ])
]

-- What is read where a number starts is not empty.
pub skip_number-pos : (q : Bytes) → is_number_start q ≡ true → 0 < length (skip_number q).taken
unfolding skip_number is_number_start
skip_number-pos [] h = cc
skip_number-pos (c ∷ []) h =
    then_read-pos (then_read (span is_digit (c ∷ [])) fraction) exponent
      (then_fraction-pos c [] (ground arith))
skip_number-pos (c ∷ d ∷ s) h =
    then_read-pos (then_read (span is_digit (c ∷ d ∷ s)) fraction) exponent
      (then_fraction-pos c (d ∷ s) (ground arith))

pub read_ident-pos :
    (c : ℕ) (s : Bytes) → is_ident_start c ≡ true → 0 < length (read_ident (c ∷ s)).taken
unfolding read_ident
read_ident-pos c s h = rw h (omega arith)
