-- ===== src/Promql/Scan.antt =====
-- internal/subresourceapi/promql_scope.go: the scanner. A position in the query is modelled by the
-- text from there on, so a function that returns an index returns what is left, and one whose
-- caller slices `q[start:end]` returns that slice beside it.
pub mod Slices
use kubewaf.Prelude.{
  ℕ, ◌+◌, ◌-◌, Bool, true, false, ◌&&◌, ◌||◌, [], ◌∷◌, ◌++◌, leb, ◌==◌, if◌then◌else◌,
}
use kubewaf.Prelude.Bytes.{Bytes}
use kubewaf.Prelude.Result.{Result, ok, err}

-- The errors of the file by their messages. `panic` is a slice out of range, and `out_of_fuel` is
-- none of the source's: a theorem shows that it is not returned.
pub data Error : Type 0 where
  empty_query missing_identity invalid_identity escapes_scope not_exact : Error
  expected_brace expected_bracket expected_paren : Error
  unterminated_string unterminated_selector unterminated_range unterminated_grouping : Error
  unterminated_matcher panic out_of_fuel : Error

-- A slice of the query, and what stands behind it.
pub record Cut : Type 0 where
  pub taken : Bytes
  pub rest : Bytes

-- One more byte in front of the slice.
abbrev pub push : ℕ → Result Error Cut → Result Error Cut
push c (ok r) = ok (record r { taken = c ∷ r.taken })
push c (err e) = err e

abbrev pub is_quote : ℕ → Bool
is_quote c = c == b'"' || c == b'\''

-- The variable `quote` of the loops. `escaped q` stands behind a backslash in a string, where the
-- source steps over the next byte by a second `i++`.
pub data Mode : Type 0 where
  plain : Mode
  within escaped : ℕ → Mode

unfoldable pub step : Mode → ℕ → Mode
step plain c = if is_quote c then within c else plain
step (within q) c = if c == b'\\' then escaped q else if c == q then plain else within q
step (escaped q) c = within q

abbrev pub is_plain : Mode → Bool
is_plain plain = true
is_plain _ = false

-- the loop of `skipQuoted`
quoted : Mode → Bytes → Result Error Cut
unfolding step
quoted m [] = err unterminated_string
quoted m (c ∷ s) =
    if is_plain (step m c)
    then ok (record { taken = c ∷ []; rest = s })
    else push c (quoted (step m c) s)

unfoldable pub skip_quoted : Bytes → Result Error Cut
unfolding quoted
skip_quoted [] = err unterminated_string
skip_quoted (q ∷ s) = push q (quoted (within q) s)

-- the loop of `readSelector`
selector : Mode → Bytes → Result Error Cut
unfolding step
selector m [] = err unterminated_selector
selector m (c ∷ s) =
    if is_plain m && c == b'}'
    then ok (record { taken = c ∷ []; rest = s })
    else push c (selector (step m c) s)

unfoldable pub read_selector : Bytes → Result Error Cut
unfolding selector
read_selector [] = err expected_brace
read_selector (c ∷ s) = if c == b'{' then push c (selector plain s) else err expected_brace

-- `depth` behind the byte `c`; the loops never meet a closing byte at depth 0
deepen : ℕ → ℕ → Mode → ℕ → ℕ → ℕ
deepen open_by close_by plain depth c =
    if c == open_by then depth + 1 else if c == close_by then depth - 1 else depth
deepen open_by close_by _ depth c = depth

-- The loop of `skipBracket` and of `skipParen`, which differ in their bytes and in their error.
nested : ℕ → ℕ → Error → Mode → ℕ → Bytes → Result Error Cut
unfolding step deepen
nested open_by close_by e m depth [] = err e
nested open_by close_by e m depth (c ∷ s) =
    if is_plain m && c == close_by && depth == 1
    then ok (record { taken = c ∷ []; rest = s })
    else push c (nested open_by close_by e (step m c) (deepen open_by close_by m depth c) s)

unfoldable pub skip_bracket : Bytes → Result Error Cut
unfolding nested
skip_bracket [] = err expected_bracket
skip_bracket (c ∷ s) =
    if c == b'[' then nested b'[' b']' unterminated_range plain 0 (c ∷ s) else err expected_bracket

unfoldable pub skip_paren : Bytes → Result Error Cut
unfolding nested
skip_paren [] = err expected_paren
skip_paren (c ∷ s) =
    if c == b'(' then nested b'(' b')' unterminated_grouping plain 0 (c ∷ s) else err expected_paren

abbrev pub is_digit : ℕ → Bool
is_digit c = leb b'0' c && leb c b'9'

-- `unicode.IsLetter` on a byte, taken for a rune by `rune(q[i])`: the letters of Latin-1.
is_letter : ℕ → Bool
is_letter c =
    (leb b'a' c && leb c b'z')
    || (leb b'A' c && leb c b'Z')
    || c == 0xAA
    || c == 0xB5
    || c == 0xBA
    || (leb 0xC0 c && leb c 0xD6)
    || (leb 0xD8 c && leb c 0xF6)
    || (leb 0xF8 c && leb c 0xFF)

unfoldable pub is_ident_start : ℕ → Bool
unfolding is_letter
is_ident_start c = c == b'_' || c == b':' || is_letter c

unfoldable pub is_ident_cont : ℕ → Bool
unfolding is_ident_start
is_ident_cont c = is_ident_start c || is_digit c

-- The bytes at the front that pass a test, and the rest.
unfoldable pub span : (ℕ → Bool) → Bytes → Cut
span p [] = record { taken = []; rest = [] }
span p (c ∷ s) =
    let r = span p s in
    if p c then record r { taken = c ∷ r.taken } else record { taken = []; rest = c ∷ s }

abbrev pub is_blank : ℕ → Bool
is_blank c = c == b' ' || c == b'\t' || c == b'\n' || c == b'\r'

-- `skipSpace`
unfoldable pub skip_space : Bytes → Cut
unfolding span
skip_space = span is_blank

-- `readIdent`
unfoldable pub read_ident : Bytes → Cut
unfolding span is_ident_start is_ident_cont
read_ident [] = record { taken = []; rest = [] }
read_ident (c ∷ s) =
    let r = span is_ident_cont s in
    if is_ident_start c
    then record r { taken = c ∷ r.taken }
    else record { taken = []; rest = c ∷ s }

-- `isNumberStart`
unfoldable pub is_number_start : Bytes → Bool
is_number_start [] = false
is_number_start (c ∷ []) = is_digit c
is_number_start (c ∷ d ∷ s) = is_digit c || (c == b'.' && is_digit d)

-- One part of a number: `more` reads on behind the text that `r` took.
abbrev then_read : Cut → (Bytes → Cut) → Cut
then_read r more =
    let next = more r.rest in record { taken = r.taken ++ next.taken; rest = next.rest }

fraction : Bytes → Cut
unfolding span
fraction [] = record { taken = []; rest = [] }
fraction (c ∷ s) =
    if c == b'.'
    then then_read (record { taken = c ∷ []; rest = s }) (span is_digit)
    else record { taken = []; rest = c ∷ s }

-- The sign of an exponent, if the byte is one.
sign : Bytes → Cut
sign [] = record { taken = []; rest = [] }
sign (c ∷ s) =
    if c == b'+' || c == b'-'
    then record { taken = c ∷ []; rest = s }
    else record { taken = []; rest = c ∷ s }

abbrev starts_with_digit : Bytes → Bool
starts_with_digit [] = false
starts_with_digit (c ∷ s) = is_digit c

-- An exponent is taken only if a digit stands behind the letter and its sign.
exponent : Bytes → Cut
unfolding span sign
exponent [] = record { taken = []; rest = [] }
exponent (c ∷ s) =
    if (c == b'e' || c == b'E') && starts_with_digit (sign s).rest
    then then_read (then_read (record { taken = c ∷ []; rest = s }) sign) (span is_digit)
    else record { taken = []; rest = c ∷ s }

-- `skipNumber`
unfoldable pub skip_number : Bytes → Cut
unfolding span fraction exponent
skip_number q = then_read (then_read (span is_digit q) fraction) exponent
