-- ===== src/Assembly/Document/Lines.antt =====
-- internal/probeassemble/preamble.go: a document is the lines that it was joined from.
use kubewaf.Prelude.{
  ℕ, ◌+◌, ◌≡◌, ◌≢◌, refl, ap, sym, ◌∙◌, List, [], ◌∷◌, ◌++◌, All, false, true, if◌then◌else◌,
  if_true, if_false, Bool, ◌||◌,
}
use kubewaf.Prelude.Bytes.{Bytes, codes, join, trim_space, has_prefix}
use kubewaf.Prelude.Split.{IsPiece, split-join}
use kubewaf.Api.SecRule.{is_nil}
use kubewaf.Assembly.Document.{
  split_newline, kept_lines, kept_parts, join_document, count_non_empty, count_non_empty_lines,
}

-- The lines `kept` are those of `lines` that are not blank, trimmed, in their order.
pub data AreTrimmed : List Bytes → List Bytes → Type 0 where
  none_left : AreTrimmed [] []
  blank :
      {line : Bytes} {lines kept : List Bytes}
      → trim_space line ≡ []
      → AreTrimmed lines kept
      → AreTrimmed (line ∷ lines) kept
  kept_line :
      {line k : Bytes} {lines kept : List Bytes}
      → trim_space line ≡ k
      → k ≢ []
      → AreTrimmed lines kept
      → AreTrimmed (line ∷ lines) (k ∷ kept)

-- A line without a line feed or blanks around it, and not empty.
abbrev pub IsCleanLine : Bytes → Type 0
IsCleanLine k = (k ≢ []) × (trim_space k ≡ k) × IsPiece b'\n' k

-- How many lines are no comments.
abbrev pub directive_count : List Bytes → ℕ
directive_count [] = 0
directive_count (k ∷ ks) =
    let n = directive_count ks in if has_prefix k (codes "#") then n else n + 1

abbrev pub all_lines : List (List Bytes) → List Bytes
all_lines [] = []
all_lines (p ∷ ps) = p ++ all_lines ps

some_nil : (k : Bytes) → k ≢ [] → is_nil k ≡ false
some_nil [] h = absurd (h refl)
some_nil (c ∷ k) h = refl

kept_lines-Trimmed : (lines kept : List Bytes) → AreTrimmed lines kept → kept_lines lines ≡ kept
unfolding kept_lines
kept_lines-Trimmed _ _ none_left = refl
kept_lines-Trimmed _ _ (blank {line = line} {lines = lines} {kept = kept} e h) =
    if_true (is_nil (trim_space line)) (kept_lines lines) (trim_space line ∷ kept_lines lines)
      (ap is_nil e)
    ∙ kept_lines-Trimmed lines kept h
kept_lines-Trimmed _ _ (kept_line {line = line} {k = k} {lines = lines} {kept = kept} e some h) =
    if_false (is_nil (trim_space line)) (kept_lines lines) (trim_space line ∷ kept_lines lines)
      (ap is_nil e ∙ some_nil k some)
    ∙ ap (λ l. l ∷ kept_lines lines) e
    ∙ ap (λ ls. k ∷ ls) (kept_lines-Trimmed lines kept h)

kept_lines-append : (xs ys : List Bytes) → kept_lines (xs ++ ys) ≡ kept_lines xs ++ kept_lines ys
unfolding kept_lines
kept_lines-append [] ys = refl
kept_lines-append (x ∷ xs) ys = by_test (is_nil (trim_space x)) (kept_lines-append xs ys)
  where
    by_test :
        (b : Bool)
        → kept_lines (xs ++ ys) ≡ kept_lines xs ++ kept_lines ys
        → (if b then kept_lines (xs ++ ys) else trim_space x ∷ kept_lines (xs ++ ys))
          ≡ (if b then kept_lines xs else trim_space x ∷ kept_lines xs) ++ kept_lines ys
    by_test true e = e
    by_test false e = ap (λ ls. trim_space x ∷ ls) e

kept_parts-lines : (parts : List (List Bytes)) → kept_parts parts ≡ kept_lines (all_lines parts)
unfolding kept_parts kept_lines
kept_parts-lines [] = refl
kept_parts-lines (p ∷ ps) =
    ap (λ ls. kept_lines p ++ ls) (kept_parts-lines ps) ∙ sym (kept_lines-append p (all_lines ps))

-- No line feed in it.
IsLine : Bytes → Type 0
IsLine s = IsPiece b'\n' s

lines_of_clean : (ks : List Bytes) → All IsCleanLine ks → All IsLine ks
unfolding IsLine
lines_of_clean [] h = tt
lines_of_clean (k ∷ ks) ((some, same, line), h) = (line, lines_of_clean ks h)

split_kept : (ls : List Bytes) → ls ≢ [] → All IsLine ls → split_newline (join ls (codes "\n")) ≡ ls
unfolding IsLine
split_kept [] some_line h = absurd (some_line refl)
split_kept (l ∷ ls) some_line h = split-join b'\n' l ls h

count-clean : (ks : List Bytes) → All IsCleanLine ks → count_non_empty ks ≡ directive_count ks
unfolding count_non_empty
count-clean [] h = refl
count-clean (k ∷ ks) ((some, same, line), h) =
    ap
      (λ s.
        if is_nil s || has_prefix s (codes "#") then count_non_empty ks else count_non_empty ks + 1)
      same
    ∙ ap (λ b. if b || has_prefix k (codes "#") then count_non_empty ks else count_non_empty ks + 1)
        (some_nil k some)
    ∙ ap (λ n. if has_prefix k (codes "#") then n else n + 1) (count-clean ks h)

-- If the lines of the parts that are not blank, trimmed, have no line feed inside and there is one, then
-- the document's lines are exactly those, in order, and `CountNonEmptyLines` of it counts those that
-- are no comments.
pub join_document_lines :
    (parts : List (List Bytes)) (kept : List Bytes)
    → AreTrimmed (all_lines parts) kept
    → kept ≢ []
    → All IsCleanLine kept
    → (split_newline (join_document parts) ≡ kept)
      × (count_non_empty_lines (join_document parts) ≡ directive_count kept)
unfolding join_document count_non_empty_lines
join_document_lines parts kept trimmed some_line clean =
    let same = kept_parts-lines parts ∙ kept_lines-Trimmed (all_lines parts) kept trimmed in
    let lines =
      ap (λ ls. split_newline (join ls (codes "\n"))) same
      ∙ split_kept kept some_line (lines_of_clean kept clean) in
    (lines, ap count_non_empty lines ∙ count-clean kept clean)
