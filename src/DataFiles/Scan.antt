-- ===== src/DataFiles/Scan.antt =====
-- internal/probeassemble/scan.go: the file names in SecLang lines.
use kubewaf.Prelude.{Bool, false, ◌||◌, List, [], ◌∷◌, ◌++◌, map, if◌then◌else◌, is_nil}
use kubewaf.Prelude.Bytes.{Bytes, codes, bytes_eq, mem, trim_space, has_prefix}
use kubewaf.Prelude.Split.{split}
use kubewaf.Prelude.Sort.{sort_stable}
use kubewaf.Prelude.Order.{bytes_lt}

-- What the scan calls of Go's libraries: the texts that the group of `fromFileRe` matches in a line,
-- `strings.Fields`, `strings.Trim` at quotes, and `path.Base`.
pub record TextLibrary : Type 0 where
  pub from_file_matches : Bytes → List Bytes
  pub fields : Bytes → List Bytes
  pub trim_quotes : Bytes → Bytes
  pub base : Bytes → Bytes

unfoldable pub concat : List (List Bytes) → List Bytes
concat [] = []
concat (xs ∷ xss) = xs ++ concat xss

-- The base names that a text's operators state.
unfoldable pub named_in : TextLibrary → Bytes → List Bytes
unfolding concat
named_in lib text =
    map (λ tok. lib.base (lib.trim_quotes tok))
      (concat (map lib.fields (lib.from_file_matches text)))

-- An empty line or a comment.
unfoldable pub is_skipped : Bytes → Bool
unfolding trim_space has_prefix
is_skipped line = let trim = trim_space line in is_nil trim || has_prefix trim (codes "#")

unfoldable pub named_in_lines : TextLibrary → List Bytes → List Bytes
unfolding named_in is_skipped
named_in_lines lib [] = []
named_in_lines lib (line ∷ lines) =
    let rest = named_in_lines lib lines in
    if is_skipped line then rest else named_in lib line ++ rest

-- In the order in which they are found, each once, without those that name no file.
unfoldable pub unseen : List Bytes → List Bytes → List Bytes
unfolding mem bytes_eq
unseen seen [] = []
unseen seen (b ∷ bs) =
    let skipped = unseen seen bs in
    let kept = b ∷ unseen (b ∷ seen) bs in
    if is_nil b || bytes_eq b (codes ".") then skipped else if mem b seen then skipped else kept

-- `ScanPmFromFileBasenames`
unfoldable pub scan_pm_from_file_basenames : TextLibrary → List Bytes → List Bytes
unfolding named_in_lines unseen split concat bytes_lt
scan_pm_from_file_basenames lib directives =
    sort_stable bytes_lt
      (unseen [] (named_in_lines lib (concat (map (λ raw. split raw b'\n') directives))))

unfoldable pub names_any : List Bytes → List Bytes → Bool
unfolding mem
names_any [] names = false
names_any (b ∷ bs) names = mem b names || names_any bs names

-- `lineReferencesFromFileBasename`
unfoldable pub line_references_from_file_basename : TextLibrary → Bytes → List Bytes → Bool
unfolding names_any named_in
line_references_from_file_basename lib line names = names_any (named_in lib line) names

-- `DropSecLangLinesWithBasenames`, with names to drop.
unfoldable pub drop_lines : TextLibrary → List Bytes → List Bytes → List Bytes
unfolding line_references_from_file_basename
drop_lines lib [] names = []
drop_lines lib (line ∷ lines) names =
    let rest = drop_lines lib lines names in
    if line_references_from_file_basename lib line names then rest else line ∷ rest

unfoldable pub drop_sec_lang_lines_with_basenames :
    TextLibrary → List Bytes → List Bytes → List Bytes
unfolding drop_lines
drop_sec_lang_lines_with_basenames lib directives names =
    if is_nil names then directives else drop_lines lib directives names
