-- ===== src/Assembly/Document.antt =====
-- internal/probeassemble: the lines of a document (preamble.go and assemble.go).
pub mod Lines
use kubewaf.Prelude.{
  ℕ, zero, suc, ◌+◌, ◌≡◌, refl, Bool, true, false, ◌||◌, List, [], ◌∷◌, ◌++◌, Option, none, some,
  ◌==◌, if◌then◌else◌, String,
}
use kubewaf.Prelude.Bytes.{Bytes, codes, join, trim_space, has_prefix}
use kubewaf.Prelude.Split.{split}
use kubewaf.Api.SecRule.{is_nil}
use kubewaf.Assembly.Crs.{CrsTuning, preamble, stamp_only_900990, crs_setup_actions, crs_exclusions}

-- `strings.Split(s, "\n")`
abbrev pub split_newline : Bytes → List Bytes
split_newline s = split s b'\n'

-- The trimmed lines that are not empty.
unfoldable pub kept_lines : List Bytes → List Bytes
unfolding trim_space
kept_lines [] = []
kept_lines (line ∷ ls) =
    let rest = kept_lines ls in if is_nil (trim_space line) then rest else trim_space line ∷ rest

unfoldable pub kept_parts : List (List Bytes) → List Bytes
unfolding kept_lines
kept_parts [] = []
kept_parts (p ∷ ps) = kept_lines p ++ kept_parts ps

unfoldable pub join_document : List (List Bytes) → Bytes
unfolding kept_parts join
join_document parts = join (kept_parts parts) (codes "\n")

-- The lines that are neither empty nor comments: `countNonEmpty`.
unfoldable pub count_non_empty : List Bytes → ℕ
unfolding trim_space has_prefix
count_non_empty [] = 0
count_non_empty (line ∷ ls) =
    let rest = count_non_empty ls in
    if is_nil (trim_space line) || has_prefix (trim_space line) (codes "#") then rest else rest + 1

unfoldable pub count_non_empty_lines : Bytes → ℕ
unfolding count_non_empty split
count_non_empty_lines doc = count_non_empty (split_newline doc)

not_blank : List Bytes → List Bytes
unfolding trim_space
not_blank [] = []
not_blank (line ∷ ls) =
    let rest = not_blank ls in if is_nil (trim_space line) then rest else line ∷ rest

-- `splitLines`: the lines as they are, without the blank ones.
unfoldable pub split_lines : Bytes → List Bytes
unfolding not_blank split
split_lines [] = []
split_lines (c ∷ s) = not_blank (split_newline (c ∷ s))

-- The document and its counters. (The basenames of data files are the caller's to scan.)
pub record Assembled : Type 0 where
  pub directives : Bytes
  pub rules_loaded : ℕ
  pub actions_loaded : ℕ
  pub directives_count : ℕ

-- The setup part: from the tuning if there is one, or else the stamp if it is asked for.
unfoldable pub setup_parts : Option CrsTuning → Bool → List (List Bytes)
unfolding crs_setup_actions stamp_only_900990
setup_parts (some crs) stamp = crs_setup_actions (some crs) ∷ []
setup_parts none true = (stamp_only_900990 ∷ []) ∷ []
setup_parts none false = []

unfoldable pub exclusion_parts : Option CrsTuning → List (List Bytes)
unfolding crs_exclusions
exclusion_parts (some crs) = crs_exclusions (some crs) ∷ []
exclusion_parts none = []

unfoldable pub document_parts : List Bytes → Bool → Option CrsTuning → List (List Bytes)
unfolding setup_parts exclusion_parts
document_parts rule_lines stamp crs =
    (preamble ∷ []) ++ (setup_parts crs stamp ++ ((rule_lines ∷ []) ++ exclusion_parts crs))

unfoldable pub assemble_from_rule_lines : List Bytes → Bool → Option CrsTuning → Assembled
unfolding join_document document_parts count_non_empty_lines count_non_empty
assemble_from_rule_lines rule_lines stamp crs =
    let doc = join_document (document_parts rule_lines stamp crs) in
    record {
      directives = doc;
      rules_loaded = count_non_empty rule_lines;
      actions_loaded = 0;
      directives_count = count_non_empty_lines doc;
    }
