-- ===== src/DataFiles/Resolve.antt =====
-- internal/probeassemble/datafiles.go: the bodies of the files that a document names.
pub mod Settled
pub mod Size
pub mod Complete
use kubewaf.Prelude.{
  ℕ, ◌+◌, ◌*◌, ◌≤◌, Bool, true, false, ◌&&◌, Option, none, some, List, [], ◌∷◌, ◌++◌, ltb,
  if◌then◌else◌, is_nil, length,
}
use kubewaf.Prelude.Bytes.{Bytes}
use kubewaf.Prelude.Result.{Result, ok, err, ◌>>=◌}
use kubewaf.Portable.Labels.{Labels, lookup, insert}
use kubewaf.DataFiles.Scan.{
  TextLibrary, scan_pm_from_file_basenames, drop_sec_lang_lines_with_basenames,
}

-- `PhraseListPolicy`. Any other text acts as `FailClosed`.
pub data PhraseListPolicy : Type 0 where
  fail_closed : PhraseListPolicy
  ignore_unknown : PhraseListPolicy

pub data DataFileError : Type 0 where
  unresolved : Bytes → DataFileError
  list_not_ready : Bytes → DataFileError
  failed_lookup : Bytes → DataFileError
  too_large : ℕ → DataFileError
  file_name_conflict : Bytes → DataFileError
  no_content_source : DataFileError
  missing_key : Bytes → DataFileError

-- What `Lookup` of a provider finds.
pub record ListBody : Type 0 where
  pub body : Bytes
  pub ready : Bool
  pub found : Bool

-- `ListBodyProvider`, at a namespace and a base name.
abbrev pub ListBodyProvider : Type 0
ListBodyProvider = Bytes → Bytes → Result DataFileError ListBody

-- The files so far, the names that are dropped, and the size of the bodies.
pub record Progress : Type 0 where
  pub files : Labels
  pub dropped : List Bytes
  pub raw : ℕ

-- `DataFilesResult`
pub record DataFilesResult : Type 0 where
  pub files : Labels
  pub dropped_basenames : List Bytes
  pub raw_bytes : ℕ
  pub effective_lines : List Bytes

unfoldable pub with_file : Bytes → Bytes → Progress → Progress
unfolding insert
with_file base body p = record p { files = insert base body p.files; raw = p.raw + length body }

unfoldable pub drop_or :
    PhraseListPolicy → DataFileError → Bytes → Progress → Result DataFileError Progress
drop_or ignore_unknown e base p = ok (record p { dropped = p.dropped ++ (base ∷ []) })
drop_or fail_closed e base p = err e

unfoldable pub with_list :
    PhraseListPolicy → Bytes → Progress → ListBody → Result DataFileError Progress
unfolding with_file drop_or
with_list policy base p l =
    if l.found && l.ready
    then ok (with_file base l.body p)
    else drop_or policy (if l.found then list_not_ready base else unresolved base) base p

unfoldable pub from_provider :
    PhraseListPolicy
    → Option ListBodyProvider
    → Bytes
    → Bytes
    → Progress
    → Result DataFileError Progress
unfolding with_list drop_or
from_provider policy none namespace base p = drop_or policy (unresolved base) base p
from_provider policy (some look_up) namespace base p = do
  l ← look_up namespace base
  with_list policy base p l

unfoldable pub resolve_base :
    PhraseListPolicy
    → Option ListBodyProvider
    → Bytes
    → Bytes
    → Option Bytes
    → Progress
    → Result DataFileError Progress
unfolding with_file from_provider
resolve_base policy provider namespace base (some body) p = ok (with_file base body p)
resolve_base policy provider namespace base none p = from_provider policy provider namespace base p

unfoldable pub resolve_bases :
    PhraseListPolicy
    → Option ListBodyProvider
    → Bytes
    → Labels
    → List Bytes
    → Progress
    → Result DataFileError Progress
unfolding resolve_base lookup
resolve_bases policy provider namespace overrides [] p = ok p
resolve_bases policy provider namespace overrides (base ∷ bases) p = do
  q ← resolve_base policy provider namespace base (lookup base overrides) p
  resolve_bases policy provider namespace overrides bases q

unfoldable pub has : Bytes → Labels → Bool
unfolding lookup
has k m = elim (lookup k m) [ none ↦ false | some v ↦ true ]

-- The overrides that no line names.
unfoldable pub with_extras : Labels → Progress → Progress
unfolding with_file has
with_extras [] p = p
with_extras ((k, v) ∷ overrides) p =
    with_extras overrides (if has k p.files then p else with_file k v p)

abbrev pub max_phrase_files_raw_bytes : ℕ
max_phrase_files_raw_bytes = 2 * 1024 * 1024

unfoldable pub checked : TextLibrary → List Bytes → Progress → Result DataFileError DataFilesResult
unfolding drop_sec_lang_lines_with_basenames
checked lib lines p =
    if ltb max_phrase_files_raw_bytes p.raw
    then err (too_large p.raw)
    else ok (record {
      files = p.files;
      dropped_basenames = p.dropped;
      raw_bytes = p.raw;
      effective_lines = drop_sec_lang_lines_with_basenames lib lines p.dropped;
    })

-- `ResolveDataFiles`
unfoldable pub resolve_data_files :
    TextLibrary
    → Option ListBodyProvider
    → Bytes
    → PhraseListPolicy
    → List Bytes
    → Labels
    → Result DataFileError DataFilesResult
unfolding resolve_bases with_extras checked scan_pm_from_file_basenames
resolve_data_files lib provider namespace policy lines overrides = do
  p ←
      resolve_bases policy provider namespace overrides (scan_pm_from_file_basenames lib lines)
        (record { files = []; dropped = []; raw = 0 })
  checked lib lines (with_extras overrides p)
