-- ===== src/DataFiles/Resolve/Size.antt =====
-- internal/probeassemble/datafiles.go: the bodies that are injected are within the limit.
use kubewaf.Prelude.{
  ℕ, ◌+◌, ◌≤◌, ◌≡◌, false, ◌&&◌, Option, none, some, List, [], ◌∷◌, ltb, if◌then◌else◌, if_rec,
  if_ind, length, arith,
}
use kubewaf.Prelude.Bytes.{Bytes, bytes_eq}
use kubewaf.Prelude.Result.{Returns, bind-Returns, pass-Returns}
use kubewaf.Portable.Labels.{Labels, lookup, insert}
use kubewaf.DataFiles.Scan.{TextLibrary, scan_pm_from_file_basenames}
use kubewaf.DataFiles.Resolve.{
  PhraseListPolicy, fail_closed, ignore_unknown, DataFileError, ListBodyProvider, Progress,
  DataFilesResult, with_file, drop_or, with_list, from_provider, resolve_base, resolve_bases, has,
  with_extras, checked, max_phrase_files_raw_bytes, resolve_data_files, unresolved, list_not_ready,
}

-- The bytes of all the bodies.
abbrev pub total_size : Labels → ℕ
total_size [] = 0
total_size ((k, v) ∷ m) = length v + total_size m

insert-size : (k v : Bytes) (m : Labels) → total_size (insert k v m) ≤ total_size m + length v
unfolding insert
insert-size k v [] = omega arith
insert-size k v ((j, w) ∷ m) =
    if_ind (λ m'. total_size m' ≤ total_size ((j, w) ∷ m) + length v) (bytes_eq k j) (omega arith)
      (omega (arith, insert-size k v m))

-- The counter is at least the size.
abbrev IsCounted : Progress → Type 0
IsCounted p = total_size p.files ≤ p.raw

with_file-IsCounted :
    (base body : Bytes) (p : Progress) → IsCounted p → IsCounted (with_file base body p)
unfolding with_file
with_file-IsCounted base body p h = omega (arith, insert-size base body p.files)

drop_or-IsCounted :
    (policy : PhraseListPolicy) (e : DataFileError) (base : Bytes) (p : Progress)
    → IsCounted p
    → Returns IsCounted (drop_or policy e base p)
unfolding drop_or
drop_or-IsCounted fail_closed e base p h = tt
drop_or-IsCounted ignore_unknown e base p h = h

module _ (policy : PhraseListPolicy) (provider : Option ListBodyProvider) (namespace : Bytes) where
  resolve_base-IsCounted :
      (base : Bytes) (o : Option Bytes) (p : Progress)
      → IsCounted p
      → Returns IsCounted (resolve_base policy provider namespace base o p)
  unfolding resolve_base from_provider with_list
  resolve_base-IsCounted base (some body) p h = with_file-IsCounted base body p h
  resolve_base-IsCounted base none p h = by_provider provider
    where
      by_provider :
          (o : Option ListBodyProvider)
          → Returns IsCounted (from_provider policy o namespace base p)
      by_provider none = drop_or-IsCounted policy (unresolved base) base p h
      by_provider (some look_up) = pass-Returns IsCounted (look_up namespace base) _ λ l.
          if_ind (Returns IsCounted) (l.found && l.ready) (with_file-IsCounted base l.body p h) (
            drop_or-IsCounted policy (if l.found then list_not_ready base else unresolved base) base
              p h)

  resolve_bases-IsCounted :
      (overrides : Labels) (bases : List Bytes) (p : Progress)
      → IsCounted p
      → Returns IsCounted (resolve_bases policy provider namespace overrides bases p)
  unfolding resolve_bases
  resolve_bases-IsCounted overrides [] p h = h
  resolve_bases-IsCounted overrides (base ∷ bases) p h =
      bind-Returns IsCounted IsCounted
        (resolve_base policy provider namespace base (lookup base overrides) p) _
        (resolve_base-IsCounted base (lookup base overrides) p h)
        (λ q k. resolve_bases-IsCounted overrides bases q k)

with_extras-IsCounted :
    (overrides : Labels) (p : Progress) → IsCounted p → IsCounted (with_extras overrides p)
unfolding with_extras
with_extras-IsCounted [] p h = h
with_extras-IsCounted ((k, v) ∷ overrides) p h =
    with_extras-IsCounted overrides (if has k p.files then p else with_file k v p)
      (if_ind IsCounted (has k p.files) h (with_file-IsCounted k v p h))

abbrev pub IsSmall : DataFilesResult → Type 0
IsSmall r = total_size r.files ≤ 2097152

checked-IsSmall :
    (lib : TextLibrary) (lines : List Bytes) (p : Progress)
    → IsCounted p
    → Returns IsSmall (checked lib lines p)
unfolding checked
checked-IsSmall lib lines p h =
    if_rec (Returns IsSmall) (ltb max_phrase_files_raw_bytes p.raw) (λ _. tt) λ small. within small
  where
    within : ltb max_phrase_files_raw_bytes p.raw ≡ false → total_size p.files ≤ 2097152
    within small = ground arith

pub resolve_data_files-IsSmall :
    (lib : TextLibrary) (provider : Option ListBodyProvider) (namespace : Bytes)
    (policy : PhraseListPolicy) (lines : List Bytes) (overrides : Labels)
    → Returns IsSmall (resolve_data_files lib provider namespace policy lines overrides)
unfolding resolve_data_files
resolve_data_files-IsSmall lib provider namespace policy lines overrides =
    let start : Progress = record { files = []; dropped = []; raw = 0 } in
    bind-Returns IsCounted IsSmall
      (resolve_bases policy provider namespace overrides (scan_pm_from_file_basenames lib lines)
        start)
      _
      (resolve_bases-IsCounted policy provider namespace overrides
        (scan_pm_from_file_basenames lib lines) start (omega arith))
      λ p h.
        checked-IsSmall lib lines (with_extras overrides p) (with_extras-IsCounted overrides p h)
