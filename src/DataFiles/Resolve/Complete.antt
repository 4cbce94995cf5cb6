-- ===== src/DataFiles/Resolve/Complete.antt =====
-- internal/probeassemble/datafiles.go: what the remaining lines name has a body.
use kubewaf.Prelude.{◌≤◌, ◌≡◌, true, ◌⊎◌, List, All}
use kubewaf.Prelude.Bytes.{Bytes, mem}
use kubewaf.Portable.Labels.{Labels}
use kubewaf.DataFiles.Scan.{TextLibrary, drop_sec_lang_lines_with_basenames}
use kubewaf.DataFiles.Resolve.{DataFilesResult, has, max_phrase_files_raw_bytes}

-- Each name is settled by the result, and its size is within the limit.
abbrev IsWithin : TextLibrary → List Bytes → List Bytes → DataFilesResult → Type 0
IsWithin lib lines bases r =
    All (λ b. (has b r.files ≡ true) ⊎ (mem b r.dropped_basenames ≡ true)) bases
    × (r.raw_bytes ≤ max_phrase_files_raw_bytes)
    × (r.effective_lines ≡ drop_sec_lang_lines_with_basenames lib lines r.dropped_basenames)
