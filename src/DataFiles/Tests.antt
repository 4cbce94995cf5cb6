-- ===== src/DataFiles/Tests.antt =====
-- Data files and the lists of a cluster at concrete inputs.
use kubewaf.Prelude.{false, none, ◌≡◌, refl, true, some, List, [], ◌∷◌, if◌then◌else◌}
use kubewaf.Prelude.Bytes.{Bytes, codes, bytes_eq, has_prefix, trim_front}
use kubewaf.Prelude.Order.{bytes_lt}
use kubewaf.Prelude.Split.{split}
use kubewaf.Prelude.Result.{ok, err}
use kubewaf.DataFiles.Scan.{TextLibrary, scan_pm_from_file_basenames}
use kubewaf.DataFiles.Resolve.{
  ListBody, ListBodyProvider, DataFilesResult, fail_closed, resolve_data_files, unresolved,
}
use kubewaf.DataFiles.Lists.{ListObject, ListClient, client_lookup}
use kubewaf.DataFiles.Lists.Usable.{IsUsable, client_lookup-IsUsable}

abbrev drafted : ListObject
drafted = record {
  spec_file_name = codes "a.data";
  status_file_name = [];
  ready = false;
  content = codes "draft";
  config_map_ref = none;
  parts = [];
}

-- Its file name is in its status only.
abbrev in_parts : ListObject
in_parts = record {
  spec_file_name = [];
  status_file_name = codes "a.data";
  ready = true;
  content = [];
  config_map_ref = none;
  parts =
      record { name = codes "m"; key = codes "x" }
      ∷ record { name = codes "m"; key = codes "y" }
      ∷ [];
}

abbrev cluster : ListClient
cluster = record {
  phrase_lists = λ _. ok (drafted ∷ in_parts ∷ []);
  ip_lists = λ _. ok [];
  config_map = λ ns name. ok (record {
    text_data = (codes "x", codes "root") ∷ [];
    binary_data = (codes "y", codes "admin\n") ∷ [];
  });
}

abbrev two_parts : ListBody
two_parts = record { body = codes "root\nadmin\n"; ready = true; found = true }

two_parts_found : client_lookup cluster (codes "n") (codes "a.data") ≡ ok two_parts
unfolding client_lookup
two_parts_found = refl

client_lookup-IsUsable_example : IsUsable cluster (codes "n") (codes "a.data") two_parts
client_lookup-IsUsable_example =
    client_lookup-IsUsable cluster (codes "n") (codes "a.data") two_parts two_parts_found refl

abbrev operator : Bytes
operator = codes "@pmFromFile "

abbrev matches_at_start : Bytes → List Bytes
matches_at_start s = if has_prefix s operator then trim_front s operator ∷ [] else []

-- A library that knows one operator at the start of a line, and file names without a folder.
abbrev library : TextLibrary
library = record {
  from_file_matches = matches_at_start;
  fields = λ s. split s b' ';
  trim_quotes = λ s. s;
  base = λ s. s;
}

abbrev provider : ListBodyProvider
provider namespace base =
    ok (record { body = codes "root"; ready = true; found = bytes_eq base (codes "a.data") })

abbrev naming_a : Bytes
naming_a = codes "@pmFromFile a.data"

abbrev lines : List Bytes
lines = codes "@pmFromFile b.data" ∷ naming_a ∷ codes "#@pmFromFile c.data" ∷ []

abbrev result : DataFilesResult
result = record {
  files = (codes "a.data", codes "root") ∷ [];
  dropped_basenames = codes "b.data" ∷ [];
  raw_bytes = 4;
  effective_lines = naming_a ∷ codes "#@pmFromFile c.data" ∷ [];
}

scanned : scan_pm_from_file_basenames library lines ≡ codes "a.data" ∷ codes "b.data" ∷ []
unfolding scan_pm_from_file_basenames trim_front bytes_lt
scanned = refl

refused :
    resolve_data_files library (some provider) (codes "n") fail_closed lines []
    ≡ err (unresolved (codes "b.data"))
unfolding resolve_data_files trim_front bytes_lt
refused = refl
