-- ===== src/DataFiles/Lists.antt =====
-- internal/probeassemble/datafiles.go: phrase lists and IP lists as the provider of the bodies.
pub mod Usable
use kubewaf.Prelude.{
  ℕ, Bool, true, false, ◌&&◌, not, Option, none, some, List, [], ◌∷◌, ◌++◌, ◌==◌, if◌then◌else◌,
  is_nil,
}
use kubewaf.Prelude.Bytes.{Bytes, bytes_eq}
use kubewaf.Prelude.Result.{Result, ok, err, ◌>>=◌}
use kubewaf.Portable.Labels.{Labels, lookup}
use kubewaf.DataFiles.Resolve.{
  DataFileError, failed_lookup, file_name_conflict, no_content_source, missing_key, ListBody,
}

pub record ConfigMapKey : Type 0 where
  pub name : Bytes
  pub key : Bytes

-- What is read of a `PhraseList` or an `IPList`, which have the same fields.
pub record ListObject : Type 0 where
  pub spec_file_name : Bytes
  pub status_file_name : Bytes
  pub ready : Bool
  pub content : Bytes
  pub config_map_ref : Option ConfigMapKey
  pub parts : List ConfigMapKey

pub record ConfigMap : Type 0 where
  pub text_data : Labels
  pub binary_data : Labels

-- The API server, at a namespace.
pub record ListClient : Type 0 where
  pub phrase_lists : Bytes → Result DataFileError (List ListObject)
  pub ip_lists : Bytes → Result DataFileError (List ListObject)
  pub config_map : Bytes → Bytes → Result DataFileError ConfigMap

-- `listFileName`
unfoldable pub list_file_name : Bytes → Bytes → Bytes
list_file_name spec status = if is_nil spec then status else spec

pub data Picked : Type 0 where
  ready_list : ListObject → Picked
  unready : Picked
  missing : Picked

-- The rest is left out where a second ready list is found.
unfoldable pub unless_matched :
    Bytes → Option ListObject → Result DataFileError Picked → Result DataFileError Picked
unless_matched base none rest = rest
unless_matched base (some other) rest = err (file_name_conflict base)

-- `pickReadyPhraseList` and `pickReadyIPList`, with the ready match so far, and whether any matched.
unfoldable pub pick_ready :
    Bytes → List ListObject → Option ListObject → Bool → Result DataFileError Picked
unfolding list_file_name bytes_eq unless_matched
pick_ready base [] (some l) any_match = ok (ready_list l)
pick_ready base [] none true = ok unready
pick_ready base [] none false = ok missing
pick_ready base (l ∷ ls) ready_match any_match =
    let skipped = pick_ready base ls ready_match any_match in
    let seen = pick_ready base ls ready_match true in
    let matched = pick_ready base ls (some l) true in
    if bytes_eq (list_file_name l.spec_file_name l.status_file_name) base
    then if l.ready then unless_matched base ready_match matched else seen
    else skipped

unfoldable pub key_of : Bytes → ConfigMap → Result DataFileError Bytes
unfolding lookup
key_of key cm = elim (lookup key cm.text_data) [
  | some v ↦ ok v
  | none ↦ elim (lookup key cm.binary_data) [ some v ↦ ok v | none ↦ err (missing_key key) ]
]

-- `readConfigMapKey`
unfoldable pub read_config_map_key : ListClient → Bytes → ConfigMapKey → Result DataFileError Bytes
unfolding key_of
read_config_map_key c ns r = do cm ← c.config_map ns r.name; key_of r.key cm

unfoldable pub ends_in_line_feed : Bytes → Bool
ends_in_line_feed [] = false
ends_in_line_feed (c ∷ []) = c == b'\n'
ends_in_line_feed (c ∷ d ∷ s) = ends_in_line_feed (d ∷ s)

unfoldable pub closed_line : Bytes → Bytes
unfolding ends_in_line_feed
closed_line buf =
    if is_nil buf then buf else if ends_in_line_feed buf then buf else buf ++ (b'\n' ∷ [])

unfoldable pub append_parts :
    ListClient → Bytes → List ConfigMapKey → Bytes → Result DataFileError Bytes
unfolding read_config_map_key closed_line
append_parts c ns [] buf = ok buf
append_parts c ns (part ∷ parts) buf = do
  b ← read_config_map_key c ns part
  append_parts c ns parts (closed_line (buf ++ b))

unfoldable pub body_of_parts : ListClient → Bytes → List ConfigMapKey → Result DataFileError Bytes
unfolding append_parts
body_of_parts c ns [] = err no_content_source
body_of_parts c ns (part ∷ parts) = append_parts c ns (part ∷ parts) []

unfoldable pub body_of_refs :
    ListClient → Bytes → Option ConfigMapKey → List ConfigMapKey → Result DataFileError Bytes
unfolding read_config_map_key body_of_parts
body_of_refs c ns (some r) parts = read_config_map_key c ns r
body_of_refs c ns none parts = body_of_parts c ns parts

-- `resolvePhraseListBody` and `resolveIPListBody`
unfoldable pub resolve_list_body : ListClient → Bytes → ListObject → Result DataFileError Bytes
unfolding body_of_refs
resolve_list_body c ns l =
    if is_nil l.content then body_of_refs c ns l.config_map_ref l.parts else ok l.content

abbrev pub not_ready_body : ListBody
not_ready_body = record { body = []; ready = false; found = true }

abbrev pub not_found_body : ListBody
not_found_body = record { body = []; ready = false; found = false }

-- An empty body is not injected.
abbrev pub injected : Bytes → ListBody
injected body =
    if is_nil body then not_ready_body else record { body = body; ready = true; found = true }

-- The body of a list that is picked, or else what is found without one.
unfoldable pub of_picked :
    ListClient → Bytes → Result DataFileError ListBody → Picked → Result DataFileError ListBody
unfolding resolve_list_body
of_picked c ns otherwise (ready_list l) = do body ← resolve_list_body c ns l; ok (injected body)
of_picked c ns otherwise unready = ok not_ready_body
of_picked c ns otherwise missing = otherwise

unfoldable pub look_up_in :
    ListClient
    → Bytes
    → Bytes
    → Result DataFileError (List ListObject)
    → Result DataFileError ListBody
    → Result DataFileError ListBody
unfolding pick_ready of_picked
look_up_in c ns base listing otherwise = do
  lists ← listing
  picked ← pick_ready base lists none false
  of_picked c ns otherwise picked

-- `ClientListProvider.Lookup`: phrase lists first, and then IP lists.
unfoldable pub client_lookup : ListClient → Bytes → Bytes → Result DataFileError ListBody
unfolding look_up_in
client_lookup c ns base =
    look_up_in c ns base (c.phrase_lists ns)
      (look_up_in c ns base (c.ip_lists ns) (ok not_found_body))
