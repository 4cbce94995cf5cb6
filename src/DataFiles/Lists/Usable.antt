-- ===== src/DataFiles/Lists/Usable.antt =====
-- internal/probeassemble/datafiles.go: a list that is looked up as ready can be injected.
use kubewaf.Prelude.{
  ◌≡◌, refl, sym, Bool, true, false, Option, none, some, List, [], ◌∷◌, ◌++◌, ◌⊎◌, inl, inr,
  if◌then◌else◌, if_rec, is_nil,
}
use kubewaf.Prelude.Bytes.{Bytes, bytes_eq}
use kubewaf.Prelude.Result.{Result, ok, Returns, returned_value, bind-Returns, yields_itself}
use kubewaf.DataFiles.Resolve.{DataFileError, ListBody}
use kubewaf.DataFiles.Lists.{
  ListObject, ListClient, Picked, ready_list, unready, missing, pick_ready, list_file_name,
  unless_matched, resolve_list_body, of_picked, look_up_in, client_lookup,
}

-- The ready lists of a file name.
unfoldable pub ready_named : Bytes → List ListObject → List ListObject
unfolding bytes_eq list_file_name
ready_named base [] = []
ready_named base (l ∷ ls) =
    let rest = ready_named base ls in
    if bytes_eq (list_file_name l.spec_file_name l.status_file_name) base
    then if l.ready then l ∷ rest else rest
    else rest

abbrev listed : Option ListObject → List ListObject
listed none = []
listed (some l) = l ∷ []

abbrev picked_lists : Picked → List ListObject
picked_lists (ready_list l) = l ∷ []
picked_lists unready = []
picked_lists missing = []

-- What is picked are all the ready lists of the name.
abbrev ArePicked : List ListObject → Picked → Type 0
ArePicked ready p = picked_lists p ≡ ready

pick_ready-ArePicked :
    (base : Bytes) (ls : List ListObject) (m : Option ListObject) (any_match : Bool)
    → Returns (ArePicked (listed m ++ ready_named base ls)) (pick_ready base ls m any_match)
unfolding pick_ready ready_named unless_matched
pick_ready-ArePicked base [] (some l) any_match = refl
pick_ready-ArePicked base [] none true = refl
pick_ready-ArePicked base [] none false = refl
pick_ready-ArePicked base (l ∷ ls) m any_match =
    by_tests (bytes_eq (list_file_name l.spec_file_name l.status_file_name) base) l.ready m _ _ _
      (pick_ready-ArePicked base ls m any_match) (pick_ready-ArePicked base ls m true)
      (pick_ready-ArePicked base ls (some l) true)
  where
    by_tests :
        (named ready : Bool) (o : Option ListObject)
        (skipped seen matched : Result DataFileError Picked)
        → Returns (ArePicked (listed o ++ ready_named base ls)) skipped
        → Returns (ArePicked (listed o ++ ready_named base ls)) seen
        → Returns (ArePicked (l ∷ ready_named base ls)) matched
        → Returns
            (ArePicked (
              listed o
              ++ (if named
                  then if ready then l ∷ ready_named base ls else ready_named base ls
                  else ready_named base ls)))
            (if named then if ready then unless_matched base o matched else seen else skipped)
    by_tests false ready o _ _ _ h _ _ = h
    by_tests true false o _ _ _ _ h _ = h
    by_tests true true none _ _ _ _ _ h = h
    by_tests true true (some other) _ _ _ _ _ _ = tt

-- Of the lists of a file name that are listed, one is ready, and the body is its own.
abbrev pub IsOnlyReady :
    ListClient → Bytes → Bytes → Result DataFileError (List ListObject) → Bytes → Type 0
IsOnlyReady c ns base listing body =
    (lists : List ListObject) × (l : ListObject) × (listing ≡ ok lists)
    × (ready_named base lists ≡ l ∷ [])
    × (resolve_list_body c ns l ≡ ok body)

-- What a ready list has.
abbrev pub IsUsable : ListClient → Bytes → Bytes → ListBody → Type 0
IsUsable c ns base b =
    (b.found ≡ true)
    × (is_nil b.body ≡ false)
    × (IsOnlyReady c ns base (c.phrase_lists ns) b.body
        ⊎ IsOnlyReady c ns base (c.ip_lists ns) b.body)

abbrev IsUsableIfReady : ListClient → Bytes → Bytes → ListBody → Type 0
IsUsableIfReady c ns base b = b.ready ≡ true → IsUsable c ns base b

module _ (c : ListClient) (ns base : Bytes) (listing : Result DataFileError (List ListObject))
    (from : (body : Bytes)
      → IsOnlyReady c ns base listing body
      → IsOnlyReady c ns base (c.phrase_lists ns) body ⊎ IsOnlyReady c ns base (c.ip_lists ns) body)
    (otherwise : Result DataFileError ListBody)
    (usable : Returns (IsUsableIfReady c ns base) otherwise) where
  of_picked-IsUsable :
      (lists : List ListObject) (p : Picked)
      → listing ≡ ok lists
      → ArePicked (ready_named base lists) p
      → Returns (IsUsableIfReady c ns base) (of_picked c ns otherwise p)
  unfolding of_picked
  of_picked-IsUsable lists missing there picked = usable
  of_picked-IsUsable lists unready there picked = λ ready. cc
  of_picked-IsUsable lists (ready_list l) there picked =
      bind-Returns (λ body. resolve_list_body c ns l ≡ ok body) (IsUsableIfReady c ns base)
        (resolve_list_body c ns l) _ (yields_itself (resolve_list_body c ns l))
        λ body own.
          if_rec (IsUsableIfReady c ns base) (is_nil body) (λ _ ready. cc)
            λ full _. (refl, full, from body (lists, l, there, sym picked, own))

  look_up_in-IsUsable : Returns (IsUsableIfReady c ns base) (look_up_in c ns base listing otherwise)
  unfolding look_up_in
  look_up_in-IsUsable =
      bind-Returns (λ lists. listing ≡ ok lists) (IsUsableIfReady c ns base) listing _
        (yields_itself listing)
        λ lists there.
          bind-Returns (ArePicked (ready_named base lists)) (IsUsableIfReady c ns base)
            (pick_ready base lists none false) _ (pick_ready-ArePicked base lists none false)
            λ p picked. of_picked-IsUsable lists p there picked

-- A body that the lookup in the cluster calls ready is not empty, and it is the body of the only ready
-- phrase list or the only ready IP list of that file name.
pub client_lookup-IsUsable :
    (c : ListClient) (ns base : Bytes) (b : ListBody)
    → client_lookup c ns base ≡ ok b
    → b.ready ≡ true
    → IsUsable c ns base b
unfolding client_lookup
client_lookup-IsUsable c ns base b looked_up ready =
    returned_value (IsUsableIfReady c ns base) (client_lookup c ns base) b looked_up
      (look_up_in-IsUsable c ns base (c.phrase_lists ns) (λ _ h. inl h) _
        (look_up_in-IsUsable c ns base (c.ip_lists ns) (λ _ h. inr h) _ (λ not_there. cc)))
      ready
