-- ===== src/Server/Gate.antt =====
-- internal/subresourceapi/server.go: the gates that bound the requests in flight. A semaphore is a
-- buffered channel: how many tokens it holds, and a fixed capacity. The semaphores of the namespaces
-- are made on demand and never moved, so a channel is an index into the list of those made so far.
pub mod Counts
pub mod Lookup
pub mod Kept
pub mod Restore
pub mod Flight
use kubewaf.Prelude.{
  ℕ, zero, suc, ◌+◌, ◌-◌, Bool, true, false, Option, none, some, List, [], ◌∷◌, ◌++◌, ltb, leb,
  ◌==◌, if◌then◌else◌, length, get_elem?,
}
use kubewaf.Prelude.Bytes.{Bytes, bytes_eq}

-- `maxNSSemEntries`
abbrev pub max_ns_sem_entries : ℕ
max_ns_sem_entries = 4096

-- A global channel, the channels made so far, and the map from namespaces to them.
pub record Gate : Type 0 where
  pub global : ℕ
  pub channels : List ℕ
  pub entries : List (Bytes × ℕ)

-- The capacities: of the global channel, and of each of the others.
pub record Limits : Type 0 where
  pub global_max : ℕ
  pub per_namespace : ℕ

-- A channel of capacity 0 is never made.
abbrev pub capacity : Limits → ℕ
capacity l = if l.per_namespace == 0 then 1 else l.per_namespace

abbrev pub held : List ℕ → ℕ → ℕ
held [] a = 0
held (c ∷ cs) zero = c
held (c ∷ cs) (suc a) = held cs a

module _ {ℓ} {A : Type ℓ} where
  abbrev pub put : List A → ℕ → A → List A
  put [] i x = []
  put (y ∷ ys) zero x = x ∷ ys
  put (y ∷ ys) (suc i) x = y ∷ put ys i x

  abbrev pub remove : List A → ℕ → List A
  remove [] i = []
  remove (y ∷ ys) zero = ys
  remove (y ∷ ys) (suc i) = y ∷ remove ys i

unfoldable pub find : Bytes → List (Bytes × ℕ) → Option ℕ
unfolding bytes_eq
find ns [] = none
find ns ((k, a) ∷ es) = if bytes_eq ns k then some a else find ns es

-- `delete(m, k)`
unfoldable pub delete : Bytes → List (Bytes × ℕ) → List (Bytes × ℕ)
unfolding bytes_eq
delete ns [] = []
delete ns ((k, a) ∷ es) = let rest = delete ns es in if bytes_eq ns k then rest else (k, a) ∷ rest

-- A namespace of the map whose channel is empty.
unfoldable pub is_idle : List ℕ → Option ℕ → Bool
is_idle cs none = false
is_idle cs (some a) = held cs a == 0

-- Idle namespaces go until there is room, in the order in which the range visits the map.
unfoldable pub evict : List Bytes → List ℕ → List (Bytes × ℕ) → List (Bytes × ℕ)
unfolding is_idle find delete
evict [] cs es = es
evict (k ∷ visit) cs es =
    if is_idle cs (find k es)
    then (let left = delete k es in
        if ltb (length left) max_ns_sem_entries then left else evict visit cs left)
    else evict visit cs es

-- What the map keeps before a new entry is made.
unfoldable pub make_room : List Bytes → List ℕ → List (Bytes × ℕ) → List (Bytes × ℕ)
unfolding evict
make_room visit cs es = if leb max_ns_sem_entries (length es) then evict visit cs es else es

unfoldable pub add_entry : Bytes → Gate → List (Bytes × ℕ) → Option ℕ × Gate
add_entry ns g es =
    if leb max_ns_sem_entries (length es) then (none, record g { entries = es }) else (
      some (length g.channels),
      record g { channels = g.channels ++ (0 ∷ []); entries = (ns, length g.channels) ∷ es },
    )

unfoldable pub found_or_new : List Bytes → Bytes → Gate → Option ℕ → Option ℕ × Gate
unfolding make_room add_entry
found_or_new visit ns g (some a) = (some a, g)
found_or_new visit ns g none = add_entry ns g (make_room visit g.channels g.entries)

-- The part of `acquireNamedSem` under the lock: the channel of the namespace.
unfoldable pub lookup_sem : List Bytes → Bytes → Gate → Option ℕ × Gate
unfolding found_or_new find
lookup_sem visit ns g = found_or_new visit ns g (find ns g.entries)

-- `case sem <- struct{}{}: … default:`
unfoldable pub send : Limits → ℕ → Gate → Option Gate
send l a g =
    if ltb (held g.channels a) (capacity l)
    then some (record g { channels = put g.channels a (held g.channels a + 1) })
    else none

-- `releaseNS`: an empty channel stays as it is.
unfoldable pub release_ns : ℕ → Gate → Gate
release_ns a g = record g { channels = put g.channels a (held g.channels a - 1) }

-- The send on the global channel, and the receive.
unfoldable pub acquire_global : Limits → Gate → Option Gate
acquire_global l g =
    if ltb g.global l.global_max then some (record g { global = g.global + 1 }) else none

unfoldable pub release_global : Gate → Gate
release_global g = record g { global = g.global - 1 }

unfoldable pub of_send : ℕ → Gate → Option Gate → Option ℕ × Gate
of_send a g none = (none, g)
of_send a g (some new) = (some a, new)

unfoldable pub of_lookup : Limits → Option ℕ × Gate → Option ℕ × Gate
unfolding of_send send
of_lookup l (none, g) = (none, g)
of_lookup l (some a, g) = of_send a g (send l a g)

-- `acquireNamedSem` where no other request comes between the lookup and the send.
unfoldable pub acquire_named_sem : Limits → List Bytes → Bytes → Gate → Option ℕ × Gate
unfolding lookup_sem of_lookup
acquire_named_sem l visit ns g = of_lookup l (lookup_sem visit ns g)

unfoldable pub slot_taken : Option ℕ × Gate → Bool × Gate
unfolding release_global
slot_taken (none, g) = (false, release_global g)
slot_taken (some a, g) = (true, g)

unfoldable pub under_global : Limits → List Bytes → Bytes → Gate → Option Gate → Bool × Gate
unfolding acquire_named_sem slot_taken
under_global l visit [] g (some new) = (true, new)
under_global l visit (c ∷ ns) g (some new) = slot_taken (acquire_named_sem l visit (c ∷ ns) new)
under_global l visit ns g none = (false, g)

-- `acquireQuerySlot`: no namespace stands for the whole cluster.
unfoldable pub acquire_query_slot : Limits → List Bytes → Bytes → Gate → Bool × Gate
unfolding acquire_global under_global
acquire_query_slot l visit ns g = under_global l visit ns g (acquire_global l g)

unfoldable pub receive_from : Option ℕ → Gate → Gate
unfolding release_ns
receive_from none g = g
receive_from (some a) g = release_ns a g

-- `releaseQuerySlot`: the channel is looked up anew, and a missing one is passed over.
unfoldable pub release_query_slot : Bytes → Gate → Gate
unfolding receive_from find release_global
release_query_slot [] g = release_global g
release_query_slot (c ∷ ns) g = release_global (receive_from (find (c ∷ ns) g.entries) g)
