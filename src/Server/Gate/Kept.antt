-- ===== src/Server/Gate/Kept.antt =====
-- internal/subresourceapi/server.go: an eviction spares the namespaces whose semaphore is in use.
use kubewaf.Prelude.{
  ℕ, ◌≤◌, ◌≡◌, refl, sym, ◌∙◌, ap, subst, true, false, Option, none, some, List, [], ◌∷◌, ltb, leb,
  ◌==◌, if◌then◌else◌, if_rec, if_ind, if_true, if_false, Bool-cases, length, arith, inl, inr,
}
use kubewaf.Prelude.Bytes.{Bytes, bytes_eq, bytes_eq→eq, bytes_eq_refl}
use kubewaf.Server.Gate.{
  Gate, max_ns_sem_entries, held, find, delete, is_idle, evict, make_room, add_entry, found_or_new,
  lookup_sem,
}

-- A namespace whose channel holds a token is found at the same channel afterwards.
Keeps : List ℕ → List (Bytes × ℕ) → List (Bytes × ℕ) → Type 0
Keeps cs es es' = (ns : Bytes) (a : ℕ) → 1 ≤ held cs a → find ns es ≡ some a → find ns es' ≡ some a

find-delete :
    (ns k : Bytes) (es : List (Bytes × ℕ))
    → bytes_eq ns k ≡ false
    → find ns (delete k es) ≡ find ns es
unfolding find delete
find-delete ns k [] h = refl
find-delete ns k ((j, a) ∷ es) h =
    if_rec (λ es'. find ns es' ≡ find ns ((j, a) ∷ es)) (bytes_eq k j)
      (λ same.
        let other = subst (λ i. bytes_eq ns i ≡ false) (bytes_eq→eq k j same) h in
        find-delete ns k es h ∙ sym (if_false (bytes_eq ns j) (some a) (find ns es) other))
      λ _. ap (λ o. if bytes_eq ns j then some a else o) (find-delete ns k es h)

delete-Keeps :
    (k : Bytes) (cs : List ℕ) (es : List (Bytes × ℕ))
    → is_idle cs (find k es) ≡ true
    → Keeps cs es (delete k es)
unfolding Keeps is_idle
delete-Keeps k cs es idle ns a token found = elim (Bool-cases (bytes_eq ns k)) [
  | inl same ↦
      let e : find k es ≡ some a = subst (λ i. find i es ≡ some a) (bytes_eq→eq ns k same) found in
      let empty : (held cs a == 0) ≡ true = subst (λ o. is_idle cs o ≡ true) e idle in
      absurd (ground arith)
  | inr other ↦ find-delete ns k es other ∙ found
]

evict-Keeps :
    (visit : List Bytes) (cs : List ℕ) (es : List (Bytes × ℕ)) → Keeps cs es (evict visit cs es)
unfolding Keeps evict
evict-Keeps [] cs es ns a token found = found
evict-Keeps (k ∷ visit) cs es ns a token found =
    if_rec (λ es'. find ns es' ≡ some a) (is_idle cs (find k es))
      (λ idle.
        let left = delete-Keeps k cs es idle ns a token found in
        if_ind (λ es'. find ns es' ≡ some a) (ltb (length (delete k es)) max_ns_sem_entries) left
          (evict-Keeps visit cs (delete k es) ns a token left))
      λ _. evict-Keeps visit cs es ns a token found

make_room-Keeps :
    (visit : List Bytes) (cs : List ℕ) (es : List (Bytes × ℕ)) → Keeps cs es (make_room visit cs es)
unfolding Keeps make_room
make_room-Keeps visit cs es ns a token found =
    if_ind (λ es'. find ns es' ≡ some a) (leb max_ns_sem_entries (length es))
      (evict-Keeps visit cs es ns a token found) found

-- A lookup keeps the namespaces with tokens, and finds the channel that it gives.
pub record IsKept (g : Gate) (ns : Bytes) (o : Option ℕ) (g' : Gate) : Type 0 where
  pub keeps :
      (m : Bytes) (a : ℕ)
      → 1 ≤ held g.channels a
      → find m g.entries ≡ some a
      → find m g'.entries ≡ some a
  pub finds : (a : ℕ) → o ≡ some a → find ns g'.entries ≡ some a

-- A namespace that is not found is another one than one that is.
pub another :
    (m ns : Bytes) (es : List (Bytes × ℕ)) (a : ℕ)
    → find m es ≡ some a
    → find ns es ≡ none
    → bytes_eq m ns ≡ false
another m ns es a found none_there = elim (Bool-cases (bytes_eq m ns)) [
  | inl same ↦
      let e : find ns es ≡ some a = subst (λ i. find i es ≡ some a) (bytes_eq→eq m ns same) found in
      cc
  | inr other ↦ other
]

pub lookup_sem-IsKept :
    (visit : List Bytes) (ns : Bytes) (g : Gate)
    → IsKept g ns (lookup_sem visit ns g).0 (lookup_sem visit ns g).1
unfolding lookup_sem found_or_new add_entry find Keeps
lookup_sem-IsKept visit ns g = by_entry (find ns g.entries) refl
  where
    left : List (Bytes × ℕ)
    left = make_room visit g.channels g.entries

    by_entry :
        (o : Option ℕ)
        → find ns g.entries ≡ o
        → IsKept g ns (found_or_new visit ns g o).0 (found_or_new visit ns g o).1
    by_entry (some b) found = record { keeps = λ m a token e. e; finds = λ a e. found ∙ e }
    by_entry none missing =
        if_rec (λ (r : Option ℕ × Gate). IsKept g ns r.0 r.1) (leb max_ns_sem_entries (length left))
          (λ _. record { keeps = make_room-Keeps visit g.channels g.entries; finds = λ a e. cc })
          λ _. record {
            keeps = λ m a token e.
                if_false (bytes_eq m ns) (some (length g.channels)) (find m left)
                  (another m ns g.entries a e missing)
                ∙ make_room-Keeps visit g.channels g.entries m a token e;
            finds = λ a e.
                if_true (bytes_eq ns ns) (some (length g.channels)) (find ns left)
                  (bytes_eq_refl ns)
                ∙ e;
          }
