-- ===== src/Server/Gate/Lookup.antt =====
-- internal/subresourceapi/server.go: what the lookup of a namespace's semaphore leaves as it was.
use kubewaf.Prelude.{
  ℕ, suc, ◌+◌, ◌≤◌, ◌<◌, ◌≡◌, refl, ◌∙◌, subst, false, Option, none, some, List, [], ◌∷◌, ◌++◌,
  length, leb, ltb, if_ind, if_rec, All, arith, length-append,
}
use kubewaf.Prelude.Bytes.{Bytes, bytes_eq}
use kubewaf.Server.Gate.{
  Gate, max_ns_sem_entries, held, find, delete, is_idle, evict, make_room, add_entry, found_or_new,
  lookup_sem,
}
use kubewaf.Server.Gate.Counts.{held-append}

-- The entries name channels that exist, and are not more than the bound.
pub record AreEntries (g : Gate) : Type 0 where
  pub in_range : All (λ (e : Bytes × ℕ). e.1 < length g.channels) g.entries
  pub entries_le : length g.entries ≤ max_ns_sem_entries

module _ (P : Bytes × ℕ → Type 0) where
  delete-All : (k : Bytes) (es : List (Bytes × ℕ)) → All P es → All P (delete k es)
  unfolding delete
  delete-All k [] _ = tt
  delete-All k ((j, a) ∷ es) (p, h) =
      if_ind (All P) (bytes_eq k j) (delete-All k es h) (p, delete-All k es h)

  evict-All :
      (visit : List Bytes) (cs : List ℕ) (es : List (Bytes × ℕ))
      → All P es
      → All P (evict visit cs es)
  unfolding evict
  evict-All [] cs es h = h
  evict-All (k ∷ visit) cs es h =
      let left = delete-All k es h in
      if_ind (All P) (is_idle cs (find k es))
        (if_ind (All P) (ltb (length (delete k es)) max_ns_sem_entries) left
          (evict-All visit cs (delete k es) left))
        (evict-All visit cs es h)

  find-All :
      (k : Bytes) (es : List (Bytes × ℕ)) (a : ℕ)
      → All P es
      → find k es ≡ some a
      → (j : Bytes) × P (j, a)
  unfolding find
  find-All k [] a _ = λ e. cc
  find-All k ((j, b) ∷ es) a (p, h) =
      if_rec (λ o. o ≡ some a → (i : Bytes) × P (i, a)) (bytes_eq k j)
        (λ _ e. (j, subst (λ c. P (j, c)) (same b e) p)) (λ _ e. find-All k es a h e)
    where
      same : (c : ℕ) → some c ≡ some a → c ≡ a
      same c e = cc

delete-le : (k : Bytes) (es : List (Bytes × ℕ)) → length (delete k es) ≤ length es
unfolding delete
delete-le k [] = omega arith
delete-le k ((j, a) ∷ es) = ground (arith, delete-le k es)

evict-le :
    (visit : List Bytes) (cs : List ℕ) (es : List (Bytes × ℕ))
    → length (evict visit cs es) ≤ length es
unfolding evict
evict-le [] cs es = omega arith
evict-le (k ∷ visit) cs es =
    ground (arith, delete-le k es, evict-le visit cs (delete k es), evict-le visit cs es)

make_room-le :
    (visit : List Bytes) (cs : List ℕ) (es : List (Bytes × ℕ))
    → length (make_room visit cs es) ≤ length es
unfolding make_room
make_room-le visit cs es = ground (arith, evict-le visit cs es)

-- What a lookup gives: a channel that exists, where it gives one.
pub record IsLookup (g : Gate) (o : Option ℕ) (g' : Gate) : Type 0 where
  pub same_global : g'.global ≡ g.global
  pub same_tokens : (a : ℕ) → held g'.channels a ≡ held g.channels a
  pub more_channels : length g.channels ≤ length g'.channels
  pub entries_kept : AreEntries g'
  pub exists : (a : ℕ) → o ≡ some a → a < length g'.channels

add_entry-IsLookup :
    (ns : Bytes) (g : Gate) (es : List (Bytes × ℕ))
    → All (λ e. e.1 < length g.channels) es
    → length es ≤ max_ns_sem_entries
    → IsLookup g (add_entry ns g es).0 (add_entry ns g es).1
unfolding add_entry
add_entry-IsLookup ns g es h le =
    if_rec (λ (r : Option ℕ × Gate). IsLookup g r.0 r.1) (leb max_ns_sem_entries (length es))
      (λ _. record {
        same_global = refl;
        same_tokens = λ a. refl;
        more_channels = omega arith;
        entries_kept = record { in_range = h; entries_le = le };
        exists = λ a e. cc;
      })
      λ room. record {
        same_global = refl;
        same_tokens = held-append g.channels;
        more_channels = omega (arith, longer);
        entries_kept = record {
          in_range = (omega (arith, longer), wider es h);
          entries_le = has_room room;
        };
        exists = λ a e. is_last a e;
      }
  where
    longer : length (g.channels ++ (0 ∷ [])) ≡ length g.channels + 1
    longer = length-append g.channels (0 ∷ [])

    wider :
        (fs : List (Bytes × ℕ))
        → All (λ e. e.1 < length g.channels) fs
        → All (λ e. e.1 < length (g.channels ++ (0 ∷ []))) fs
    wider [] _ = tt
    wider (f ∷ fs) (p, q) = (omega (arith, longer), wider fs q)

    has_room : leb max_ns_sem_entries (length es) ≡ false → suc (length es) ≤ max_ns_sem_entries
    has_room room = ground arith

    is_last : (a : ℕ) → some (length g.channels) ≡ some a → a < length (g.channels ++ (0 ∷ []))
    is_last a e = let at : length g.channels ≡ a = cc in omega (arith, longer)

pub lookup_sem-IsLookup :
    (visit : List Bytes) (ns : Bytes) (g : Gate)
    → AreEntries g
    → IsLookup g (lookup_sem visit ns g).0 (lookup_sem visit ns g).1
unfolding lookup_sem found_or_new make_room
lookup_sem-IsLookup visit ns g ok = by_entry (find ns g.entries) refl
  where
    by_entry :
        (o : Option ℕ)
        → find ns g.entries ≡ o
        → IsLookup g (found_or_new visit ns g o).0 (found_or_new visit ns g o).1
    by_entry (some b) found = record {
      same_global = refl;
      same_tokens = λ a. refl;
      more_channels = omega arith;
      entries_kept = ok;
      exists =
          λ a e. (find-All (λ f. f.1 < length g.channels) ns g.entries a ok.in_range (found ∙ e)).1;
    }
    by_entry none found =
        add_entry-IsLookup ns g (make_room visit g.channels g.entries)
          (if_ind (All (λ e. e.1 < length g.channels)) (leb max_ns_sem_entries (length g.entries))
            (evict-All (λ e. e.1 < length g.channels) visit g.channels g.entries ok.in_range)
            ok.in_range)
          (omega (arith, make_room-le visit g.channels g.entries, ok.entries_le))
