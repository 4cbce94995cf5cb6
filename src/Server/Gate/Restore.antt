-- ===== src/Server/Gate/Restore.antt =====
-- internal/subresourceapi/query.go: a query slot that is taken and released leaves the tokens as they
-- were.
use kubewaf.Prelude.{
  ℕ, ◌+◌, ◌-◌, ◌<◌, ◌≡◌, refl, sym, ◌∙◌, subst, Bool, true, false, Option, none, some, List, [],
  ◌∷◌, ltb, if_rec, length, arith,
}
use kubewaf.Prelude.Bytes.{Bytes}
use kubewaf.Server.Gate.{
  Gate, Limits, capacity, held, put, lookup_sem, send, of_send, of_lookup, acquire_named_sem,
  slot_taken, under_global, acquire_global, release_global, release_ns, acquire_query_slot,
  receive_from, release_query_slot,
}
use kubewaf.Server.Gate.Counts.{held-put, length-put}
use kubewaf.Server.Gate.Lookup.{AreEntries, IsLookup, lookup_sem-IsLookup}
use kubewaf.Server.Gate.Kept.{IsKept, lookup_sem-IsKept}

-- As many tokens in each channel.
pub record SameTokens (g g' : Gate) : Type 0 where
  pub same_global : g'.global ≡ g.global
  pub same_held : (a : ℕ) → held g'.channels a ≡ held g.channels a

-- The gate after the slot is released, if it was taken.
abbrev pub ended : Bytes → Bool × Gate → Gate
ended ns (true, g) = release_query_slot ns g
ended ns (false, g) = g

-- A token that is put into a channel and taken out again.
back_and_forth :
    (cs : List ℕ) (a b : ℕ)
    → a < length cs
    → let more = put cs a (held cs a + 1) in held (put more a (held more a - 1)) b ≡ held cs b
back_and_forth cs a b there =
    let more = put cs a (held cs a + 1) in
    ground (
      arith,
      held-put more a b (held more a - 1) (omega (arith, length-put cs a (held cs a + 1), there)),
      held-put cs a a (held cs a + 1) there,
      held-put cs a b (held cs a + 1) there,
    )

-- Behind a lookup in the gate `g` that gives the channel `a` and the gate `g'`.
module _ (l : Limits) (c : ℕ) (ns : Bytes) (g g' : Gate) (a : ℕ) where
  sent-SameTokens :
      IsLookup g (some a) g'
      → IsKept g (c ∷ ns) (some a) g'
      → SameTokens (release_global g) (ended (c ∷ ns) (slot_taken (of_send a g' (send l a g'))))
  unfolding send of_send slot_taken release_query_slot receive_from release_ns release_global
  sent-SameTokens k kept =
      if_rec (λ o. SameTokens (release_global g) (ended (c ∷ ns) (slot_taken (of_send a g' o))))
        (ltb (held g'.channels a) (capacity l))
        (λ _.
          let with_token = record g' { channels = put g'.channels a (held g'.channels a + 1) } in
          subst (λ o. SameTokens (release_global g) (release_global (receive_from o with_token)))
            (sym (kept.finds a refl))
            (record {
              same_global = omega (arith, k.same_global);
              same_held = λ b. back_and_forth g'.channels a b (k.exists a refl) ∙ k.same_tokens b;
            }))
        λ _. record { same_global = omega (arith, k.same_global); same_held = k.same_tokens }

module _ (l : Limits) (visit : List Bytes) where
  named-SameTokens :
      (c : ℕ) (ns : Bytes) (g : Gate)
      → AreEntries g
      → SameTokens
          (release_global g)
          (ended (c ∷ ns) (slot_taken (acquire_named_sem l visit (c ∷ ns) g)))
  unfolding acquire_named_sem of_lookup slot_taken release_global
  named-SameTokens c ns g ok =
      by_lookup (lookup_sem visit (c ∷ ns) g).0 (lookup_sem visit (c ∷ ns) g).1
        (lookup_sem-IsLookup visit (c ∷ ns) g ok) (lookup_sem-IsKept visit (c ∷ ns) g)
    where
      by_lookup :
          (o : Option ℕ) (g' : Gate)
          → IsLookup g o g'
          → IsKept g (c ∷ ns) o g'
          → SameTokens (release_global g) (ended (c ∷ ns) (slot_taken (of_lookup l (o, g'))))
      by_lookup none g' k kept = record {
        same_global = omega (arith, k.same_global);
        same_held = k.same_tokens;
      }
      by_lookup (some a) g' k kept = sent-SameTokens l c ns g g' a k kept

  -- A slot that is taken and released leaves as many tokens in the global channel and in that of each
  -- namespace as there were, and so does a slot that is refused.
  pub acquire_query_slot-SameTokens :
      (ns : Bytes) (g : Gate)
      → AreEntries g
      → SameTokens g (ended ns (acquire_query_slot l visit ns g))
  unfolding acquire_query_slot acquire_global under_global release_query_slot release_global
  acquire_query_slot-SameTokens ns g ok =
      if_rec (λ o. SameTokens g (ended ns (under_global l visit ns g o)))
        (ltb g.global l.global_max) (λ _. entered ns) (λ _. refused ns)
    where
      one_more : Gate
      one_more = record g { global = g.global + 1 }

      entered : (ns : Bytes) → SameTokens g (ended ns (under_global l visit ns g (some one_more)))
      entered [] = record { same_global = omega arith; same_held = λ a. refl }
      entered (c ∷ ns) =
          let t =
            named-SameTokens c ns one_more
              (record { in_range = ok.in_range; entries_le = ok.entries_le }) in
          record { same_global = omega (arith, t.same_global); same_held = t.same_held }

      refused : (ns : Bytes) → SameTokens g (ended ns (under_global l visit ns g none))
      refused [] = record { same_global = refl; same_held = λ a. refl }
      refused (c ∷ ns) = record { same_global = refl; same_held = λ a. refl }
