-- ===== src/DataFiles/Resolve/Settled.antt =====
-- internal/probeassemble/datafiles.go: each name gets a body or is dropped.
use kubewaf.Prelude.{
  ◌≡◌, refl, ◌∙◌, ap, Bool, true, false, ◌||◌, ◌&&◌, ◌⊎◌, inl, inr, Option, none, some, List, [],
  ◌∷◌, ◌++◌, if◌then◌else◌, if_ind, All,
}
use kubewaf.Prelude.Bytes.{Bytes, bytes_eq, bytes_eq_refl, mem}
use kubewaf.Prelude.Result.{Returns, bind-Returns, pass-Returns, weaken-Returns}
use kubewaf.Portable.Labels.{Labels, lookup, insert}
use kubewaf.Portable.Labels.Pinned.{lookup-insert}
use kubewaf.DataFiles.Resolve.{
  PhraseListPolicy, fail_closed, ignore_unknown, DataFileError, ListBodyProvider, Progress,
  with_file, drop_or, with_list, from_provider, resolve_base, resolve_bases, has, with_extras,
  unresolved, list_not_ready,
}

pub or_left : (a b : Bool) → a ≡ true → (a || b) ≡ true
or_left true b h = refl
or_left false b h = cc

pub or_right : (a b : Bool) → b ≡ true → (a || b) ≡ true
or_right true b h = refl
or_right false b h = h

has-insert : (j k v : Bytes) (m : Labels) → has j (insert k v m) ≡ (bytes_eq j k || has j m)
unfolding has
has-insert j k v m = by_test (bytes_eq j k) (lookup j (insert k v m)) (lookup-insert j k v m)
  where
    by_test :
        (b : Bool) (o : Option Bytes)
        → o ≡ (if b then some v else lookup j m)
        → elim o [ none ↦ false | some w ↦ true ]
          ≡ (b || elim (lookup j m) [ none ↦ false | some w ↦ true ])
    by_test true o e = ap (λ o'. elim o' [ none ↦ false | some w ↦ true ]) e
    by_test false o e = ap (λ o'. elim o' [ none ↦ false | some w ↦ true ]) e

mem-append : (b : Bytes) (xs ys : List Bytes) → mem b (xs ++ ys) ≡ (mem b xs || mem b ys)
unfolding mem
mem-append b [] ys = refl
mem-append b (x ∷ xs) ys = assoc (bytes_eq b x) _ _ _ (mem-append b xs ys)
  where
    assoc : (a m l r : Bool) → m ≡ (l || r) → (a || m) ≡ ((a || l) || r)
    assoc true m l r e = refl
    assoc false m l r e = e

-- A name with a body, or one that is dropped.
abbrev pub IsSettled : Bytes → Progress → Type 0
IsSettled b p = (has b p.files ≡ true) ⊎ (mem b p.dropped ≡ true)

-- What was settled still is.
abbrev pub Keeps : Progress → Progress → Type 0
Keeps p q = (b : Bytes) → IsSettled b p → IsSettled b q

with_file-Keeps : (base body : Bytes) (p : Progress) → Keeps p (with_file base body p)
unfolding with_file
with_file-Keeps base body p b (inl h) =
    inl (has-insert b base body p.files ∙ or_right (bytes_eq b base) (has b p.files) h)
with_file-Keeps base body p b (inr h) = inr h

with_file-IsSettled : (base body : Bytes) (p : Progress) → IsSettled base (with_file base body p)
unfolding with_file
with_file-IsSettled base body p = inl (
    has-insert base base body p.files
    ∙ or_left (bytes_eq base base) (has base p.files) (bytes_eq_refl base))

-- A step for a name settles it, and keeps the others.
abbrev Settles : Bytes → Progress → Progress → Type 0
Settles base p q = IsSettled base q × Keeps p q

module _ (base : Bytes) (p : Progress) where
  with_file-Settles : (body : Bytes) → Settles base p (with_file base body p)
  with_file-Settles body = (with_file-IsSettled base body p, with_file-Keeps base body p)

  drop_or-Settles :
      (policy : PhraseListPolicy) (e : DataFileError)
      → Returns (Settles base p) (drop_or policy e base p)
  unfolding drop_or mem
  drop_or-Settles fail_closed e = tt
  drop_or-Settles ignore_unknown e = (
    inr (
        mem-append base p.dropped (base ∷ [])
        ∙ or_right (mem base p.dropped) (mem base (base ∷ []))
            (or_left (bytes_eq base base) false (bytes_eq_refl base))),
    keep,
  )
    where
      keep :
          (b : Bytes)
          → IsSettled b p
          → IsSettled b (record p { dropped = p.dropped ++ (base ∷ []) })
      keep b (inl h) = inl h
      keep b (inr h) =
          inr (mem-append b p.dropped (base ∷ []) ∙ or_left (mem b p.dropped) (mem b (base ∷ [])) h)

  resolve_base-Settles :
      (policy : PhraseListPolicy) (provider : Option ListBodyProvider) (namespace : Bytes)
      (o : Option Bytes)
      → Returns (Settles base p) (resolve_base policy provider namespace base o p)
  unfolding resolve_base from_provider with_list
  resolve_base-Settles policy provider namespace (some body) = with_file-Settles body
  resolve_base-Settles policy none namespace none = drop_or-Settles policy (unresolved base)
  resolve_base-Settles policy (some look_up) namespace none =
      pass-Returns (Settles base p) (look_up namespace base) _ λ l.
        if_ind (Returns (Settles base p)) (l.found && l.ready) (with_file-Settles l.body)
          (drop_or-Settles policy (if l.found then list_not_ready base else unresolved base))

-- All of the names are settled.
abbrev pub SettlesAll : List Bytes → Progress → Progress → Type 0
SettlesAll bases p q = All (λ b. IsSettled b q) bases × Keeps p q

pub resolve_bases-SettlesAll :
    (policy : PhraseListPolicy) (provider : Option ListBodyProvider) (namespace : Bytes)
    (overrides : Labels) (bases : List Bytes) (p : Progress)
    → Returns (SettlesAll bases p) (resolve_bases policy provider namespace overrides bases p)
unfolding resolve_bases
resolve_bases-SettlesAll policy provider namespace overrides [] p = (tt, λ b h. h)
resolve_bases-SettlesAll policy provider namespace overrides (base ∷ bases) p =
    bind-Returns (Settles base p) (SettlesAll (base ∷ bases) p)
      (resolve_base policy provider namespace base (lookup base overrides) p) _
      (resolve_base-Settles base p policy provider namespace (lookup base overrides))
      λ q (here, kept).
        weaken-Returns (SettlesAll bases q) (SettlesAll (base ∷ bases) p)
          (resolve_bases policy provider namespace overrides bases q)
          (λ r (all, more). ((more base here, all), λ b h. more b (kept b h)))
          (resolve_bases-SettlesAll policy provider namespace overrides bases q)

pub with_extras-Keeps : (overrides : Labels) (p : Progress) → Keeps p (with_extras overrides p)
unfolding with_extras
with_extras-Keeps [] p b h = h
with_extras-Keeps ((k, v) ∷ overrides) p b h =
    with_extras-Keeps overrides (if has k p.files then p else with_file k v p) b
      (if_ind (λ q. IsSettled b q) (has k p.files) h (with_file-Keeps k v p b h))
