-- ===== src/Assembly/Order/Lexical.antt =====
-- internal/references2/helpers.go: the order of a document, written out apart from the comparison.
use kubewaf.Prelude.{
  ◌≡◌, ◌≢◌, refl, sym, ap, ◌∙◌, Bool, true, false, List, [], ◌∷◌, ◌⊎◌, inl, inr, All, if◌then◌else◌,
  arith,
}
use kubewaf.Prelude.Int.{ℤ, pos, negsuc, ltb_ℤ, eqb_ℤ}
use kubewaf.Prelude.Bytes.{Bytes, bytes_eq, bytes_eq→eq}
use kubewaf.Prelude.Order.{bytes_lt, bytes_eq_sym}
use kubewaf.Prelude.Sort.{IsSorted, sort_stable-IsSorted, sort_stable-Perm}
use kubewaf.Prelude.SortUnique.{Differ, AllDiffer}
use kubewaf.Assembly.Order.{
  Item, Payload, sec_rule, sec_action, kind_lt, item_less, item_less-IsOrder, sort_items,
}
use mathlib.Core.List.{Permᴰ}

eqb_ℤ→eq : (a b : ℤ) → eqb_ℤ a b ≡ true → a ≡ b
eqb_ℤ→eq (pos m) (pos n) h = ap pos (ground arith)
eqb_ℤ→eq (pos m) (negsuc n) h = ground arith
eqb_ℤ→eq (negsuc m) (pos n) h = ground arith
eqb_ℤ→eq (negsuc m) (negsuc n) h = ap negsuc (ground arith)

ℤ-total : (a b : ℤ) → eqb_ℤ a b ≡ false → ltb_ℤ b a ≡ false → ltb_ℤ a b ≡ true
ℤ-total a b h h' = ground arith

Bytes-total : (s t : Bytes) → bytes_eq s t ≡ false → bytes_lt t s ≡ false → bytes_lt s t ≡ true
unfolding bytes_eq bytes_lt
Bytes-total [] [] h h' = cc
Bytes-total [] (d ∷ t) h h' = refl
Bytes-total (c ∷ s) [] h h' = cc
Bytes-total (c ∷ s) (d ∷ t) h h' = ground (arith, Bytes-total s t)

-- A rule does not stand before an action.
abbrev pub AreKindsInOrder : Payload → Payload → Type 0
AreKindsInOrder (sec_rule _) (sec_action _) = ⊥
AreKindsInOrder _ _ = Unit

-- By the key; among equal keys by the name; among equal names actions before rules.
abbrev pub IsInOrder : Item → Item → Type 0
IsInOrder a b =
    (ltb_ℤ a.key b.key ≡ true)
    ⊎ ((a.key ≡ b.key)
        × ((bytes_lt a.name b.name ≡ true)
            ⊎ ((a.name ≡ b.name) × AreKindsInOrder a.payload b.payload)))

abbrev pub AreInOrder : List Item → Type 0
AreInOrder [] = Unit
AreInOrder (x ∷ xs) = All (IsInOrder x) xs × AreInOrder xs

kinds_in_order : (p q : Payload) → kind_lt q p ≡ false → AreKindsInOrder p q
kinds_in_order (sec_rule _) (sec_action _) h = cc
kinds_in_order (sec_rule _) (sec_rule _) h = tt
kinds_in_order (sec_action _) (sec_rule _) h = tt
kinds_in_order (sec_action _) (sec_action _) h = tt

in_order : (a b : Item) → item_less b a ≡ false → IsInOrder a b
unfolding item_less
in_order a b = by_key (eqb_ℤ b.key a.key) refl
  where
    by_name :
        (n : Bool)
        → bytes_eq b.name a.name ≡ n
        → (if n then kind_lt b.payload a.payload else bytes_lt b.name a.name) ≡ false
        → (bytes_lt a.name b.name ≡ true)
          ⊎ ((a.name ≡ b.name) × AreKindsInOrder a.payload b.payload)
    by_name true e h = inr (sym (bytes_eq→eq b.name a.name e), kinds_in_order a.payload b.payload h)
    by_name false e h = inl (Bytes-total a.name b.name (sym (bytes_eq_sym b.name a.name) ∙ e) h)

    by_key :
        (k : Bool)
        → eqb_ℤ b.key a.key ≡ k
        → (if k
            then if bytes_eq b.name a.name
              then kind_lt b.payload a.payload
              else bytes_lt b.name a.name
            else ltb_ℤ b.key a.key)
          ≡ false
        → IsInOrder a b
    by_key true e h = inr (sym (eqb_ℤ→eq b.key a.key e), by_name (bytes_eq b.name a.name) refl h)
    by_key false e h = inl (less_key e h)
      where
        less_key : eqb_ℤ b.key a.key ≡ false → ltb_ℤ b.key a.key ≡ false → ltb_ℤ a.key b.key ≡ true
        less_key e h = ground arith

head_comes_first :
    (x : Item) (ys : List Item) → All (λ y. item_less y x ≡ false) ys → All (IsInOrder x) ys
head_comes_first x [] h = tt
head_comes_first x (y ∷ ys) (h, hs) = (in_order x y h, head_comes_first x ys hs)

sorted_in_order : (xs : List Item) → IsSorted item_less xs → AreInOrder xs
sorted_in_order [] h = tt
sorted_in_order (x ∷ xs) (h, hs) = (head_comes_first x xs h, sorted_in_order xs hs)

-- The sorted items are the given ones, and any two of them stand in order: by the key, among equal keys
-- by the name, and among equal names an action before a rule.
pub sort_items-AreInOrder :
    (items : List Item) → Permᴰ items (sort_items items) × AreInOrder (sort_items items)
unfolding sort_items
sort_items-AreInOrder items = (
  sort_stable-Perm item_less items,
  sorted_in_order (sort_items items)
      (sort_stable-IsSorted item_less item_less-IsOrder.asym item_less-IsOrder.trans items),
)

abbrev pub is_rule : Payload → Bool
is_rule (sec_rule _) = true
is_rule (sec_action _) = false

-- Two items with another key, another name, or of another kind.
abbrev pub AreDistinct : Item → Item → Type 0
AreDistinct a b = (a.key ≢ b.key) ⊎ (a.name ≢ b.name) ⊎ (is_rule a.payload ≢ is_rule b.payload)

abbrev pub AllDistinct : List Item → Type 0
AllDistinct [] = Unit
AllDistinct (x ∷ xs) = All (AreDistinct x) xs × AllDistinct xs

-- Two tests in turn tell apart what the first or, among its equals, the second tells apart.
then_differ :
    (e e' l l' m m' : Bool)
    → e ≡ e'
    → (e ≡ false → (l ≡ true) ⊎ (l' ≡ true))
    → (e ≡ true → (m ≡ true) ⊎ (m' ≡ true))
    → ((if e then m else l) ≡ true) ⊎ ((if e' then m' else l') ≡ true)
then_differ true true l l' m m' s h h' = h' refl
then_differ false false l l' m m' s h h' = h refl
then_differ true false l l' m m' s h h' = cc
then_differ false true l l' m m' s h h' = cc

kinds_differ : (p q : Payload) → is_rule p ≢ is_rule q → (kind_lt p q ≡ true) ⊎ (kind_lt q p ≡ true)
kinds_differ (sec_rule _) (sec_rule _) h = absurd (h refl)
kinds_differ (sec_action _) (sec_action _) h = absurd (h refl)
kinds_differ (sec_rule _) (sec_action _) h = inr refl
kinds_differ (sec_action _) (sec_rule _) h = inl refl

either_ℤ : (a b : ℤ) → eqb_ℤ a b ≡ false → (ltb_ℤ a b ≡ true) ⊎ (ltb_ℤ b a ≡ true)
either_ℤ a b h = by_test (ltb_ℤ b a) refl
  where
    by_test : (x : Bool) → ltb_ℤ b a ≡ x → (ltb_ℤ a b ≡ true) ⊎ (ltb_ℤ b a ≡ true)
    by_test true e = inr e
    by_test false e = inl (ℤ-total a b h e)

either_bytes : (a b : Bytes) → bytes_eq a b ≡ false → (bytes_lt a b ≡ true) ⊎ (bytes_lt b a ≡ true)
either_bytes a b h = by_test (bytes_lt b a) refl
  where
    by_test : (x : Bool) → bytes_lt b a ≡ x → (bytes_lt a b ≡ true) ⊎ (bytes_lt b a ≡ true)
    by_test true e = inr e
    by_test false e = inl (Bytes-total a b h e)

eqb_ℤ_sym : (a b : ℤ) → eqb_ℤ a b ≡ eqb_ℤ b a
eqb_ℤ_sym a b = ground arith

tests_tell_apart : (a b : Item) → AreDistinct a b → Differ item_less a b
unfolding item_less
tests_tell_apart a b d =
    then_differ (eqb_ℤ a.key b.key) (eqb_ℤ b.key a.key) _ _ _ _ (eqb_ℤ_sym a.key b.key)
      (either_ℤ a.key b.key)
      λ same_key.
        then_differ (bytes_eq a.name b.name) (bytes_eq b.name a.name) _ _ _ _
          (bytes_eq_sym a.name b.name) (either_bytes a.name b.name)
          λ same_name.
            kinds_differ a.payload b.payload
              (other_kind d (eqb_ℤ→eq a.key b.key same_key) (bytes_eq→eq a.name b.name same_name))
  where
    other_kind :
        AreDistinct a b → a.key ≡ b.key → a.name ≡ b.name → is_rule a.payload ≢ is_rule b.payload
    other_kind (inl k) e f = absurd (k e)
    other_kind (inr (inl n)) e f = absurd (n f)
    other_kind (inr (inr p)) e f = p

tests_tell_rest_apart :
    (x : Item) (ys : List Item) → All (AreDistinct x) ys → All (Differ item_less x) ys
tests_tell_rest_apart x [] h = tt
tests_tell_rest_apart x (y ∷ ys) (h, hs) = (tests_tell_apart x y h, tests_tell_rest_apart x ys hs)

pub AllDistinct-AllDiffer : (xs : List Item) → AllDistinct xs → AllDiffer item_less xs
AllDistinct-AllDiffer [] h = tt
AllDistinct-AllDiffer (x ∷ xs) (h, hs) = (tests_tell_rest_apart x xs h, AllDistinct-AllDiffer xs hs)
