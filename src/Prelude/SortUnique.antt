-- ===== src/Prelude/SortUnique.antt =====
-- sort.SliceStable: where any two elements are in order one way or the other, the sorted list does not
-- depend on the order of the given one.
use mathlib.Core.Path.{◌≡◌, refl, ap, ◌∙◌, sym, subst}
use mathlib.Core.Logic.{◌⊎◌, inl, inr}
use mathlib.Core.Bool.{Bool, true, false}
use mathlib.Core.List.{List, [], ◌∷◌, Permᴰ}
use kubewaf.Prelude.Tests.{Bool-cases, if_true, if_false}
use kubewaf.Prelude.Lists.{All}
use kubewaf.Prelude.Sort.{insert, sort_stable}

module _ {A : Type 0} (less : A → A → Bool) where
  abbrev pub Differ : A → A → Type 0
  Differ a b = (less a b ≡ true) ⊎ (less b a ≡ true)

  -- Any two elements differ in the order.
  abbrev pub AllDiffer : List A → Type 0
  AllDiffer [] = Unit
  AllDiffer (x ∷ xs) = All (Differ x) xs × AllDiffer xs

  Differ-sym : (a b : A) → Differ a b → Differ b a
  Differ-sym a b (inl h) = inr h
  Differ-sym a b (inr h) = inl h

  Perm-All : (P : A → Type 0) (xs ys : List A) → Permᴰ xs ys → All P xs → All P ys
  Perm-All P _ _ Permᴰ.nil h = h
  Perm-All P _ _ (Permᴰ.cons e p) (px, h) = (subst P e px, Perm-All P _ _ p h)
  Perm-All P _ _ (Permᴰ.swap e e') (px, (py, h)) = (subst P e' py, (subst P e px, h))
  Perm-All P _ _ (Permᴰ.trans p q) h = Perm-All P _ _ q (Perm-All P _ _ p h)

  Perm-AllDiffer : (xs ys : List A) → Permᴰ xs ys → AllDiffer xs → AllDiffer ys
  Perm-AllDiffer _ _ Permᴰ.nil h = h
  Perm-AllDiffer _ _ (Permᴰ.cons {a = a} {l₁ = l} {l₂ = l'} e p) (d, h) =
      (subst (λ z. All (Differ z) l') e (Perm-All (Differ a) l l' p d), Perm-AllDiffer l l' p h)
  Perm-AllDiffer _ _ (Permᴰ.swap {a = a} {b = b} {a' = a'} {b' = b'} {l = l} e e')
        ((d, da), (db, h)) =
      (
        (
          subst (λ z. Differ z b') e' (subst (Differ b) e (Differ-sym a b d)),
          subst (λ z. All (Differ z) l) e' db,
        ),
        (subst (λ z. All (Differ z) l) e da, h),
      )
  Perm-AllDiffer _ _ (Permᴰ.trans {l₁ = l₁} {l₂ = l₂} {l₃ = l₃} p q) h =
      Perm-AllDiffer l₂ l₃ q (Perm-AllDiffer l₁ l₂ p h)

  module _ (asym : (a b : A) → less a b ≡ true → less b a ≡ false)
      (trans : (a b c : A) → less b a ≡ false → less c b ≡ false → less c a ≡ false) where
    past : (x z : A) (l : List A) → less z x ≡ true → insert less x (z ∷ l) ≡ z ∷ insert less x l
    past x z l h = if_true (less z x) (z ∷ insert less x l) (x ∷ z ∷ l) h

    here : (x z : A) (l : List A) → less z x ≡ false → insert less x (z ∷ l) ≡ x ∷ z ∷ l
    here x z l h = if_false (less z x) (z ∷ insert less x l) (x ∷ z ∷ l) h

    insert_commutes :
        (x y : A) (l : List A)
        → less x y ≡ true
        → insert less x (insert less y l) ≡ insert less y (insert less x l)
    insert_commutes x y [] h = here x y [] (asym x y h) ∙ sym (past y x [] h)
    insert_commutes x y (z ∷ l) h = elim (Bool-cases (less z x)) [
      | inl zx ↦ elim (Bool-cases (less z y)) [
        | inl zy ↦
            ap (insert less x) (past y z l zy)
            ∙ past x z (insert less y l) zx
            ∙ ap (λ k. z ∷ k) (insert_commutes x y l h)
            ∙ sym (past y z (insert less x l) zy)
            ∙ sym (ap (insert less y) (past x z l zx))
        | inr zy ↦ cc (trans x y z (asym x y h) zy)
      ]
      | inr zx ↦ elim (Bool-cases (less z y)) [
        | inl zy ↦
            ap (insert less x) (past y z l zy)
            ∙ here x z (insert less y l) zx
            ∙ ap (λ k. x ∷ k) (sym (past y z l zy))
            ∙ sym (past y x (z ∷ l) h)
            ∙ sym (ap (insert less y) (here x z l zx))
        | inr zy ↦
            ap (insert less x) (here y z l zy)
            ∙ here x y (z ∷ l) (asym x y h)
            ∙ ap (λ k. x ∷ k) (sym (here y z l zy))
            ∙ sym (past y x (z ∷ l) h)
            ∙ sym (ap (insert less y) (here x z l zx))
      ]
    ]

    insert_swaps :
        (x y : A) (l : List A)
        → Differ x y
        → insert less x (insert less y l) ≡ insert less y (insert less x l)
    insert_swaps x y l (inl h) = insert_commutes x y l h
    insert_swaps x y l (inr h) = sym (insert_commutes y x l h)

    -- Two orders of the same elements, any two of which differ, are sorted alike.
    pub sort_stable_unique :
        (xs ys : List A) → Permᴰ xs ys → AllDiffer xs → sort_stable less xs ≡ sort_stable less ys
    sort_stable_unique _ _ Permᴰ.nil h = refl
    sort_stable_unique _ _ (Permᴰ.cons {a = a} {b = b} {l₁ = l} {l₂ = l'} e p) (d, h) =
        ap (λ k. insert less a k) (sort_stable_unique l l' p h)
        ∙ ap (λ k. insert less k (sort_stable less l')) e
    sort_stable_unique _ _ (Permᴰ.swap {a = a} {b = b} {a' = a'} {b' = b'} {l = l} e e')
          ((d, da), (db, h)) =
        insert_swaps a b (sort_stable less l) d
        ∙ ap (λ k. insert less k (insert less a (sort_stable less l))) e'
        ∙ ap (λ k. insert less a' (insert less k (sort_stable less l))) e
    sort_stable_unique _ _ (Permᴰ.trans {l₁ = l₁} {l₂ = l₂} {l₃ = l₃} p q) h =
        sort_stable_unique l₁ l₂ p h ∙ sort_stable_unique l₂ l₃ q (Perm-AllDiffer l₁ l₂ p h)
