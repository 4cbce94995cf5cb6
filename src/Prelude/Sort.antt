-- ===== src/Prelude/Sort.antt =====
-- sort.SliceStable of Go's library: the stable order of a list by a test `less`.
use mathlib.Core.Path.{◌≡◌, refl}
use mathlib.Core.Bool.{Bool, true, false}
use mathlib.Core.List.{List, [], ◌∷◌}
use mathlib.Core.List.{Permᴰ}
use mathlib.Core.List.Permᴰ as PermLaws
use kubewaf.Prelude.Tests.{if_rec, if◌then◌else◌}
use kubewaf.Prelude.Lists.{All}

module _ {A : Type 0} (less : A → A → Bool) where
  -- `x` goes before the first element that is not less than it, so before its equals.
  abbrev pub insert : A → List A → List A
  insert x [] = x ∷ []
  insert x (y ∷ ys) = let rest = insert x ys in if less y x then y ∷ rest else x ∷ y ∷ ys

  abbrev pub sort_stable : List A → List A
  sort_stable [] = []
  sort_stable (x ∷ xs) = insert x (sort_stable xs)

  -- No element is less than one before it.
  abbrev pub IsSorted : List A → Type 0
  IsSorted [] = Unit
  IsSorted (x ∷ xs) = All (λ y. less y x ≡ false) xs × IsSorted xs

  pub insert-All : (P : A → Type 0) (x : A) (ys : List A) → P x → All P ys → All P (insert x ys)
  insert-All P x [] px h = (px, tt)
  insert-All P x (y ∷ ys) px (py, h) =
      if_rec (All P) (less y x) (λ _. (py, insert-All P x ys px h)) (λ _. (px, (py, h)))

  -- `insert` keeps the elements.
  pub insert-Perm : (x : A) (ys : List A) → Permᴰ (x ∷ ys) (insert x ys)
  insert-Perm x [] = Permᴰ.cons refl Permᴰ.nil
  insert-Perm x (y ∷ ys) =
      if_rec (Permᴰ (x ∷ y ∷ ys)) (less y x)
        (λ _. Permᴰ.trans (Permᴰ.swap refl refl) (Permᴰ.cons refl (insert-Perm x ys)))
        (λ _. PermLaws.refl (x ∷ y ∷ ys))

  pub sort_stable-Perm : (xs : List A) → Permᴰ xs (sort_stable xs)
  sort_stable-Perm [] = Permᴰ.nil
  sort_stable-Perm (x ∷ xs) =
      Permᴰ.trans (Permᴰ.cons refl (sort_stable-Perm xs)) (insert-Perm x (sort_stable xs))

  module _ (asym : (a b : A) → less a b ≡ true → less b a ≡ false)
      (trans : (a b c : A) → less b a ≡ false → less c b ≡ false → less c a ≡ false) where
    All-trans :
        (a b : A) (ys : List A)
        → less b a ≡ false
        → All (λ y. less y b ≡ false) ys
        → All (λ y. less y a ≡ false) ys
    All-trans a b [] e h = tt
    All-trans a b (y ∷ ys) e (h, hs) = (trans a b y e h, All-trans a b ys e hs)

    pub insert-IsSorted : (x : A) (ys : List A) → IsSorted ys → IsSorted (insert x ys)
    insert-IsSorted x [] h = (tt, tt)
    insert-IsSorted x (y ∷ ys) (h, hs) =
        if_rec IsSorted (less y x)
          (λ e. (insert-All (λ z. less z y ≡ false) x ys (asym y x e) h, insert-IsSorted x ys hs))
          (λ e. ((e, All-trans x y ys e h), (h, hs)))

    pub sort_stable-IsSorted : (xs : List A) → IsSorted (sort_stable xs)
    sort_stable-IsSorted [] = tt
    sort_stable-IsSorted (x ∷ xs) = insert-IsSorted x (sort_stable xs) (sort_stable-IsSorted xs)
