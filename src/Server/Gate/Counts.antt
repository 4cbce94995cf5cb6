-- ===== src/Server/Gate/Counts.antt =====
-- Lists of counters and of requests under a change at one index.
use kubewaf.Prelude.{
  ℕ, zero, suc, ◌+◌, ◌≤◌, ◌<◌, ◌≡◌, refl, ap, some, List, [], ◌∷◌, ◌++◌, ◌==◌, if◌then◌else◌,
  length, get_elem?, All, arith,
}
use kubewaf.Server.Gate.{held, put, remove}

pub held-put :
    (cs : List ℕ) (a b v : ℕ)
    → a < length cs
    → held (put cs a v) b ≡ (if a == b then v else held cs b)
held-put [] a b v h = absurd (omega arith)
held-put (c ∷ cs) zero zero v h = refl
held-put (c ∷ cs) zero (suc b) v h = ground arith
held-put (c ∷ cs) (suc a) zero v h = ground arith
held-put (c ∷ cs) (suc a) (suc b) v h = ground (arith, held-put cs a b v (omega arith))

pub held-beyond : (cs : List ℕ) (a : ℕ) → length cs ≤ a → held cs a ≡ 0
held-beyond [] a h = refl
held-beyond (c ∷ cs) zero h = absurd (omega arith)
held-beyond (c ∷ cs) (suc a) h = held-beyond cs a (omega arith)

pub held-append : (cs : List ℕ) (a : ℕ) → held (cs ++ (0 ∷ [])) a ≡ held cs a
held-append [] zero = refl
held-append [] (suc a) = refl
held-append (c ∷ cs) zero = refl
held-append (c ∷ cs) (suc a) = held-append cs a

module _ {ℓ} {A : Type ℓ} where
  pub length-put : (xs : List A) (i : ℕ) (x : A) → length (put xs i x) ≡ length xs
  length-put [] i x = refl
  length-put (y ∷ ys) zero x = refl
  length-put (y ∷ ys) (suc i) x = ap suc (length-put ys i x)

  pub length-remove :
      (xs : List A) (i : ℕ) (x : A)
      → get_elem? xs i ≡ some x
      → suc (length (remove xs i)) ≡ length xs
  length-remove [] i x e = cc
  length-remove (y ∷ ys) zero x e = refl
  length-remove (y ∷ ys) (suc i) x e = ap suc (length-remove ys i x e)

module _ {ℓ κ} {A : Type ℓ} (P : A → Type κ) where
  pub put-All : (xs : List A) (i : ℕ) (x : A) → P x → All P xs → All P (put xs i x)
  put-All [] i x p _ = tt
  put-All (y ∷ ys) zero x p (_, h) = (p, h)
  put-All (y ∷ ys) (suc i) x p (q, h) = (q, put-All ys i x p h)

  pub remove-All : (xs : List A) (i : ℕ) → All P xs → All P (remove xs i)
  remove-All [] i _ = tt
  remove-All (y ∷ ys) zero (_, h) = h
  remove-All (y ∷ ys) (suc i) (q, h) = (q, remove-All ys i h)

module _ {ℓ} {A : Type ℓ} (weight : A → ℕ) where
  abbrev pub total : List A → ℕ
  total [] = 0
  total (x ∷ xs) = weight x + total xs

  pub total-put :
      (xs : List A) (i : ℕ) (x y : A)
      → get_elem? xs i ≡ some x
      → total (put xs i y) + weight x ≡ total xs + weight y
  total-put [] i x y e = cc
  total-put (z ∷ zs) zero x y e = ground arith
  total-put (z ∷ zs) (suc i) x y e = omega (arith, total-put zs i x y e)

  pub total-remove :
      (xs : List A) (i : ℕ) (x : A)
      → get_elem? xs i ≡ some x
      → total (remove xs i) + weight x ≡ total xs
  total-remove [] i x e = cc
  total-remove (z ∷ zs) zero x e = ground arith
  total-remove (z ∷ zs) (suc i) x e = omega (arith, total-remove zs i x e)
