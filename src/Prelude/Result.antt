-- ===== src/Prelude/Result.antt =====
-- Go's `(value, error)` pairs: a value, or an error of the component's own type.
use mathlib.Core.Path.{◌≡◌, refl, subst}

pub data Result {ℓ} (E A : Type ℓ) : Type ℓ where
  ok : A → Result E A
  err : E → Result E A

infixl 5 ◌>>=◌ ◌>>◌
abbrev pub ◌>>=◌ {ℓ} : {E A B : Type ℓ} → Result E A → (A → Result E B) → Result E B
err failure >>= next = err failure
ok value >>= next = next value

abbrev pub ◌>>◌ {ℓ} : {E A B : Type ℓ} → Result E A → Result E B → Result E B
m >> k = m >>= λ _. k

-- Where a chain returns a value its first call did, and the rest returned that value from it.
module _ {ℓ} {E A B : Type ℓ} where
  pub >>=-eq-ok :
      (first : Result E A) (next : A → Result E B) {last : B}
      → (first >>= next) ≡ ok last
      → (between : A) × (first ≡ ok between) × (next between ≡ ok last)
  >>=-eq-ok (err failure) next returned = cc
  >>=-eq-ok (ok between) next returned = (between, refl, returned)

-- A value that is returned satisfies `P`.
module _ {ℓ κ} {E A : Type ℓ} (P : A → Type κ) where
  abbrev pub Returns : Result E A → Type κ
  Returns (err failure) = Unit
  Returns (ok value) = P value

  pub returned_value : (r : Result E A) (a : A) → r ≡ ok a → Returns r → P a
  returned_value r a e h = subst Returns e h

module _ {ℓ} {E A : Type ℓ} where
  pub yields_itself : (r : Result E A) → Returns (λ a. r ≡ ok a) r
  yields_itself (err failure) = tt
  yields_itself (ok value) = refl

module _ {ℓ κ μ} {E A : Type ℓ} (P : A → Type κ) (Q : A → Type μ) where
  pub weaken-Returns : (r : Result E A) → ((a : A) → P a → Q a) → Returns P r → Returns Q r
  weaken-Returns (err failure) f h = tt
  weaken-Returns (ok value) f h = f value h

module _ {ℓ κ μ} {E A B : Type ℓ} (P : A → Type κ) (Q : B → Type μ) where
  pub bind-Returns :
      (m : Result E A) (f : A → Result E B)
      → Returns P m
      → ((a : A) → P a → Returns Q (f a))
      → Returns Q (m >>= f)
  bind-Returns (err failure) f h k = tt
  bind-Returns (ok value) f h k = k value h

-- The same where nothing is asked of the first call.
module _ {ℓ κ} {E A B : Type ℓ} (Q : B → Type κ) where
  pub pass-Returns :
      (m : Result E A) (f : A → Result E B) → ((a : A) → Returns Q (f a)) → Returns Q (m >>= f)
  pass-Returns (err failure) f k = tt
  pass-Returns (ok value) f k = k value
