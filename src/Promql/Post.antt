-- ===== src/Promql/Post.antt =====
-- Postconditions of the fallible functions of promql_scope.go, with a rule for each way to build one.
use kubewaf.Prelude.{Bool, true, false, if◌then◌else◌, ◌≡◌, refl, subst, Option, none, some}
use kubewaf.Prelude.Result.{Result, ok, err, ◌>>=◌}
use kubewaf.Promql.Scan.{Error, out_of_fuel}

-- An error that the source returns or raises: all but the model's own.
abbrev pub IsSource : Error → Type 0
IsSource out_of_fuel = ⊥
IsSource _ = Unit

-- A returned value satisfies `P`, and an error is one of the source's.
pub data Post {A : Type 0} (P : A → Type 0) : Result Error A → Type 0 where
  returned : {a : A} → P a → Post P (ok a)
  failed : {e : Error} → IsSource e → Post P (err e)

module _ {A : Type 0} {P : A → Type 0} where
  pub if-Post :
      (b : Bool) {r r' : Result Error A} → Post P r → Post P r' → Post P (if b then r else r')
  if-Post true h h' = h
  if-Post false h h' = h'

  -- The same where the branches may use the outcome of the test.
  pub test-Post :
      (b : Bool) {r r' : Result Error A}
      → (b ≡ true → Post P r)
      → (b ≡ false → Post P r')
      → Post P (if b then r else r')
  test-Post true h h' = h refl
  test-Post false h h' = h' refl

  value-Post : {a : A} → Post P (ok a) → P a
  value-Post (returned h) = h

  error-Post : {e : Error} → Post P (err e) → IsSource e
  error-Post (failed h) = h

  pub returns-Post : {a : A} {r : Result Error A} → Post P r → r ≡ ok a → P a
  returns-Post p e = value-Post (subst (Post P) e p)

  pub fails-Post : {e : Error} {r : Result Error A} → Post P r → r ≡ err e → IsSource e
  fails-Post p e = error-Post (subst (Post P) e p)

module _ {A B : Type 0} {P : A → Type 0} where
  pub option-Post :
      (o : Option B) {r : Result Error A} {f : B → Result Error A}
      → Post P r
      → ((b : B) → Post P (f b))
      → Post P (elim o [ none ↦ r | some b ↦ f b ])
  option-Post none h k = h
  option-Post (some b) h k = k b

module _ {A B : Type 0} {P : A → Type 0} {Q : B → Type 0} where
  pub bind-Post :
      (m : Result Error A) (f : A → Result Error B)
      → Post P m
      → ((a : A) → P a → Post Q (f a))
      → Post Q (m >>= f)
  bind-Post (ok a) f (returned h) k = k a h
  bind-Post (err e) f (failed h) k = failed h

  -- The same where the rest may use that the first part returned the value.
  pub bind-eq-Post :
      (m : Result Error A) (f : A → Result Error B)
      → Post P m
      → ((a : A) → m ≡ ok a → P a → Post Q (f a))
      → Post Q (m >>= f)
  bind-eq-Post (ok a) f (returned h) k = k a refl h
  bind-eq-Post (err e) f (failed h) k = failed h
