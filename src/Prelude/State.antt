-- ===== src/Prelude/State.antt =====
-- Code that calls a server: the server's state goes in and comes back, also when the call fails.
use kubewaf.Prelude.Result.{Result, ok, err}

abbrev pub Effect {ℓ} : Type ℓ → Type ℓ → Type ℓ → Type ℓ
Effect S E A = S → Result E A × S

module _ {ℓ} {S E A : Type ℓ} where
  abbrev pub pure : A → Effect S E A
  pure a s = (ok a, s)

  abbrev pub fail : E → Effect S E A
  fail e s = (err e, s)

module _ {ℓ} {S E A B : Type ℓ} where
  abbrev pub go_on : Result E A → (A → Effect S E B) → Effect S E B
  go_on (ok a) f s = f a s
  go_on (err e) f s = (err e, s)

  infixl 5 ◌>>=◌
  abbrev pub ◌>>=◌ : Effect S E A → (A → Effect S E B) → Effect S E B
  ◌>>=◌ m f s = go_on (m s).0 f (m s).1
