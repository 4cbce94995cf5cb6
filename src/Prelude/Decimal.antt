-- ===== src/Prelude/Decimal.antt =====
-- `%d` of package fmt.
use Prim.Native.Nat.{ℕ, zero, suc, ◌+◌, ◌/◌, ◌%◌}
use mathlib.Core.List.{[], ◌∷◌}
use kubewaf.Prelude.Tests.{ltb, if◌then◌else◌}
use kubewaf.Prelude.Bytes.{Bytes}
use kubewaf.Prelude.Int.{ℤ, pos, negsuc}

digits : ℕ → ℕ → Bytes → Bytes
digits zero n out = out
digits (suc fuel) n out =
    let more = digits fuel (n / 10) ((48 + n % 10) ∷ out) in
    if ltb n 10 then (48 + n % 10) ∷ out else more

-- An int of 64 bits has at most 19 digits.
decimal_ℕ : ℕ → Bytes
unfolding digits
decimal_ℕ n = digits 20 n []

unfoldable pub decimal : ℤ → Bytes
unfolding decimal_ℕ
decimal (pos n) = decimal_ℕ n
decimal (negsuc n) = 45 ∷ decimal_ℕ (n + 1)
