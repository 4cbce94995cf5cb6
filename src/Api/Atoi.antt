-- ===== src/Api/Atoi.antt =====
-- strconv.Atoi as the id allocation uses it: its callers ask only whether the result is above 0, or
-- delete it from a set of such numbers, so a negative result is modelled by 0.
use Prim.Native.Char.{code}
use Prim.Native.String.{[], ◌∷◌}
use kubewaf.Prelude.{
  ℕ, ◌+◌, ◌-◌, ◌*◌, ◌^◌, ◌≡◌, refl, String, ◌&&◌, Option, none, some, leb, ◌==◌, if◌then◌else◌,
}

digits : ℕ → String → Option ℕ
digits n [] = some n
digits n (ch ∷ s) =
    let c = code ch in
    let more = digits (n * 10 + (c - 48)) s in if leb 48 c && leb c 57 then more else none

-- One digit at least.
number : String → Option ℕ
unfolding digits
number [] = none
number (ch ∷ s) = digits 0 (ch ∷ s)

at_most : ℕ → Option ℕ → Option ℕ
at_most limit none = none
at_most limit (some n) = if leb n limit then some n else none

negative : Option ℕ → Option ℕ
negative none = none
negative (some n) = some 0

unfoldable pub atoi : String → Option ℕ
unfolding number at_most negative
atoi [] = none
atoi (ch ∷ s) =
    if code ch == b'-'
    then negative (at_most (2 ^ 63) (number s))
    else if code ch == b'+'
    then at_most (2 ^ 63 - 1) (number s)
    else at_most (2 ^ 63 - 1) (number (ch ∷ s))

reads : atoi "941100" ≡ some 941100
unfolding atoi
reads = refl

refuses : atoi "12a" ≡ none
unfolding atoi
refuses = refl
