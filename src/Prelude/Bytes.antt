-- ===== src/Prelude/Bytes.antt =====
-- Go strings that the code walks byte by byte, and the functions of package strings that it calls.
use Prim.Native.Nat.{ℕ, zero, suc, ◌+◌}
use Prim.Native.Char.{code}
use Prim.Native.String.{String}
use mathlib.Core.Path.{◌≡◌, refl}
use mathlib.Core.Bool.{Bool, true, false, ◌&&◌, ◌||◌}
use mathlib.Core.List.{List, [], ◌∷◌, ◌++◌, reverse}
use native.Mathlib.Omega.{arith}
use kubewaf.Prelude.Tests.{leb, ◌==◌, if◌then◌else◌}

abbrev pub Bytes : Type 0
Bytes = List ℕ

-- The code points of a literal: its bytes, since the literals of the source are ASCII.
abbrev pub codes : String → Bytes
codes String.[] = []
codes (String.◌∷◌ c s) = code c ∷ codes s

-- Go's `==` on strings.
unfoldable pub bytes_eq : Bytes → Bytes → Bool
bytes_eq [] [] = true
bytes_eq (c ∷ s) (d ∷ t) = c == d && bytes_eq s t
bytes_eq _ _ = false

pub bytes_eq→eq : (s t : Bytes) → bytes_eq s t ≡ true → s ≡ t
unfolding bytes_eq
bytes_eq→eq [] [] h = refl
bytes_eq→eq [] (d ∷ t) h = cc
bytes_eq→eq (c ∷ s) [] h = cc
bytes_eq→eq (c ∷ s) (d ∷ t) h = ground (arith, bytes_eq→eq s t)

pub bytes_eq_refl : (s : Bytes) → bytes_eq s s ≡ true
unfolding bytes_eq
bytes_eq_refl [] = refl
bytes_eq_refl (c ∷ s) = ground (arith, bytes_eq_refl s)

-- A lookup in a `map[string]struct{}`.
unfoldable pub mem : Bytes → List Bytes → Bool
mem s [] = false
mem s (t ∷ ts) = bytes_eq s t || mem s ts

-- `unicode.IsSpace` on one byte, and on the two and three bytes of the wider spaces in UTF-8.
unfoldable pub is_space : ℕ → Bool
is_space c = leb 9 c && leb c 13 || c == 32

is_space2 : ℕ → ℕ → Bool
is_space2 a b = a == 0xC2 && (b == 0x85 || b == 0xA0)

is_space3 : ℕ → ℕ → ℕ → Bool
is_space3 a b c =
    (a == 0xE1 && b == 0x9A && c == 0x80)
    || (a == 0xE2 && b == 0x80 && (leb 0x80 c && leb c 0x8A || c == 0xA8 || c == 0xA9 || c == 0xAF))
    || (a == 0xE2 && b == 0x81 && c == 0x9F)
    || (a == 0xE3 && b == 0x80 && c == 0x80)

-- The width in bytes of the space at the front, 0 if there is none.
leading_space : Bytes → ℕ
unfolding is_space is_space2 is_space3
leading_space [] = 0
leading_space (a ∷ []) = if is_space a then 1 else 0
leading_space (a ∷ b ∷ []) = if is_space a then 1 else if is_space2 a b then 2 else 0
leading_space (a ∷ b ∷ c ∷ s) =
    if is_space a then 1 else if is_space2 a b then 2 else if is_space3 a b c then 3 else 0

-- The same at the end of a reversed text.
trailing_space : Bytes → ℕ
unfolding is_space is_space2 is_space3
trailing_space [] = 0
trailing_space (a ∷ []) = if is_space a then 1 else 0
trailing_space (b ∷ a ∷ []) = if is_space b then 1 else if is_space2 a b then 2 else 0
trailing_space (c ∷ b ∷ a ∷ s) =
    if is_space c then 1 else if is_space2 b c then 2 else if is_space3 a b c then 3 else 0

-- Drops `n` bytes, and then spaces as `width` finds them.
drop_spaces : (Bytes → ℕ) → ℕ → Bytes → Bytes
drop_spaces width n [] = []
drop_spaces width (suc n) (c ∷ s) = drop_spaces width n s
drop_spaces width zero (c ∷ s) = elim (width (c ∷ s)) [
  | zero ↦ c ∷ s
  | suc n ↦ drop_spaces width n s
]

-- `strings.TrimSpace`
unfoldable pub trim_space : Bytes → Bytes
unfolding drop_spaces leading_space trailing_space
trim_space s = reverse (drop_spaces trailing_space 0 (reverse (drop_spaces leading_space 0 s)))

-- `strings.TrimPrefix` and `strings.TrimSuffix` at one byte.
unfoldable pub trim_prefix : Bytes → ℕ → Bytes
trim_prefix [] p = []
trim_prefix (c ∷ s) p = if c == p then s else c ∷ s

unfoldable pub trim_suffix : Bytes → ℕ → Bytes
unfolding trim_prefix
trim_suffix s p = reverse (trim_prefix (reverse s) p)

-- `strings.HasPrefix`
unfoldable pub has_prefix : Bytes → Bytes → Bool
has_prefix s [] = true
has_prefix [] (d ∷ t) = false
has_prefix (c ∷ s) (d ∷ t) = c == d && has_prefix s t

-- `strings.TrimPrefix` at a longer prefix: what is behind it, or else the string.
behind : Bytes → Bytes → Bytes → Bytes
behind whole s [] = s
behind whole [] (d ∷ t) = whole
behind whole (c ∷ s) (d ∷ t) = let rest = behind whole s t in if c == d then rest else whole

unfoldable pub trim_front : Bytes → Bytes → Bytes
unfolding behind
trim_front s prefix = behind s s prefix

behind-append : (whole t s : Bytes) → behind whole (t ++ s) t ≡ s
unfolding behind
behind-append whole [] s = refl
behind-append whole (d ∷ t) s = ground (arith, behind-append whole t s)

pub trim_front-append : (t s : Bytes) → trim_front (t ++ s) t ≡ s
unfolding trim_front
trim_front-append t s = behind-append (t ++ s) t s

-- `strings.Join`
unfoldable pub join : List Bytes → Bytes → Bytes
join [] sep = []
join (p ∷ []) sep = p
join (p ∷ q ∷ ps) sep = p ++ (sep ++ join (q ∷ ps) sep)

-- `strings.ToLower` on ASCII.
unfoldable pub to_lower : Bytes → Bytes
to_lower [] = []
to_lower (c ∷ s) = (if leb b'A' c && leb c b'Z' then c + 32 else c) ∷ to_lower s

-- `strings.Contains`
unfoldable pub contains : Bytes → Bytes → Bool
unfolding has_prefix
contains [] t = has_prefix [] t
contains (c ∷ s) t = has_prefix (c ∷ s) t || contains s t
