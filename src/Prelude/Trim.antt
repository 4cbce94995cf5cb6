-- ===== src/Prelude/Trim.antt =====
-- strings.TrimSuffix at one byte, by what a text ends in.
use Prim.Native.Nat.{ℕ}
use mathlib.Core.Path.{◌≡◌, refl, ap, sym, ◌∙◌}
use mathlib.Core.Bool.{Bool, false, ◌||◌}
use mathlib.Core.List.{List, [], ◌∷◌, ◌++◌, reverse, reverse-append, reverse-reverse}
use kubewaf.Prelude.Tests.{◌==◌, if◌then◌else◌, if_false}
use kubewaf.Prelude.Lists.{All, is_nil}
use kubewaf.Prelude.Bytes.{Bytes, join, trim_prefix, trim_suffix}
use kubewaf.Prelude.Split.{IsPiece}
use native.Mathlib.Omega.{arith}

-- The last byte is another one than `sep`.
abbrev pub EndsOff : ℕ → Bytes → Type 0
EndsOff sep s = (init : Bytes) × (c : ℕ) × (s ≡ init ++ (c ∷ [])) × ((c == sep) ≡ false)

-- A segment of a path: not empty, and without the separator.
abbrev pub IsSegment : ℕ → Bytes → Type 0
IsSegment sep s = (is_nil s ≡ false) × IsPiece sep s

unfoldable pub has_byte : ℕ → Bytes → Bool
has_byte sep [] = false
has_byte sep (c ∷ s) = c == sep || has_byte sep s

module _ (sep : ℕ) where
  is_piece : (s : Bytes) → has_byte sep s ≡ false → IsPiece sep s
  unfolding has_byte
  is_piece [] h = tt
  is_piece (c ∷ s) h = ground (arith, is_piece s)

  -- A constant that has no such byte is a segment.
  pub constant_IsSegment : (s : Bytes) → is_nil s ≡ false → has_byte sep s ≡ false → IsSegment sep s
  constant_IsSegment s h none_there = (h, is_piece s none_there)

  cons_EndsOff : (c : ℕ) (s : Bytes) → EndsOff sep s → EndsOff sep (c ∷ s)
  cons_EndsOff c s (init, d, e, off) = (c ∷ init, d, ap (λ t. c ∷ t) e, off)

  piece-EndsOff : (s : Bytes) → IsSegment sep s → EndsOff sep s
  piece-EndsOff [] (h, _) = cc
  piece-EndsOff (c ∷ []) (_, (off, _)) = ([], c, refl, off)
  piece-EndsOff (c ∷ d ∷ s) (_, (_, h)) = cons_EndsOff c (d ∷ s) (piece-EndsOff (d ∷ s) (refl, h))

  pub append-EndsOff : (a s : Bytes) → EndsOff sep s → EndsOff sep (a ++ s)
  append-EndsOff [] s h = h
  append-EndsOff (c ∷ a) s h = cons_EndsOff c (a ++ s) (append-EndsOff a s h)

  pub join-EndsOff :
      (l : Bytes) (ls : List Bytes)
      → All (IsSegment sep) (l ∷ ls)
      → EndsOff sep (join (l ∷ ls) (sep ∷ []))
  unfolding join
  join-EndsOff l [] (h, _) = piece-EndsOff l h
  join-EndsOff l (m ∷ ls) (h, hs) =
      append-EndsOff l (sep ∷ join (m ∷ ls) (sep ∷ []))
        (cons_EndsOff sep (join (m ∷ ls) (sep ∷ [])) (join-EndsOff m ls hs))

  pub trim_suffix-EndsOff : (s : Bytes) → EndsOff sep s → trim_suffix s sep ≡ s
  unfolding trim_suffix trim_prefix
  trim_suffix-EndsOff s (init, c, e, off) =
      let back : reverse s ≡ c ∷ reverse init = ap reverse e ∙ reverse-append init (c ∷ []) in
      ap (λ t. reverse (trim_prefix t sep)) back
      ∙ ap reverse (if_false (c == sep) (reverse init) (c ∷ reverse init) off ∙ sym back)
      ∙ reverse-reverse s

  pub trim_suffix-snoc : (s : Bytes) → trim_suffix (s ++ (sep ∷ [])) sep ≡ s
  unfolding trim_suffix trim_prefix
  trim_suffix-snoc s =
      ap (λ t. reverse (trim_prefix t sep)) (reverse-append s (sep ∷ []))
      ∙ ap reverse (same_byte (reverse s))
      ∙ reverse-reverse s
    where
      same_byte : (t : Bytes) → (if sep == sep then t else sep ∷ t) ≡ t
      same_byte t = ground arith
