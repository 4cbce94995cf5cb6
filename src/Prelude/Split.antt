-- ===== src/Prelude/Split.antt =====
-- strings.Split at one byte, and that it undoes strings.Join.
use Prim.Native.Nat.{ℕ}
use mathlib.Core.Path.{◌≡◌, refl, ap, ◌∙◌}
use mathlib.Core.Bool.{false}
use mathlib.Core.List.{List, [], ◌∷◌, ◌++◌}
use kubewaf.Prelude.Tests.{◌==◌, if◌then◌else◌, if_false}
use kubewaf.Prelude.Lists.{All}
use kubewaf.Prelude.Bytes.{Bytes, join}
use native.Mathlib.Omega.{arith}

-- The first piece grows at its front.
unfoldable pub cons_piece : ℕ → List Bytes → List Bytes
cons_piece c [] = (c ∷ []) ∷ []
cons_piece c (l ∷ ls) = (c ∷ l) ∷ ls

unfoldable pub split : Bytes → ℕ → List Bytes
unfolding cons_piece
split [] sep = [] ∷ []
split (c ∷ s) sep = let rest = split s sep in if c == sep then [] ∷ rest else cons_piece c rest

-- No separator in it.
abbrev pub IsPiece : ℕ → Bytes → Type 0
IsPiece sep s = All (λ c. (c == sep) ≡ false) s

module _ (sep : ℕ) where
  split_cons :
      (c : ℕ) (s : Bytes) → (c == sep) ≡ false → split (c ∷ s) sep ≡ cons_piece c (split s sep)
  unfolding split
  split_cons c s h = if_false (c == sep) ([] ∷ split s sep) (cons_piece c (split s sep)) h

  pub split_piece : (s : Bytes) → IsPiece sep s → split s sep ≡ s ∷ []
  unfolding split cons_piece
  split_piece [] h = refl
  split_piece (c ∷ s) (h, hs) = split_cons c s h ∙ ap (cons_piece c) (split_piece s hs)

  pub split_first : (s t : Bytes) → IsPiece sep s → split (s ++ (sep ∷ t)) sep ≡ s ∷ split t sep
  unfolding split cons_piece
  split_first [] t h = ground arith
  split_first (c ∷ s) t (h, hs) =
      split_cons c (s ++ (sep ∷ t)) h ∙ ap (cons_piece c) (split_first s t hs)

  pub split-join :
      (l : Bytes) (ls : List Bytes)
      → All (IsPiece sep) (l ∷ ls)
      → split (join (l ∷ ls) (sep ∷ [])) sep ≡ l ∷ ls
  unfolding join
  split-join l [] (h, _) = split_piece l h
  split-join l (m ∷ ls) (h, hs) =
      split_first l (join (m ∷ ls) (sep ∷ [])) h ∙ ap (λ k. l ∷ k) (split-join m ls hs)
