-- ===== src/Prelude/Order.antt =====
-- Orders given by tests: the integers, Go's strings, and comparisons by one key and then another.
use mathlib.Core.Path.{◌≡◌, refl}
use mathlib.Core.Bool.{Bool, true, false}
use mathlib.Core.List.{[], ◌∷◌}
use native.Mathlib.Omega.{arith}
use kubewaf.Prelude.Tests.{ltb, ◌==◌, if◌then◌else◌}
use kubewaf.Prelude.Int.{ltb_ℤ, eqb_ℤ}
use kubewaf.Prelude.Bytes.{Bytes, bytes_eq}

then_false : (e l l' : Bool) → (e ≡ true → l ≡ false) → (if e then l' else l) ≡ false → (l ≡ false)
then_false true l l' h h' = h refl
then_false false l l' h h' = h'

then_asym :
    (e e' l l' m m' : Bool)
    → e ≡ e'
    → (l ≡ true → m ≡ false)
    → (l' ≡ true → m' ≡ false)
    → (if e then l' else l) ≡ true
    → (if e' then m' else m) ≡ false
then_asym true true l l' m m' h first second t = second t
then_asym true false l l' m m' h first second t = cc
then_asym false true l l' m m' h first second t = cc
then_asym false false l l' m m' h first second t = first t

then_trans :
    (e l l' : Bool)
    → (e ≡ true → l' ≡ false)
    → (e ≡ false → l ≡ false)
    → (if e then l' else l) ≡ false
then_trans true l l' h h' = h refl
then_trans false l l' h h' = h' refl

then_equal : (e l l' : Bool) → e ≡ true → (if e then l' else l) ≡ false → l' ≡ false
then_equal true l l' e h = h
then_equal false l l' e h = cc

module _ {A : Type 0} where
  -- A strict order whose negation is transitive.
  pub record IsOrder (less : A → A → Bool) : Type 0 where
    pub asym : (a b : A) → less a b ≡ true → less b a ≡ false
    pub trans : (a b c : A) → less b a ≡ false → less c b ≡ false → less c a ≡ false

  -- With the test for its equals.
  pub record IsTotal (eq less : A → A → Bool) : Type 0 where
    pub order : IsOrder less
    pub eq_sym : (a b : A) → eq a b ≡ eq b a
    pub eq_not_less : (a b : A) → eq a b ≡ true → less a b ≡ false
    pub squeeze :
        (a b c : A)
        → less b a ≡ false
        → less c b ≡ false
        → eq c a ≡ true
        → (eq b a ≡ true) × (eq c b ≡ true)

  -- First by one test, and among its equals by the other.
  abbrev pub by_then : (A → A → Bool) → (A → A → Bool) → (A → A → Bool) → A → A → Bool
  by_then eq less less' a b = if eq a b then less' a b else less a b

  pub by_then-IsOrder :
      (eq less less' : A → A → Bool)
      → IsTotal eq less
      → IsOrder less'
      → IsOrder (by_then eq less less')
  by_then-IsOrder eq less less' t o = record {
    asym = λ a b.
        then_asym (eq a b) (eq b a) (less a b) (less' a b) (less b a) (less' b a) (t.eq_sym a b)
          (t.order.asym a b) (o.asym a b);
    trans = λ a b c h h'.
        let first = then_false (eq b a) (less b a) (less' b a) (t.eq_not_less b a) h in
        let second = then_false (eq c b) (less c b) (less' c b) (t.eq_not_less c b) h' in
        then_trans (eq c a) (less c a) (less' c a)
          (λ e.
            let (same, same') = t.squeeze a b c first second e in
            o.trans a b c (then_equal (eq b a) (less b a) (less' b a) same h)
              (then_equal (eq c b) (less c b) (less' c b) same' h'))
          (λ _. t.order.trans a b c first second);
  }

-- An order of values is one of what they are values of.
pub along-IsOrder :
    {A B : Type 0} (f : A → B) (less : B → B → Bool)
    → IsOrder less
    → IsOrder (λ a b. less (f a) (f b))
along-IsOrder f less o = record {
  asym = λ a b. o.asym (f a) (f b);
  trans = λ a b c. o.trans (f a) (f b) (f c);
}

pub along-IsTotal :
    {A B : Type 0} (f : A → B) (eq less : B → B → Bool)
    → IsTotal eq less
    → IsTotal (λ a b. eq (f a) (f b)) (λ a b. less (f a) (f b))
along-IsTotal f eq less t = record {
  order = along-IsOrder f less t.order;
  eq_sym = λ a b. t.eq_sym (f a) (f b);
  eq_not_less = λ a b. t.eq_not_less (f a) (f b);
  squeeze = λ a b c. t.squeeze (f a) (f b) (f c);
}

pub ℤ-IsTotal : IsTotal eqb_ℤ ltb_ℤ
ℤ-IsTotal = record {
  order = record { asym = λ a b h. ground arith; trans = λ a b c h h'. ground arith };
  eq_sym = λ a b. ground arith;
  eq_not_less = λ a b h. ground arith;
  squeeze = λ a b c h h' e. ground arith;
}

-- Go's `<` on strings.
unfoldable pub bytes_lt : Bytes → Bytes → Bool
bytes_lt s [] = false
bytes_lt [] (d ∷ t) = true
bytes_lt (c ∷ s) (d ∷ t) = let rest = bytes_lt s t in if c == d then rest else ltb c d

bytes_lt_asym : (s t : Bytes) → bytes_lt s t ≡ true → bytes_lt t s ≡ false
unfolding bytes_lt
bytes_lt_asym s [] h = cc
bytes_lt_asym [] (d ∷ t) h = refl
bytes_lt_asym (c ∷ s) (d ∷ t) h = ground (arith, bytes_lt_asym s t)

bytes_lt_trans :
    (a b c : Bytes) → bytes_lt b a ≡ false → bytes_lt c b ≡ false → bytes_lt c a ≡ false
unfolding bytes_lt
bytes_lt_trans [] b c h h' = refl
bytes_lt_trans (x ∷ a) [] c h h' = cc
bytes_lt_trans (x ∷ a) (y ∷ b) [] h h' = cc
bytes_lt_trans (x ∷ a) (y ∷ b) (z ∷ c) h h' = ground (arith, bytes_lt_trans a b c)

pub bytes_eq_sym : (s t : Bytes) → bytes_eq s t ≡ bytes_eq t s
unfolding bytes_eq
bytes_eq_sym [] [] = refl
bytes_eq_sym [] (d ∷ t) = refl
bytes_eq_sym (c ∷ s) [] = refl
bytes_eq_sym (c ∷ s) (d ∷ t) = ground (arith, bytes_eq_sym s t)

bytes_eq_not_less : (s t : Bytes) → bytes_eq s t ≡ true → bytes_lt s t ≡ false
unfolding bytes_lt bytes_eq
bytes_eq_not_less [] [] h = refl
bytes_eq_not_less [] (d ∷ t) h = cc
bytes_eq_not_less (c ∷ s) [] h = refl
bytes_eq_not_less (c ∷ s) (d ∷ t) h = ground (arith, bytes_eq_not_less s t)

bytes_squeeze :
    (a b c : Bytes)
    → bytes_lt b a ≡ false
    → bytes_lt c b ≡ false
    → bytes_eq c a ≡ true
    → (bytes_eq b a ≡ true) × (bytes_eq c b ≡ true)
unfolding bytes_lt bytes_eq
bytes_squeeze [] [] [] h h' e = (refl, refl)
bytes_squeeze [] (y ∷ b) [] h h' e = cc
bytes_squeeze [] b (z ∷ c) h h' e = cc
bytes_squeeze (x ∷ a) b [] h h' e = cc
bytes_squeeze (x ∷ a) [] (z ∷ c) h h' e = cc
bytes_squeeze (x ∷ a) (y ∷ b) (z ∷ c) h h' e = ground (arith, bytes_squeeze a b c)

pub Bytes-IsTotal : IsTotal bytes_eq bytes_lt
Bytes-IsTotal = record {
  order = record { asym = bytes_lt_asym; trans = bytes_lt_trans };
  eq_sym = bytes_eq_sym;
  eq_not_less = bytes_eq_not_less;
  squeeze = bytes_squeeze;
}
