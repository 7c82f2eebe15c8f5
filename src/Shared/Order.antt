-- ===== src/Shared/Order.antt =====
-- Comparisons, lexicographic comparison of lists, and their laws.
use Prim.Native.Nat.{compare, Ordering}
use mathlib.Core.Path.{◌≡◌, refl}
use mathlib.Core.List.{List, [], ◌∷◌}
use native.Mathlib.Omega.{arith}

-- `Ordering::then`
abbrev pub then : Ordering → Ordering → Ordering
then Ordering.lt o = Ordering.lt
then Ordering.eq o = o
then Ordering.gt o = Ordering.gt

abbrev pub lex {ℓ} : {A : Type ℓ} → (A → A → Ordering) → List A → List A → Ordering
lex c [] [] = Ordering.eq
lex c [] (y ∷ ys) = Ordering.lt
lex c (x ∷ xs) [] = Ordering.gt
lex c (x ∷ xs) (y ∷ ys) = then (c x y) (lex c xs ys)

-- A total order, as `Ord` promises it.
pub record IsOrder {ℓ} {A : Type ℓ} (c : A → A → Ordering) : Type ℓ where
  pub same : (a : A) → c a a ≡ Ordering.eq
  pub eq_sound : (a b : A) → c a b ≡ Ordering.eq → a ≡ b
  pub flip : (a b : A) → c a b ≡ Ordering.gt → c b a ≡ Ordering.lt
  pub lt_trans : (a b d : A) → c a b ≡ Ordering.lt → c b d ≡ Ordering.lt → c a d ≡ Ordering.lt

pub compare-IsOrder : IsOrder compare
compare-IsOrder = record {
  same = λ a. ground arith;
  eq_sound = λ a b h. ground arith;
  flip = λ a b h. ground arith;
  lt_trans = λ a b d h k. ground arith;
}

module _ {ℓ} {A : Type ℓ} (c : A → A → Ordering) (o : IsOrder c) where
  lex-same : (xs : List A) → lex c xs xs ≡ Ordering.eq
  lex-same [] = refl
  lex-same (x ∷ xs) = ground (arith, o.same x, lex-same xs)

  lex-eq_sound : (xs ys : List A) → lex c xs ys ≡ Ordering.eq → xs ≡ ys
  lex-eq_sound [] [] h = refl
  lex-eq_sound [] (y ∷ ys) h = cc
  lex-eq_sound (x ∷ xs) [] h = cc
  lex-eq_sound (x ∷ xs) (y ∷ ys) h = ground (arith, o.eq_sound x y, lex-eq_sound xs ys)

  lex-flip : (xs ys : List A) → lex c xs ys ≡ Ordering.gt → lex c ys xs ≡ Ordering.lt
  lex-flip [] [] h = cc
  lex-flip [] (y ∷ ys) h = cc
  lex-flip (x ∷ xs) [] h = refl
  lex-flip (x ∷ xs) (y ∷ ys) h =
      ground (arith, o.flip x y, o.eq_sound x y, o.same x, lex-flip xs ys)

  lex-lt_trans :
      (xs ys zs : List A)
      → lex c xs ys ≡ Ordering.lt
      → lex c ys zs ≡ Ordering.lt
      → lex c xs zs ≡ Ordering.lt
  lex-lt_trans [] [] zs h k = cc
  lex-lt_trans [] (y ∷ ys) [] h k = cc
  lex-lt_trans [] (y ∷ ys) (z ∷ zs) h k = refl
  lex-lt_trans (x ∷ xs) [] zs h k = cc
  lex-lt_trans (x ∷ xs) (y ∷ ys) [] h k = cc
  lex-lt_trans (x ∷ xs) (y ∷ ys) (z ∷ zs) h k =
      ground (arith, o.lt_trans x y z, o.eq_sound x y, o.eq_sound y z, lex-lt_trans xs ys zs)

  pub lex-IsOrder : IsOrder (lex c)
  lex-IsOrder = record {
    same = lex-same;
    eq_sound = lex-eq_sound;
    flip = lex-flip;
    lt_trans = lex-lt_trans;
  }
