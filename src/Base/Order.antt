-- ===== src/Base/Order.antt =====
-- Three-way comparisons, as Python compares the parts of a tuple one after the other.
use mathlib.Core.Path.{◌≡◌, refl}
use Prim.Native.Nat.{ℕ, compare, Ordering}
use mathlib.Core.Bool.{Bool, true, false}
use mathlib.Core.Logic.{◌⊎◌, inl, inr}
use mathlib.Core.List.{List, [], ◌∷◌}
use native.Mathlib.Omega.{arith}
use repo_guard.Base.Tests.{if◌then◌else◌}
pub mod Sort

-- The first part that differs decides.
abbrev pub then_compare : Ordering → Ordering → Ordering
then_compare Ordering.lt o = Ordering.lt
then_compare Ordering.eq o = o
then_compare Ordering.gt o = Ordering.gt

abbrev pub flip : Ordering → Ordering
flip Ordering.lt = Ordering.gt
flip Ordering.eq = Ordering.eq
flip Ordering.gt = Ordering.lt

pub record IsOrder {A : Type 0} (cmp : A → A → Ordering) : Type 0 where
  pub flipped : (a b : A) → cmp b a ≡ flip (cmp a b)
  pub lt_trans : (a b c : A) → cmp a b ≡ Ordering.lt → cmp b c ≡ Ordering.lt → cmp a c ≡ Ordering.lt
  pub eq_left : (a b c : A) → cmp a b ≡ Ordering.eq → cmp a c ≡ cmp b c

pub compare-IsOrder : IsOrder compare
compare-IsOrder = record {
  flipped = λ a b. ground arith;
  lt_trans = λ a b c p q. ground arith;
  eq_left = λ a b c p. ground arith;
}

-- `sorted(xs, key=f)` compares by the key.
abbrev pub compare_by : {A K : Type 0} → (K → K → Ordering) → (A → K) → A → A → Ordering
compare_by cmp key a b = cmp (key a) (key b)

pub compare_by-IsOrder :
    {A K : Type 0} (cmp : K → K → Ordering) (key : A → K)
    → IsOrder cmp
    → IsOrder (compare_by cmp key)
compare_by-IsOrder cmp key o = record {
  flipped = λ a b. o.flipped (key a) (key b);
  lt_trans = λ a b c. o.lt_trans (key a) (key b) (key c);
  eq_left = λ a b c. o.eq_left (key a) (key b) (key c);
}

-- The two comparisons one after the other, as for the items of a tuple.
abbrev pub compare_then : {A : Type 0} → (A → A → Ordering) → (A → A → Ordering) → A → A → Ordering
compare_then f g a b = then_compare (f a b) (g a b)

module _ {A : Type 0} {cmp : A → A → Ordering} (o : IsOrder cmp) where
  pub eq_right : (a b c : A) → cmp b c ≡ Ordering.eq → cmp a b ≡ cmp a c
  eq_right a b c h = ground (arith, o.flipped b a, o.flipped c a, o.eq_left b c a)

module _ {A : Type 0} (f g : A → A → Ordering) (of : IsOrder f) (og : IsOrder g) where
  compare_then-lt_trans :
      (a b c : A)
      → compare_then f g a b ≡ Ordering.lt
      → compare_then f g b c ≡ Ordering.lt
      → compare_then f g a c ≡ Ordering.lt
  compare_then-lt_trans a b c p q =
      ground (arith, of.lt_trans a b c, og.lt_trans a b c, of.eq_left a b c, eq_right of a b c)

  pub compare_then-IsOrder : IsOrder (compare_then f g)
  compare_then-IsOrder = record {
    flipped = λ a b. ground (arith, of.flipped a b, og.flipped a b);
    lt_trans = compare_then-lt_trans;
    eq_left = λ a b c p. ground (arith, of.eq_left a b c, og.eq_left a b c);
  }

-- Sequences compare item by item, and a proper prefix comes first.
abbrev pub compare_lists : {A : Type 0} → (A → A → Ordering) → List A → List A → Ordering
compare_lists cmp [] [] = Ordering.eq
compare_lists cmp [] (y ∷ ys) = Ordering.lt
compare_lists cmp (x ∷ xs) [] = Ordering.gt
compare_lists cmp (x ∷ xs) (y ∷ ys) = then_compare (cmp x y) (compare_lists cmp xs ys)

module _ {A : Type 0} (cmp : A → A → Ordering) (o : IsOrder cmp) where
  lists_flipped : (xs ys : List A) → compare_lists cmp ys xs ≡ flip (compare_lists cmp xs ys)
  lists_flipped [] [] = refl
  lists_flipped [] (y ∷ ys) = refl
  lists_flipped (x ∷ xs) [] = refl
  lists_flipped (x ∷ xs) (y ∷ ys) = ground (arith, o.flipped x y, lists_flipped xs ys)

  lists_eq_left :
      (xs ys zs : List A)
      → compare_lists cmp xs ys ≡ Ordering.eq
      → compare_lists cmp xs zs ≡ compare_lists cmp ys zs
  lists_eq_left [] [] zs h = refl
  lists_eq_left [] (y ∷ ys) zs h = cc
  lists_eq_left (x ∷ xs) [] zs h = cc
  lists_eq_left (x ∷ xs) (y ∷ ys) [] h = refl
  lists_eq_left (x ∷ xs) (y ∷ ys) (z ∷ zs) h =
      ground (arith, o.eq_left x y z, lists_eq_left xs ys zs)

  lists_lt_trans :
      (xs ys zs : List A)
      → compare_lists cmp xs ys ≡ Ordering.lt
      → compare_lists cmp ys zs ≡ Ordering.lt
      → compare_lists cmp xs zs ≡ Ordering.lt
  lists_lt_trans [] [] zs p q = q
  lists_lt_trans [] (y ∷ ys) [] p q = cc
  lists_lt_trans [] (y ∷ ys) (z ∷ zs) p q = refl
  lists_lt_trans (x ∷ xs) [] zs p q = cc
  lists_lt_trans (x ∷ xs) (y ∷ ys) [] p q = cc
  lists_lt_trans (x ∷ xs) (y ∷ ys) (z ∷ zs) p q =
      ground (arith, o.lt_trans x y z, o.eq_left x y z, eq_right o x y z, lists_lt_trans xs ys zs)

  pub compare_lists-IsOrder : IsOrder (compare_lists cmp)
  compare_lists-IsOrder = record {
    flipped = lists_flipped;
    lt_trans = lists_lt_trans;
    eq_left = lists_eq_left;
  }
