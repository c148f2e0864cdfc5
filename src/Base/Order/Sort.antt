-- ===== src/Base/Order/Sort.antt =====
-- Python's `sorted`: a stable sort by a comparison.
use mathlib.Core.Path.{◌≡◌, refl, ap, ◌∙◌}
use Prim.Native.Nat.{Ordering, suc}
use mathlib.Core.Bool.{Bool, true, false}
use mathlib.Core.Logic.{◌⊎◌, inl, inr, ◌↔◌}
use mathlib.Core.List.{List, [], ◌∷◌, Perm}
use mathlib.Core.List.Perm
use native.Mathlib.Omega.{arith}
use repo_guard.Base.Tests.{if◌then◌else◌, Bool-cases}
use repo_guard.Base.Lists.{All, In, length}
use repo_guard.Base.Order.{IsOrder}

abbrev pub not_greater : Ordering → Bool
not_greater Ordering.gt = false
not_greater _ = true

module _ {A : Type 0} where
  -- Into a sorted list, before every item that is not smaller.
  pub insert_sorted : (A → A → Ordering) → A → List A → List A
  insert_sorted cmp x [] = x ∷ []
  insert_sorted cmp x (y ∷ ys) =
      if not_greater (cmp x y) then x ∷ y ∷ ys else y ∷ insert_sorted cmp x ys

  unfoldable pub sorted : (A → A → Ordering) → List A → List A
  unfolding insert_sorted
  sorted cmp [] = []
  sorted cmp (x ∷ xs) = insert_sorted cmp x (sorted cmp xs)

  -- No item is greater than one behind it.
  abbrev pub IsSorted : (A → A → Ordering) → List A → Type 0
  IsSorted cmp [] = Unit
  IsSorted cmp (x ∷ xs) = All (λ y. not_greater (cmp x y) ≡ true) xs × IsSorted cmp xs

  pub All-insert_sorted :
      (P : A → Type 0) (cmp : A → A → Ordering) (x : A) (ys : List A)
      → P x
      → All P ys
      → All P (insert_sorted cmp x ys)
  unfolding insert_sorted
  All-insert_sorted P cmp x [] p h = (p, tt)
  All-insert_sorted P cmp x (y ∷ ys) p h = ground (arith, All-insert_sorted P cmp x ys p h.1)

  pub All-sorted :
      (P : A → Type 0) (cmp : A → A → Ordering) (xs : List A) → All P xs → All P (sorted cmp xs)
  unfolding sorted
  All-sorted P cmp [] h = tt
  All-sorted P cmp (x ∷ xs) h =
      All-insert_sorted P cmp x (sorted cmp xs) h.0 (All-sorted P cmp xs h.1)

  insert_sorted-perm :
      (cmp : A → A → Ordering) (x : A) (ys : List A) → Perm (insert_sorted cmp x ys) (x ∷ ys)
  unfolding insert_sorted
  insert_sorted-perm cmp x [] = Perm.refl (x ∷ [])
  insert_sorted-perm cmp x (y ∷ ys) = elim (Bool-cases (not_greater (cmp x y))) [
    | inl first ↦ rw first (Perm.refl (x ∷ y ∷ ys))
    | inr later ↦
        rw later (Perm.trans (Perm.cons y (insert_sorted-perm cmp x ys)) (Perm.swap x y ys))
  ]

  pub sorted-perm : (cmp : A → A → Ordering) (xs : List A) → Perm (sorted cmp xs) xs
  unfolding sorted
  sorted-perm cmp [] = Perm.refl []
  sorted-perm cmp (x ∷ xs) =
      Perm.trans (insert_sorted-perm cmp x (sorted cmp xs)) (Perm.cons x (sorted-perm cmp xs))

  insert_sorted-In :
      (cmp : A → A → Ordering) (x a : A) (ys : List A)
      → In a (insert_sorted cmp x ys) ↔ ((a ≡ x) ⊎ In a ys)
  unfolding insert_sorted
  insert_sorted-In cmp x a [] = (λ h. h, λ h. h)
  insert_sorted-In cmp x a (y ∷ ys) = elim (Bool-cases (not_greater (cmp x y))) [
    | inl first ↦ rw first (λ h. h, λ h. h)
    | inr later ↦
        let ih = insert_sorted-In cmp x a ys in
        rw later (
          λ h. elim h [
            | inl e ↦ inr (inl e)
            | inr m ↦ elim (ih.0 m) [ inl e ↦ inl e | inr k ↦ inr (inr k) ]
          ],
          λ h. elim h [
            | inl e ↦ inr (ih.1 (inl e))
            | inr m ↦ elim m [ inl e ↦ inl e | inr k ↦ inr (ih.1 (inr k)) ]
          ],
        )
  ]

  pub sorted-In : (cmp : A → A → Ordering) (a : A) (xs : List A) → In a (sorted cmp xs) ↔ In a xs
  unfolding sorted
  sorted-In cmp a [] = (λ h. h, λ h. h)
  sorted-In cmp a (x ∷ xs) =
      let ih = sorted-In cmp a xs in
      let step = insert_sorted-In cmp x a (sorted cmp xs) in
      (
        λ h. elim (step.0 h) [ inl e ↦ inl e | inr m ↦ inr (ih.0 m) ],
        λ h. elim h [ inl e ↦ step.1 (inl e) | inr m ↦ step.1 (inr (ih.1 m)) ],
      )

module _ {A : Type 0} (cmp : A → A → Ordering) where
  length-insert_sorted : (x : A) (ys : List A) → length (insert_sorted cmp x ys) ≡ suc (length ys)
  unfolding insert_sorted
  length-insert_sorted x [] = refl
  length-insert_sorted x (y ∷ ys) = ground (arith, length-insert_sorted x ys)

  pub length-sorted : (xs : List A) → length (sorted cmp xs) ≡ length xs
  unfolding sorted
  length-sorted [] = refl
  length-sorted (x ∷ xs) =
      length-insert_sorted x (sorted cmp xs) ∙ ap (λ n. suc n) (length-sorted xs)

-- Every item is related to each one behind it.
abbrev pub AllPairs : {A : Type 0} → (A → A → Type 0) → List A → Type 0
AllPairs R [] = Unit
AllPairs R (x ∷ xs) = All (R x) xs × AllPairs R xs

module _ {A : Type 0} (R : A → A → Type 0) (turn : (a b : A) → R a b → R b a) where
  turn_all : (x : A) (ys : List A) → All (R x) ys → All (λ y. R y x) ys
  turn_all x [] h = tt
  turn_all x (y ∷ ys) h = (turn x y h.0, turn_all x ys h.1)

  AllPairs-insert_sorted :
      (cmp : A → A → Ordering) (x : A) (ys : List A)
      → All (R x) ys
      → AllPairs R ys
      → AllPairs R (insert_sorted cmp x ys)
  unfolding insert_sorted
  AllPairs-insert_sorted cmp x [] h p = (tt, tt)
  AllPairs-insert_sorted cmp x (y ∷ ys) h p = elim (Bool-cases (not_greater (cmp x y))) [
    | inl first ↦ rw first (h, p)
    | inr later ↦ rw later (
      All-insert_sorted (R y) cmp x ys (turn x y h.0) p.0,
      AllPairs-insert_sorted cmp x ys h.1 p.1,
    )
  ]

  -- A relation that holds both ways is kept by sorting.
  pub AllPairs-sorted :
      (cmp : A → A → Ordering) (xs : List A) → AllPairs R xs → AllPairs R (sorted cmp xs)
  unfolding sorted
  AllPairs-sorted cmp [] p = tt
  AllPairs-sorted cmp (x ∷ xs) p =
      AllPairs-insert_sorted cmp x (sorted cmp xs) (All-sorted (R x) cmp xs p.0)
        (AllPairs-sorted cmp xs p.1)

module _ {A : Type 0} (cmp : A → A → Ordering) (o : IsOrder cmp) where
  le_all :
      (x y : A) (ys : List A)
      → not_greater (cmp x y) ≡ true
      → All (λ z. not_greater (cmp y z) ≡ true) ys
      → All (λ z. not_greater (cmp x z) ≡ true) ys
  le_all x y [] h a = tt
  le_all x y (z ∷ zs) h (p, a) = (
    ground (
      arith,
      o.lt_trans x y z,
      o.eq_left x y z,
      o.eq_left y z x,
      o.flipped y z,
      o.flipped x z,
      o.flipped x y,
    ),
    le_all x y zs h a,
  )

  insert_sorted-IsSorted :
      (x : A) (ys : List A) → IsSorted cmp ys → IsSorted cmp (insert_sorted cmp x ys)
  unfolding insert_sorted
  insert_sorted-IsSorted x [] h = (tt, tt)
  insert_sorted-IsSorted x (y ∷ ys) (all_ge, h) = ground (
    arith,
    le_all x y ys,
    insert_sorted-IsSorted x ys h,
    o.flipped x y,
    All-insert_sorted (λ z. not_greater (cmp y z) ≡ true) cmp x ys,
  )

  pub sorted-IsSorted : (xs : List A) → IsSorted cmp (sorted cmp xs)
  unfolding sorted
  sorted-IsSorted [] = tt
  sorted-IsSorted (x ∷ xs) = insert_sorted-IsSorted x (sorted cmp xs) (sorted-IsSorted xs)

  insert_sorted_id :
      (x : A) (ys : List A)
      → All (λ y. not_greater (cmp x y) ≡ true) ys
      → insert_sorted cmp x ys ≡ x ∷ ys
  unfolding insert_sorted
  insert_sorted_id x [] h = refl
  insert_sorted_id x (y ∷ ys) h = ground arith

  -- Sorting a sorted list changes nothing.
  pub sorted_id : (xs : List A) → IsSorted cmp xs → sorted cmp xs ≡ xs
  unfolding sorted
  sorted_id [] h = refl
  sorted_id (x ∷ xs) (all_ge, h) = rw (sorted_id xs h) (insert_sorted_id x xs all_ge)
