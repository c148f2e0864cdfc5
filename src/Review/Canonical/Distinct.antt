-- ===== src/Review/Canonical/Distinct.antt =====
-- The canonical list beside the findings that it is made of (src/repoguard/_review.py).
use repo_guard.Base.{
  ◌≡◌, refl, sym, ◌≢◌, ◌⊎◌, inl, inr, true, false, List, [], ◌∷◌, arith, All, In, Bool-cases,
  is_eq_iff, is_eq, or_iff, ap, if◌then◌else◌,
}
use repo_guard.Base.Order.Sort.{IsSorted, AllPairs, AllPairs-sorted, sorted-IsSorted, sorted-In}
use repo_guard.Review.{Finding}
use repo_guard.Review.Canonical.{
  Key, Key-discrete, key_of, has_key, unique_findings, canonicalize_findings, compare_findings,
}
use repo_guard.Review.Canonical.Order.{compare_findings-IsOrder}

abbrev pub Differ : Finding → Finding → Type 0
Differ f g = key_of f ≢ key_of g

turn_Differ : (f g : Finding) → Differ f g → Differ g f
turn_Differ f g d e = d (sym e)

abbrev Fresh : List Key → Finding → Type 0
Fresh seen f = has_key (key_of f) seen ≡ false

Fresh-tail :
    (k : Key) (seen : List Key) (fs : List Finding)
    → All (Fresh (k ∷ seen)) fs
    → All (Fresh seen) fs
Fresh-tail k seen [] h = tt
Fresh-tail k seen (f ∷ fs) h = (ground arith, Fresh-tail k seen fs h.1)

Fresh-Differ :
    (f : Finding) (seen : List Key) (fs : List Finding)
    → All (Fresh (key_of f ∷ seen)) fs
    → All (Differ f) fs
Fresh-Differ f seen [] h = tt
Fresh-Differ f seen (g ∷ fs) h = (
  λ e. ground (arith, (is_eq_iff Key-discrete (key_of g) (key_of f)).1 (sym e)),
  Fresh-Differ f seen fs h.1,
)

unique-Fresh : (seen : List Key) (fs : List Finding) → All (Fresh seen) (unique_findings seen fs)
unfolding unique_findings
unique-Fresh seen [] = tt
unique-Fresh seen (f ∷ fs) = elim (Bool-cases (has_key (key_of f) seen)) [
  | inl known ↦ rw known (unique-Fresh seen fs)
  | inr fresh ↦ rw fresh (
    fresh,
    Fresh-tail (key_of f) seen (unique_findings (key_of f ∷ seen) fs)
        (unique-Fresh (key_of f ∷ seen) fs),
  )
]

unique-AllPairs : (seen : List Key) (fs : List Finding) → AllPairs Differ (unique_findings seen fs)
unfolding unique_findings
unique-AllPairs seen [] = tt
unique-AllPairs seen (f ∷ fs) = elim (Bool-cases (has_key (key_of f) seen)) [
  | inl known ↦ rw known (unique-AllPairs seen fs)
  | inr fresh ↦ rw fresh (
    Fresh-Differ f seen (unique_findings (key_of f ∷ seen) fs) (unique-Fresh (key_of f ∷ seen) fs),
    unique-AllPairs (key_of f ∷ seen) fs,
  )
]

unique-In :
    (seen : List Key) (fs : List Finding) (g : Finding) → In g (unique_findings seen fs) → In g fs
unfolding unique_findings
unique-In seen [] g m = m
unique-In seen (f ∷ fs) g m = elim (Bool-cases (has_key (key_of f) seen)) [
  | inl known ↦ inr (unique-In seen fs g (rw known at m))
  | inr fresh ↦ elim (in_fresh fresh m) [
    | inl e ↦ inl e
    | inr later ↦ inr (unique-In (key_of f ∷ seen) fs g later)
  ]
]
  where
    in_fresh :
        has_key (key_of f) seen ≡ false
        → In g (
            if has_key (key_of f) seen
            then unique_findings seen fs
            else f ∷ unique_findings (key_of f ∷ seen) fs)
        → In g (f ∷ unique_findings (key_of f ∷ seen) fs)
    in_fresh fresh h = rw fresh at h

unique_complete :
    (seen : List Key) (fs : List Finding) (f : Finding)
    → In f fs
    → (has_key (key_of f) seen ≡ true)
      ⊎ ((g : Finding) × In g (unique_findings seen fs) × (key_of g ≡ key_of f))
unfolding unique_findings
unique_complete seen [] f m = absurd m.1
unique_complete seen (h ∷ fs) f m = elim (Bool-cases (has_key (key_of h) seen)) [
  | inl known ↦ elim m [
    | inl e ↦ inl (rw e known)
    | inr later ↦ rw known (unique_complete seen fs f later)
  ]
  | inr fresh ↦ rw fresh (elim m [
    | inl e ↦ inr (h, inl refl, ap key_of (sym e))
    | inr later ↦ elim (unique_complete (key_of h ∷ seen) fs f later) [
      | inl old ↦
          elim ((or_iff (is_eq Key-discrete (key_of f) (key_of h)) (has_key (key_of f) seen)).0
            old) [
              | inl same ↦
                  inr (h, inl refl, sym ((is_eq_iff Key-discrete (key_of f) (key_of h)).0 same))
              | inr before ↦ inl before
            ]
      | inr found ↦ inr (found.0, inr found.1, found.2)
    ]
  ])
]

pub record IsCanonical (fs gs : List Finding) : Type 0 where
  pub in_order : IsSorted compare_findings gs
  pub distinct : AllPairs Differ gs
  pub sound : (g : Finding) → In g gs → In g fs
  pub complete : (f : Finding) → In f fs → (g : Finding) × In g gs × (key_of g ≡ key_of f)

pub canonicalize-IsCanonical : (fs : List Finding) → IsCanonical fs (canonicalize_findings fs)
unfolding canonicalize_findings
canonicalize-IsCanonical fs = record {
  in_order = sorted-IsSorted compare_findings compare_findings-IsOrder (unique_findings [] fs);
  distinct =
      AllPairs-sorted Differ turn_Differ compare_findings (unique_findings [] fs)
        (unique-AllPairs [] fs);
  sound = λ g m. unique-In [] fs g ((sorted-In compare_findings g (unique_findings [] fs)).0 m);
  complete = λ f m. elim (unique_complete [] fs f m) [
    | inl none_seen ↦ cc
    | inr found ↦
        (found.0, (sorted-In compare_findings found.0 (unique_findings [] fs)).1 found.1, found.2)
  ];
}
