-- ===== src/Repair/Patch/Hunks/Loop.antt =====
-- The loop over the hunks of a file (src/repoguard/_repair_patch.py).
use repo_guard.Base.{
  ℕ, zero, suc, ◌+◌, ◌≤◌, ◌≡◌, refl, subst, inl, inr, ◌≢◌, Bool, Option, none, some, List, [], ◌∷◌,
  arith, length, Bool-cases,
}
use repo_guard.Base.Outcome.{ok, err, >>=-eq-ok, ok-injective, bind-ne-err}
use repo_guard.Text.{codes, starts_with}
use repo_guard.Repair.Patch.{exhausted, PatchPolicy}
use repo_guard.Repair.Patch.Lines.{strip_lf}
use repo_guard.Repair.Patch.Header.{
  Coordinates, HeaderMatch, match_header, header_coordinates, count_or_one, parse_hunk_header,
  read_int,
}
use repo_guard.Repair.Patch.Body.{Body, empty_body, read_body}
use repo_guard.Repair.Patch.Body.Counts.{read_body-ne-exhausted}
use repo_guard.Repair.Patch.Hunks.{
  Ends, HunkRead, accept_hunk, read_hunk, HunksRead, no_hunks, add_hunk, read_hunks,
}
use repo_guard.Repair.Patch.Hunks.Order.{AreHunks, total_changed, IsHunkRead, read_hunk-IsHunkRead}

pub record AreHunksRead (policy : PatchPolicy) (is_new : Bool) (previous : Ends) (before : ℕ)
    (lines : List (List ℕ)) (r : HunksRead) : Type 0 where
  pub are_hunks : AreHunks is_new previous r.hunks
  pub counted : r.changed ≡ total_changed r.hunks
  pub bounded : before ≤ policy.max_changed_lines → before + r.changed ≤ policy.max_changed_lines
  pub shorter : length r.rest ≤ length lines

none-AreHunksRead :
    (policy : PatchPolicy) (is_new : Bool) (previous : Ends) (before : ℕ) (lines : List (List ℕ))
    → AreHunksRead policy is_new previous before lines (no_hunks lines)
none-AreHunksRead policy is_new previous before lines = record {
  are_hunks = tt;
  counted = refl;
  bounded = λ h. omega arith;
  shorter = omega arith;
}

add-AreHunksRead :
    (policy : PatchPolicy) (is_new : Bool) (previous : Ends) (before : ℕ) (raw : List ℕ)
    (rest : List (List ℕ)) (h : HunkRead) (later : HunksRead)
    → IsHunkRead policy is_new previous before rest h
    → AreHunksRead policy is_new (some h.ends) (before + h.changed) h.rest later
    → AreHunksRead policy is_new previous before (raw ∷ rest) (add_hunk h later)
add-AreHunksRead policy is_new previous before raw rest h later one more = record {
  are_hunks = (
    one.is_hunk,
    one.in_order,
    subst (λ e. AreHunks is_new (some e) later.hunks) one.ends more.are_hunks,
  );
  counted = omega (arith, one.counted, more.counted);
  bounded = λ b. omega (arith, one.bounded, more.bounded one.bounded);
  shorter = omega (arith, one.shorter, more.shorter);
}

pub read_hunks-AreHunksRead :
    (fuel : ℕ) (policy : PatchPolicy) (is_new : Bool) (previous : Ends) (before : ℕ)
    (lines : List (List ℕ)) (r : HunksRead)
    → read_hunks fuel policy is_new previous before lines ≡ ok r
    → AreHunksRead policy is_new previous before lines r
unfolding read_hunks
read_hunks-AreHunksRead fuel policy is_new previous before [] r e =
    subst (AreHunksRead policy is_new previous before []) (ok-injective e)
      (none-AreHunksRead policy is_new previous before [])
read_hunks-AreHunksRead zero policy is_new previous before (raw ∷ rest) r e = cc
read_hunks-AreHunksRead (suc fuel) policy is_new previous before (raw ∷ rest) r e =
    elim (Bool-cases (starts_with (codes "@@ ") raw)) [
      | inl begins ↦
          let (h, one, e1) =
            >>=-eq-ok (read_hunk policy is_new previous before raw rest) _ (rw begins at e) in
          let (later, more, e2) =
            >>=-eq-ok (read_hunks fuel policy is_new (some h.ends) (before + h.changed) h.rest) _
              e1 in
          subst (AreHunksRead policy is_new previous before (raw ∷ rest)) (ok-injective e2) (
            add-AreHunksRead policy is_new previous before raw rest h later
              (read_hunk-IsHunkRead policy is_new previous before raw rest h one)
              (read_hunks-AreHunksRead fuel policy is_new (some h.ends) (before + h.changed) h.rest
                later more))
      | inr other ↦
          subst (AreHunksRead policy is_new previous before (raw ∷ rest))
            (ok-injective (rw other at e))
            (none-AreHunksRead policy is_new previous before (raw ∷ rest))
    ]

pub strip_lf-ne-exhausted : (raw : List ℕ) → strip_lf raw ≢ err exhausted
unfolding strip_lf
strip_lf-ne-exhausted raw = ground arith

read_int-ne-exhausted : (s : List ℕ) → read_int s ≢ err exhausted
unfolding read_int
read_int-ne-exhausted s = ground arith

count-ne-exhausted : (s : Option (List ℕ)) → count_or_one s ≢ err exhausted
count-ne-exhausted none = λ e. cc
count-ne-exhausted (some s) = read_int-ne-exhausted s

coordinates-ne-exhausted : (m : Option HeaderMatch) → header_coordinates m ≢ err exhausted
coordinates-ne-exhausted none = λ e. cc
coordinates-ne-exhausted (some m) =
    bind-ne-err exhausted (read_int m.old_start) _ (read_int-ne-exhausted m.old_start) λ a _.
      bind-ne-err exhausted (count_or_one m.old_count) _ (count-ne-exhausted m.old_count) λ b _.
        bind-ne-err exhausted (read_int m.new_start) _ (read_int-ne-exhausted m.new_start) λ c _.
          bind-ne-err exhausted (count_or_one m.new_count) _ (count-ne-exhausted m.new_count)
            λ d _ e. cc

header-ne-exhausted : (value : List ℕ) → parse_hunk_header value ≢ err exhausted
unfolding parse_hunk_header
header-ne-exhausted value = coordinates-ne-exhausted (match_header value)

accept_hunk-ne-exhausted :
    (policy : PatchPolicy) (is_new : Bool) (previous : Ends) (before : ℕ) (c : Coordinates)
    (b : Body) (rest : List (List ℕ))
    → accept_hunk policy is_new previous before c b rest ≢ err exhausted
unfolding accept_hunk
accept_hunk-ne-exhausted policy is_new previous before c b rest = ground arith

read_hunk-ne-exhausted :
    (policy : PatchPolicy) (is_new : Bool) (previous : Ends) (before : ℕ) (raw : List ℕ)
    (rest : List (List ℕ))
    → read_hunk policy is_new previous before raw rest ≢ err exhausted
unfolding read_hunk
read_hunk-ne-exhausted policy is_new previous before raw rest =
    bind-ne-err exhausted (strip_lf raw) _ (strip_lf-ne-exhausted raw) λ header _.
      bind-ne-err exhausted (parse_hunk_header header) _ (header-ne-exhausted header) λ c _.
        bind-ne-err exhausted (read_body rest empty_body) _ (read_body-ne-exhausted rest empty_body)
          λ read _. accept_hunk-ne-exhausted policy is_new previous before c read.0 read.1

-- As much fuel as there are lines is enough.
pub read_hunks-ne-exhausted :
    (fuel : ℕ) (policy : PatchPolicy) (is_new : Bool) (previous : Ends) (before : ℕ)
    (lines : List (List ℕ))
    → length lines ≤ fuel
    → read_hunks fuel policy is_new previous before lines ≢ err exhausted
unfolding read_hunks
read_hunks-ne-exhausted fuel policy is_new previous before [] enough e = cc
read_hunks-ne-exhausted zero policy is_new previous before (raw ∷ rest) enough e =
    absurd (omega arith)
read_hunks-ne-exhausted (suc fuel) policy is_new previous before (raw ∷ rest) enough e =
    elim (Bool-cases (starts_with (codes "@@ ") raw)) [
      | inl begins ↦
          bind-ne-err exhausted (read_hunk policy is_new previous before raw rest) _
            (read_hunk-ne-exhausted policy is_new previous before raw rest)
            (λ h one.
              bind-ne-err exhausted
                (read_hunks fuel policy is_new (some h.ends) (before + h.changed) h.rest) _
                (read_hunks-ne-exhausted fuel policy is_new (some h.ends) (before + h.changed)
                  h.rest
                  (omega (
                    arith,
                    (read_hunk-IsHunkRead policy is_new previous before raw rest h one).shorter,
                  )))
                (λ later _ x. cc))
            (rw begins at e)
      | inr other ↦ ground arith
    ]
