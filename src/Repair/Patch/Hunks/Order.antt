-- ===== src/Repair/Patch/Hunks/Order.antt =====
-- The hunks of a file once they have been read (src/repoguard/_repair_patch.py).
use repo_guard.Base.{
  ℕ, ◌+◌, ◌≤◌, ◌<◌, ◌≡◌, refl, subst, Bool, true, false, none, some, List, [], ◌∷◌, arith, length,
}
use repo_guard.Base.Outcome.{ok, >>=-eq-ok}
use repo_guard.Repair.Patch.{PatchHunk, PatchPolicy}
use repo_guard.Repair.Patch.Lines.{strip_lf}
use repo_guard.Repair.Patch.Header.{Coordinates, parse_hunk_header}
use repo_guard.Repair.Patch.Body.{Body, empty_body, read_body}
use repo_guard.Repair.Patch.Body.Counts.{
  on_old, on_new, on_one, total, WellMarked, IsBody, empty-IsBody, read_body-IsBody,
}
use repo_guard.Repair.Patch.Hunks.{
  Ends, counts_match, fits_new_file, starts_in_file, follows, HunkRead, hunk_read, accept_hunk,
  read_hunk,
}

abbrev pub changed_in : PatchHunk → ℕ
changed_in h = total on_one h.lines

-- One hunk: its lines are as many as its header says, it changes a line, and its markers and its
-- starts are in place.
pub record IsHunk (is_new : Bool) (h : PatchHunk) : Type 0 where
  pub old_lines : total on_old h.lines ≡ h.old_count
  pub new_lines : total on_new h.lines ≡ h.new_count
  pub changes : 0 < changed_in h
  pub marked : WellMarked false h.lines
  pub old_from : 0 < h.old_count → 0 < h.old_start
  pub new_from : 0 < h.new_count → 0 < h.new_start
  pub new_file : is_new ≡ true → (h.old_start ≡ 0) × (h.old_count ≡ 0)

abbrev pub Follows : Ends → PatchHunk → Type 0
Follows none h = Unit
Follows (some (old_end, new_end)) h = (old_end ≤ h.old_start) × (new_end ≤ h.new_start)

abbrev pub ends_of : PatchHunk → ℕ × ℕ
ends_of h = (h.old_start + h.old_count, h.new_start + h.new_count)

-- Hunks one behind the other, on both sides.
abbrev pub AreHunks : Bool → Ends → List PatchHunk → Type 0
AreHunks is_new previous [] = Unit
AreHunks is_new previous (h ∷ hs) =
    IsHunk is_new h × Follows previous h × AreHunks is_new (some (ends_of h)) hs

abbrev pub total_changed : List PatchHunk → ℕ
total_changed [] = 0
total_changed (h ∷ hs) = changed_in h + total_changed hs

pub record IsHunkRead (policy : PatchPolicy) (is_new : Bool) (previous : Ends) (before : ℕ)
    (rest : List (List ℕ)) (r : HunkRead) : Type 0 where
  pub is_hunk : IsHunk is_new r.hunk
  pub in_order : Follows previous r.hunk
  pub counted : r.changed ≡ changed_in r.hunk
  pub ends : r.ends ≡ ends_of r.hunk
  pub bounded : before + r.changed ≤ policy.max_changed_lines
  pub shorter : length r.rest ≤ length rest

accept_hunk-eq-ok :
    (policy : PatchPolicy) (is_new : Bool) (previous : Ends) (before : ℕ) (c : Coordinates)
    (b : Body) (rest : List (List ℕ)) (r : HunkRead)
    → accept_hunk policy is_new previous before c b rest ≡ ok r
    → (counts_match c b ≡ true)
      × (fits_new_file is_new c b ≡ true)
      × (starts_in_file c ≡ true)
      × (follows previous c ≡ true)
      × (before + b.changed_seen ≤ policy.max_changed_lines)
      × (hunk_read c b rest ≡ r)
unfolding accept_hunk
accept_hunk-eq-ok policy is_new previous before c b rest r e =
    (ground arith, ground arith, ground arith, ground arith, ground arith, ground arith)

accepted-IsHunk :
    (is_new : Bool) (c : Coordinates) (b : Body) (rest : List (List ℕ))
    → IsBody b
    → counts_match c b ≡ true
    → fits_new_file is_new c b ≡ true
    → starts_in_file c ≡ true
    → IsHunk is_new (hunk_read c b rest).hunk
unfolding counts_match fits_new_file starts_in_file
accepted-IsHunk is_new c b rest body counts fits starts = record {
  old_lines = ground (arith, body.old);
  new_lines = ground (arith, body.new);
  changes = ground (arith, body.changed);
  marked = body.marked;
  old_from = λ h. ground arith;
  new_from = λ h. ground arith;
  new_file = λ h. ground arith;
}

accepted-Follows :
    (previous : Ends) (c : Coordinates) (b : Body) (rest : List (List ℕ))
    → follows previous c ≡ true
    → Follows previous (hunk_read c b rest).hunk
unfolding follows
accepted-Follows none c b rest h = tt
accepted-Follows (some (old_end, new_end)) c b rest h = (ground arith, ground arith)

accept_hunk-IsHunkRead :
    (policy : PatchPolicy) (is_new : Bool) (previous : Ends) (before : ℕ) (c : Coordinates)
    (b : Body) (lines rest : List (List ℕ)) (r : HunkRead)
    → IsBody b
    → length rest ≤ length lines
    → accept_hunk policy is_new previous before c b rest ≡ ok r
    → IsHunkRead policy is_new previous before lines r
accept_hunk-IsHunkRead policy is_new previous before c b lines rest r body shorter e =
    let (counts, fits, starts, in_order, bounded, same) =
      accept_hunk-eq-ok policy is_new previous before c b rest r e in
    subst (IsHunkRead policy is_new previous before lines) same (record {
      is_hunk = accepted-IsHunk is_new c b rest body counts fits starts;
      in_order = accepted-Follows previous c b rest in_order;
      counted = body.changed;
      ends = refl;
      bounded = bounded;
      shorter = shorter;
    })

pub read_hunk-IsHunkRead :
    (policy : PatchPolicy) (is_new : Bool) (previous : Ends) (before : ℕ) (raw : List ℕ)
    (rest : List (List ℕ)) (r : HunkRead)
    → read_hunk policy is_new previous before raw rest ≡ ok r
    → IsHunkRead policy is_new previous before rest r
unfolding read_hunk
read_hunk-IsHunkRead policy is_new previous before raw rest r e =
    let (header, _, e1) = >>=-eq-ok (strip_lf raw) _ e in
    let (c, _, e2) = >>=-eq-ok (parse_hunk_header header) _ e1 in
    let (read, parsed, e3) = >>=-eq-ok (read_body rest empty_body) _ e2 in
    let (body, shorter) = read_body-IsBody rest empty_body read empty-IsBody parsed in
    accept_hunk-IsHunkRead policy is_new previous before c read.0 rest read.1 r body shorter e3
