-- ===== src/Repair/Patch/Body/Counts.antt =====
-- The body of a hunk once it has been read (src/repoguard/_repair_patch.py).
use repo_guard.Base.{
  ℕ, suc, ◌+◌, ◌≤◌, ◌≡◌, refl, subst, inl, inr, ◌≢◌, Bool, true, false, not, ◌&&◌, List, [], ◌∷◌,
  ◌++◌, arith, length, Bool-cases,
}
use repo_guard.Base.Outcome.{ok, err, ◌>>=◌, >>=-eq-ok, Outcome-cases, ok-injective}
use repo_guard.Repair.Patch.{
  exhausted, PatchLineKind, context, addition, deletion, no_newline, PatchLine,
}
use repo_guard.Repair.Patch.Lines.{strip_lf, parse_hunk_line}
use repo_guard.Repair.Patch.Body.{Body, empty_body, add_line, ends_body, read_line, read_body}

-- Whether a line of that kind stands in the old file.
abbrev pub on_old : PatchLineKind → ℕ
on_old context = 1
on_old addition = 0
on_old deletion = 1
on_old no_newline = 0

-- Whether it stands in the new file.
abbrev pub on_new : PatchLineKind → ℕ
on_new context = 1
on_new addition = 1
on_new deletion = 0
on_new no_newline = 0

-- Whether it is a change.
abbrev pub on_one : PatchLineKind → ℕ
on_one context = 0
on_one addition = 1
on_one deletion = 1
on_one no_newline = 0

abbrev pub total : (PatchLineKind → ℕ) → List PatchLine → ℕ
total f [] = 0
total f (line ∷ lines) = f line.kind + total f lines

total-append :
    (f : PatchLineKind → ℕ) (xs ys : List PatchLine) → total f (xs ++ ys) ≡ total f xs + total f ys
total-append f [] ys = omega arith
total-append f (x ∷ xs) ys = omega (arith, total-append f xs ys)

abbrev is_content : PatchLineKind → Bool
is_content context = true
is_content addition = true
is_content deletion = true
is_content no_newline = false

-- Whether the last line is one of the file and no marker; `before` is said of no line at all.
abbrev ends_in_content : Bool → List PatchLine → Bool
ends_in_content before [] = before
ends_in_content before (line ∷ lines) = ends_in_content (is_content line.kind) lines

abbrev MarkerAfter : Bool → PatchLineKind → Type 0
MarkerAfter before no_newline = before ≡ true
MarkerAfter before context = Unit
MarkerAfter before addition = Unit
MarkerAfter before deletion = Unit

-- Every marker stands directly behind a line of the file.
abbrev pub WellMarked : Bool → List PatchLine → Type 0
WellMarked before [] = Unit
WellMarked before (line ∷ lines) =
    MarkerAfter before line.kind × WellMarked (is_content line.kind) lines

ends-append :
    (before : Bool) (xs : List PatchLine) (y : PatchLine)
    → ends_in_content before (xs ++ y ∷ []) ≡ is_content y.kind
ends-append before [] y = refl
ends-append before (x ∷ xs) y = ends-append (is_content x.kind) xs y

WellMarked-append :
    (before : Bool) (xs : List PatchLine) (y : PatchLine)
    → WellMarked before xs
    → MarkerAfter (ends_in_content before xs) y.kind
    → WellMarked before (xs ++ y ∷ [])
WellMarked-append before [] y h m = (m, tt)
WellMarked-append before (x ∷ xs) y h m = (h.0, WellMarked-append (is_content x.kind) xs y h.1 m)

pub record IsBody (b : Body) : Type 0 where
  pub old : b.old_seen ≡ total on_old b.lines
  pub new : b.new_seen ≡ total on_new b.lines
  pub changed : b.changed_seen ≡ total on_one b.lines
  pub after : (b.previous_was_content && not b.previous_was_marker) ≡ ends_in_content false b.lines
  pub marked : WellMarked false b.lines

pub empty-IsBody : IsBody empty_body
empty-IsBody = record { old = refl; new = refl; changed = refl; after = refl; marked = tt }

add_line-IsBody : (b b' : Body) (line : PatchLine) → IsBody b → add_line b line ≡ ok b' → IsBody b'
unfolding add_line
add_line-IsBody b b' line h e = record {
  old = ground (arith, h.old, total-append on_old b.lines (line ∷ []));
  new = ground (arith, h.new, total-append on_new b.lines (line ∷ []));
  changed = ground (arith, h.changed, total-append on_one b.lines (line ∷ []));
  after = ground (arith, h.after, ends-append false b.lines line);
  marked = ground (arith, h.after, h.marked, WellMarked-append false b.lines line h.marked);
}

read_line-IsBody : (raw : List ℕ) (b b' : Body) → IsBody b → read_line raw b ≡ ok b' → IsBody b'
unfolding read_line
read_line-IsBody raw b b' h e =
    let (value, _, rest) = >>=-eq-ok (strip_lf raw) (λ v. parse_hunk_line v >>= add_line b) e in
    let (line, _, added) = >>=-eq-ok (parse_hunk_line value) (add_line b) rest in
    add_line-IsBody b b' line h added

-- What the loop returns is a body, and it takes lines from the front.
pub read_body-IsBody :
    (lines : List (List ℕ)) (b : Body) (r : Body × List (List ℕ))
    → IsBody b
    → read_body lines b ≡ ok r
    → IsBody r.0 × (length r.1 ≤ length lines)
unfolding read_body
read_body-IsBody [] b r h e = ground (arith, h)
read_body-IsBody (raw ∷ rest) b r h e = elim (Bool-cases (ends_body raw)) [
  | inl stop ↦
      subst (λ (x : Body × List (List ℕ)). IsBody x.0 × (length x.1 ≤ suc (length rest)))
        (ok-injective (rw stop at e)) (h, omega arith)
  | inr go ↦
      let (b', one, later) = >>=-eq-ok (read_line raw b) (λ x. read_body rest x) (rw go at e) in
      let (body, shorter) = read_body-IsBody rest b' r (read_line-IsBody raw b b' h one) later in
      (body, omega arith)
]

pub read_line-ne-exhausted : (raw : List ℕ) (b : Body) → read_line raw b ≢ err exhausted
unfolding read_line strip_lf parse_hunk_line add_line
read_line-ne-exhausted raw b = ground arith

pub read_body-ne-exhausted : (lines : List (List ℕ)) (b : Body) → read_body lines b ≢ err exhausted
unfolding read_body
read_body-ne-exhausted [] b e = cc
read_body-ne-exhausted (raw ∷ rest) b e = elim (Outcome-cases (read_line raw b)) [
  | inl (b', one) ↦ ground (arith, read_body-ne-exhausted rest b')
  | inr (x, failed) ↦ ground (arith, read_line-ne-exhausted raw b)
]
