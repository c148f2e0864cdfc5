-- ===== src/Review/Validate/Sound.antt =====
-- What `_validate_bundle` accepts, said without its loops and its set of seen numbers.
use repo_guard.Base.{
  ℕ, ◌<◌, ◌≡◌, refl, ◌≢◌, inl, inr, false, Option, none, some, List, [], ◌∷◌, ◌++◌, arith, All,
}
use repo_guard.Base.Outcome.{ok, ◌>>=◌, Outcome-cases, >>=-eq-ok}
use repo_guard.Text.{contains}
use repo_guard.Evidence.{
  DiffLineKind, context, addition, deletion, FileVersion, DiffLineEvidence, DiffHunkEvidence,
}
use repo_guard.Review.Validate.{validate_line, validate_lines, validate_hunks}

-- All the lines of a change, hunk after hunk.
abbrev pub all_lines : List DiffHunkEvidence → List DiffLineEvidence
all_lines [] = []
all_lines (hunk ∷ hunks) = hunk.lines ++ all_lines hunks

abbrev number_list : Option ℕ → List ℕ
number_list none = []
number_list (some n) = n ∷ []

abbrev on_addition : {A : Type 0} → DiffLineKind → A → A → A
on_addition addition a b = a
on_addition context a b = b
on_addition deletion a b = b

-- The new line numbers of the added lines.
abbrev pub added_numbers : List DiffLineEvidence → List ℕ
added_numbers [] = []
added_numbers (line ∷ lines) =
    on_addition line.kind (number_list line.new_line_number) [] ++ added_numbers lines

pub record IsAddition (new : Option FileVersion) (line : DiffLineEvidence) : Type 0 where
  pub has_side : new ≢ none
  pub no_old : line.old_line_number ≡ none
  pub number : ℕ
  pub has_number : line.new_line_number ≡ some number
  pub positive : 0 < number

abbrev pub IsLine : Option FileVersion → DiffLineEvidence → Type 0
IsLine new line = line.kind ≡ addition → IsAddition new line

abbrev pub NotSeen : List ℕ → List ℕ → Type 0
NotSeen seen [] = Unit
NotSeen seen (n ∷ ns) = (contains n seen ≡ false) × NotSeen (n ∷ seen) ns

line_sound :
    (new : Option FileVersion) (seen s : List ℕ) (line : DiffLineEvidence)
    → validate_line new seen line ≡ ok s
    → IsLine new line
unfolding validate_line
line_sound new seen s line h is_added = ground arith

line_numbers :
    (new : Option FileVersion) (seen s : List ℕ) (line : DiffLineEvidence) (ns : List ℕ)
    → validate_line new seen line ≡ ok s
    → NotSeen s ns
    → NotSeen seen (on_addition line.kind (number_list line.new_line_number) [] ++ ns)
unfolding validate_line
line_numbers new seen s line ns h k = ground arith

line_accepts :
    (new : Option FileVersion) (seen : List ℕ) (line : DiffLineEvidence) (ns : List ℕ)
    → IsLine new line
    → NotSeen seen (on_addition line.kind (number_list line.new_line_number) [] ++ ns)
    → (s : List ℕ) × (validate_line new seen line ≡ ok s) × NotSeen s ns
unfolding validate_line
line_accepts new seen line ns h k = elim (Outcome-cases (validate_line new seen line)) [
  | inl (s, e) ↦ (s, e, (ground (arith, h)))
  | inr (x, e) ↦ absurd (ground (arith, h))
]

pub lines_sound :
    (new : Option FileVersion) (seen s : List ℕ) (lines : List DiffLineEvidence)
    → validate_lines new seen lines ≡ ok s
    → All (IsLine new) lines × NotSeen seen (added_numbers lines)
unfolding validate_lines
lines_sound new seen s [] h = (tt, tt)
lines_sound new seen s (line ∷ lines) h =
    let (s', first, later) =
      >>=-eq-ok (validate_line new seen line) (λ t. validate_lines new t lines) h in
    let ih = lines_sound new s' s lines later in
    (
      (line_sound new seen s' line first, ih.0),
      line_numbers new seen s' line (added_numbers lines) first ih.1,
    )

pub lines_accepts :
    (new : Option FileVersion) (seen : List ℕ) (lines : List DiffLineEvidence)
    → All (IsLine new) lines
    → NotSeen seen (added_numbers lines)
    → (s : List ℕ) × (validate_lines new seen lines ≡ ok s)
unfolding validate_lines
lines_accepts new seen [] a k = (seen, refl)
lines_accepts new seen (line ∷ lines) a k =
    let (s, e, k') = line_accepts new seen line (added_numbers lines) a.0 k in
    let (t, rest) = lines_accepts new s lines a.1 k' in (t, rw e rest)

lines-append :
    (new : Option FileVersion) (seen : List ℕ) (xs ys : List DiffLineEvidence)
    → validate_lines new seen (xs ++ ys)
      ≡ (validate_lines new seen xs >>= λ s. validate_lines new s ys)
unfolding validate_lines
lines-append new seen [] ys = refl
lines-append new seen (line ∷ xs) ys = elim (Outcome-cases (validate_line new seen line)) [
  | inl (s, e) ↦ rw e (lines-append new s xs ys)
  | inr (x, e) ↦ rw e refl
]

-- The hunks are checked as one run of lines.
pub hunks-eq-lines :
    (new : Option FileVersion) (seen : List ℕ) (hunks : List DiffHunkEvidence)
    → validate_hunks new seen hunks ≡ validate_lines new seen (all_lines hunks)
unfolding validate_hunks
hunks-eq-lines new seen [] = refl
hunks-eq-lines new seen (hunk ∷ hunks) = elim (Outcome-cases (validate_lines new seen hunk.lines)) [
  | inl (s, e) ↦
      rw (lines-append new seen hunk.lines (all_lines hunks), e) (hunks-eq-lines new s hunks)
  | inr (x, e) ↦ rw (lines-append new seen hunk.lines (all_lines hunks), e) refl
]
