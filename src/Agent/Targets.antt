-- ===== src/Agent/Targets.antt =====
-- What a model's finding may point at: `_reference_targets` of src/repoguard/_prompt.py.
use repo_guard.Base.{
  ℕ, true, false, ◌&&◌, Option, none, some, List, [], ◌∷◌, ◌++◌, map, if◌then◌else◌,
}
use repo_guard.Base.Outcome.{Outcome, ok, err, ◌>>=◌}
use repo_guard.Text.{text_eq, contains}
use repo_guard.Evidence.{FileVersion, DiffLineEvidence, DiffHunkEvidence, FileChangeEvidence}
use repo_guard.Review.{EvidenceSide, old, new}
use repo_guard.Agent.Context.Changes.{same_side}

pub record ReferenceTarget : Type 0 where
  pub path : List ℕ
  pub side : EvidenceSide
  pub oid : List ℕ
  pub hunk_line_numbers : List (List ℕ)

abbrev pub side_number : EvidenceSide → DiffLineEvidence → Option ℕ
side_number old line = line.old_line_number
side_number new line = line.new_line_number

-- The set with one more element, where there is one.
abbrev pub add_number : Option ℕ → List ℕ → List ℕ
add_number none numbers = numbers
add_number (some n) numbers = if contains n numbers then numbers else n ∷ numbers

-- _hunk_line_numbers
unfoldable pub line_numbers : EvidenceSide → List DiffLineEvidence → List ℕ
line_numbers side [] = []
line_numbers side (line ∷ lines) = add_number (side_number side line) (line_numbers side lines)

abbrev pub hunk_line_numbers : EvidenceSide → DiffHunkEvidence → List ℕ
hunk_line_numbers side hunk = line_numbers side hunk.lines

abbrev pub target_of : FileVersion → EvidenceSide → List DiffHunkEvidence → ReferenceTarget
target_of version side hunks = record {
  path = version.path;
  side = side;
  oid = version.oid;
  hunk_line_numbers = map (hunk_line_numbers side) hunks;
}

-- targets.get((path, side)); the dictionary's keys are the targets' own paths and sides
unfoldable pub find_target : List ℕ → EvidenceSide → List ReferenceTarget → Option ReferenceTarget
find_target path side [] = none
find_target path side (t ∷ ts) = elim (text_eq path t.path && same_side side t.side) [
  | true ↦ some t
  | false ↦ find_target path side ts
]

pub data TargetError : Type 0 where
  duplicate_target : TargetError

-- _add_reference_target, which raises ValueError for a key that is taken
unfoldable pub add_reference_target :
    Option FileVersion
    → EvidenceSide
    → List DiffHunkEvidence
    → List ReferenceTarget
    → Outcome TargetError (List ReferenceTarget)
add_reference_target none side hunks ts = ok ts
add_reference_target (some version) side hunks ts = elim (find_target version.path side ts) [
  | some t ↦ err duplicate_target
  | none ↦ ok (ts ++ target_of version side hunks ∷ [])
]

-- _reference_targets, with the targets so far
unfoldable pub reference_targets :
    List FileChangeEvidence → List ReferenceTarget → Outcome TargetError (List ReferenceTarget)
reference_targets [] ts = ok ts
reference_targets (change ∷ changes) ts = do
  ts_old ← add_reference_target change.old old change.hunks ts
  ts_new ← add_reference_target change.new new change.hunks ts_old
  reference_targets changes ts_new
