-- ===== src/Review/Additions.antt =====
-- `_addition_lines` of src/repoguard/_review.py: the added lines of one change, in order.
use repo_guard.Base.{
  ℕ, Option, none, some, List, [], ◌∷◌, ◌++◌, compare, Ordering, ◌==◌, if◌then◌else◌,
}
use repo_guard.Base.Order.{compare_then, compare_by, compare_lists}
use repo_guard.Base.Order.Sort.{sorted}
use repo_guard.Evidence.{
  context, addition, deletion, DiffLineEvidence, DiffHunkEvidence, FileChangeEvidence,
}

-- A line number and the text of the line.
abbrev pub Addition : Type 0
Addition = ℕ × List ℕ

-- line.content.removesuffix("\r")
unfoldable pub remove_carriage_return : List ℕ → List ℕ
remove_carriage_return [] = []
remove_carriage_return (c ∷ []) = if c == 13 then [] else c ∷ []
remove_carriage_return (c ∷ d ∷ s) = c ∷ remove_carriage_return (d ∷ s)

unfoldable pub logical_line_content : DiffLineEvidence → List ℕ
unfolding remove_carriage_return
logical_line_content line =
    if line.has_trailing_newline then remove_carriage_return line.content else line.content

abbrev keep_numbered : Option ℕ → List ℕ → List Addition
keep_numbered none content = []
keep_numbered (some n) content = (n, content) ∷ []

unfoldable pub line_addition : DiffLineEvidence → List Addition
unfolding logical_line_content
line_addition line = elim line.kind [
  | addition ↦ keep_numbered line.new_line_number (logical_line_content line)
  | context ↦ []
  | deletion ↦ []
]

unfoldable pub lines_additions : List DiffLineEvidence → List Addition
unfolding line_addition
lines_additions [] = []
lines_additions (line ∷ lines) = line_addition line ++ lines_additions lines

unfoldable pub hunks_additions : List DiffHunkEvidence → List Addition
unfolding lines_additions
hunks_additions [] = []
hunks_additions (hunk ∷ hunks) = lines_additions hunk.lines ++ hunks_additions hunks

-- Tuples of a number and a text, in Python's order.
abbrev pub compare_additions : Addition → Addition → Ordering
compare_additions =
    compare_then (compare_by compare (λ a. a.0)) (compare_by (compare_lists compare) (λ a. a.1))

unfoldable pub addition_lines : FileChangeEvidence → List Addition
unfolding hunks_additions sorted
addition_lines change = sorted compare_additions (hunks_additions change.hunks)
