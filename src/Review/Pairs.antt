-- ===== src/Review/Pairs.antt =====
-- The loops of `_private_key_findings` and `_merge_conflict_findings` of
-- src/repoguard/_review.py: first-in first-out queues of line numbers.
pub mod Fifo
pub mod Located
pub mod Blocks
use repo_guard.Base.{
  ℕ, zero, suc, ◌+◌, String, Bool, true, false, not, ◌&&◌, Option, none, some, List, [], ◌∷◌, ◌++◌,
  map, compare, Ordering, ◌==◌, if◌then◌else◌, is_eq, ℕ_discrete,
}
use repo_guard.Evidence.{
  ContentKind, text, binary, symlink, submodule, other, DiffLineKind, context, addition, deletion,
  FileVersion, DiffLineEvidence, DiffHunkEvidence, FileChangeEvidence, EvidenceBundle,
  ContentKind-discrete,
}
use repo_guard.Review.{
  RuleId, private_key_material, merge_conflict_marker, executable_bit_added, symlink_changed,
  submodule_changed, binary_content_changed, FindingCategory, security, correctness, reviewability,
  supply_chain, FindingSeverity, info, low, medium, high, critical, EvidenceSide, EvidenceReference,
  Finding,
}
use repo_guard.Review.Markers.{
  MarkerKind, begin_marker, end_marker, Marker, find_markers, ConflictLine, conflict_start,
  conflict_separator, conflict_end, no_marker, read_conflict_line,
}
use repo_guard.Review.Additions.{Addition}
use repo_guard.Review.Texts.{text_finding, private_key_text, merge_conflict_text}

-- `defaultdict(deque)` with numbers for its keys.
abbrev pub Queues : Type 0
Queues = ℕ → List ℕ

abbrev pub no_queues : Queues
no_queues k = []

abbrev pub set_queue : Queues → ℕ → List ℕ → Queues
set_queue q k lines j = if j == k then lines else q j

abbrev pub push_line : Queues → ℕ → ℕ → Queues
push_line q k line = set_queue q k (q k ++ line ∷ [])

-- One marker: a BEGIN waits in the queue of its label, an END takes the line that waits longest.
abbrev take_start : FileVersion → ℕ → Queues → ℕ → List ℕ → Queues × List Finding
take_start new line q label [] = (q, [])
take_start new line q label (start ∷ starts) =
    (set_queue q label starts, text_finding new private_key_text start line ∷ [])

unfoldable pub pair_marker : FileVersion → ℕ → Queues → Marker → Queues × List Finding
pair_marker new line q m = elim m.kind [
  | begin_marker ↦ (push_line q m.label line, [])
  | end_marker ↦ take_start new line q m.label (q m.label)
]

unfoldable pub pair_markers : FileVersion → ℕ → Queues → List Marker → Queues × List Finding
unfolding pair_marker
pair_markers new line q [] = (q, [])
pair_markers new line q (m ∷ ms) =
    let (q', found) = pair_marker new line q m in
    let (q'', later) = pair_markers new line q' ms in (q'', found ++ later)

unfoldable pub pair_lines : FileVersion → Queues → List Addition → Queues × List Finding
unfolding pair_markers find_markers
pair_lines new q [] = (q, [])
pair_lines new q ((line, content) ∷ lines) =
    let (q', found) = pair_markers new line q (find_markers 0 content) in
    let (q'', later) = pair_lines new q' lines in (q'', found ++ later)

-- The queues of starts and of blocks with a separator, by the length of the marker.
pub record Conflicts : Type 0 where
  pub starts : Queues
  pub blocks : Queues

abbrev pub no_conflicts : Conflicts
no_conflicts = record { starts = no_queues; blocks = no_queues }

abbrev separate : Conflicts → ℕ → List ℕ → Conflicts
separate s n [] = s
separate s n (line ∷ lines) = record {
  starts = set_queue s.starts n lines;
  blocks = push_line s.blocks n line;
}

abbrev close_block : FileVersion → ℕ → Conflicts → ℕ → List ℕ → Conflicts × List Finding
close_block new line s n [] = (s, [])
close_block new line s n (start ∷ blocks) = (
  record s { blocks = set_queue s.blocks n blocks },
  text_finding new merge_conflict_text start line ∷ [],
)

unfoldable pub conflict_step : FileVersion → ℕ → Conflicts → ConflictLine → Conflicts × List Finding
conflict_step new line s (conflict_start n) = (record s { starts = push_line s.starts n line }, [])
conflict_step new line s (conflict_separator n) = (separate s n (s.starts n), [])
conflict_step new line s (conflict_end n) = close_block new line s n (s.blocks n)
conflict_step new line s no_marker = (s, [])

unfoldable pub conflict_lines : FileVersion → Conflicts → List Addition → Conflicts × List Finding
unfolding conflict_step read_conflict_line
conflict_lines new s [] = (s, [])
conflict_lines new s ((line, content) ∷ lines) =
    let (s', found) = conflict_step new line s (read_conflict_line content) in
    let (s'', later) = conflict_lines new s' lines in (s'', found ++ later)
