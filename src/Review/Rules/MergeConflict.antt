-- ===== src/Review/Rules/MergeConflict.antt =====
-- `_merge_conflict_findings` of src/repoguard/_review.py on whole bundles.
use repo_guard.Base.{◌≡◌, some, In, All-In}
use repo_guard.Evidence.{FileVersion, FileChangeEvidence, EvidenceBundle}
use repo_guard.Review.{Finding}
use repo_guard.Review.Additions.{addition_lines}
use repo_guard.Review.Pairs.Blocks.{IsConflict, conflicts_found}
use repo_guard.Review.Rules.{merge_conflict_findings}
use repo_guard.Review.Rules.PrivateKey.{In-for_changes, In-on_new_side}

-- A conflict that one reviewed change adds to its new side.
abbrev pub IsConflictFinding : EvidenceBundle → Finding → Type 0
IsConflictFinding bundle f =
    (change : FileChangeEvidence) × In change bundle.changes
    × ((version : FileVersion) × (change.new ≡ some version)
        × IsConflict version (addition_lines change) f)

-- Every finding of the merge-conflict rule is of a reviewed change with a new side, among whose
-- added lines an end marker stands behind a separator and the separator behind a start marker, all
-- three of one length, and it names the start and the end.
pub merge_conflict_sound :
    (bundle : EvidenceBundle) (f : Finding)
    → In f (merge_conflict_findings bundle)
    → IsConflictFinding bundle f
unfolding merge_conflict_findings
merge_conflict_sound bundle f i =
    let (change, reviewed, found) = In-for_changes _ f bundle.changes i in
    let (version, new_side, on_version) = In-on_new_side _ change f found in
    (
      change,
      reviewed,
      (
        version,
        new_side,
        All-In (IsConflict version (addition_lines change)) f _
            (conflicts_found version (addition_lines change)) on_version,
      ),
    )
