-- ===== src/Review/Rules.antt =====
-- The six rules of src/repoguard/_review.py, from the evidence to findings.
pub mod PrivateKey
pub mod MergeConflict
use repo_guard.Base.{
  ℕ, zero, suc, ◌+◌, String, Bool, true, false, not, ◌&&◌, Option, none, some, List, [], ◌∷◌, ◌++◌,
  map, compare, Ordering, ◌==◌, if◌then◌else◌, is_eq, ℕ_discrete,
}
use repo_guard.Text.{codes, text_eq}
use repo_guard.Evidence.{
  ContentKind, text, binary, symlink, submodule, other, DiffLineKind, context, addition, deletion,
  FileVersion, DiffLineEvidence, DiffHunkEvidence, FileChangeEvidence, EvidenceBundle,
  ContentKind-discrete,
}
use repo_guard.Review.{
  RuleId, private_key_material, merge_conflict_marker, executable_bit_added, symlink_changed,
  submodule_changed, binary_content_changed, FindingCategory, security, correctness, reviewability,
  supply_chain, FindingSeverity, info, low, medium, high, critical, EvidenceSide, EvidenceReference,
  Finding,
}
use repo_guard.Review.Additions.{Addition, addition_lines}
use repo_guard.Review.Pairs.{no_queues, pair_lines, no_conflicts, conflict_lines}
use repo_guard.Review.Texts.{
  RuleText, file_finding, executable_text, symlink_text, submodule_text, binary_text,
}

abbrev on_new_side : (FileVersion → List Finding) → FileChangeEvidence → List Finding
on_new_side f change = elim change.new [ none ↦ [] | some new ↦ f new ]

-- `for change in bundle.changes: ...` with the findings of each one after the other.
abbrev pub for_changes :
    (FileChangeEvidence → List Finding) → List FileChangeEvidence → List Finding
for_changes f [] = []
for_changes f (change ∷ changes) = f change ++ for_changes f changes

unfoldable pub private_key_findings : EvidenceBundle → List Finding
unfolding pair_lines addition_lines
private_key_findings bundle =
    for_changes
      (λ change. on_new_side (λ new. (pair_lines new no_queues (addition_lines change)).1) change)
      bundle.changes

unfoldable pub merge_conflict_findings : EvidenceBundle → List Finding
unfolding conflict_lines addition_lines
merge_conflict_findings bundle =
    for_changes
      (λ change.
        on_new_side (λ new. (conflict_lines new no_conflicts (addition_lines change)).1) change)
      bundle.changes

abbrev pub executable_mode : List ℕ
executable_mode = codes "100755"

abbrev pub is_executable : Option FileVersion → Bool
is_executable none = false
is_executable (some version) = text_eq version.mode executable_mode

unfoldable pub executable_change : FileChangeEvidence → List Finding
executable_change change =
    on_new_side
      (λ new.
        if text_eq new.mode executable_mode && not (is_executable change.old)
        then file_finding new executable_text ∷ []
        else [])
      change

unfoldable pub executable_findings : EvidenceBundle → List Finding
unfolding executable_change
executable_findings bundle = for_changes executable_change bundle.changes

abbrev pub is_same_object : ContentKind → FileVersion → Option FileVersion → Bool
is_same_object kind new none = false
is_same_object kind new (some old) =
    is_eq ContentKind-discrete old.content_kind kind && text_eq old.oid new.oid

unfoldable pub content_kind_change : ContentKind → RuleText → FileChangeEvidence → List Finding
unfolding ContentKind-discrete
content_kind_change kind r change =
    on_new_side
      (λ new.
        if is_eq ContentKind-discrete new.content_kind kind
          && not (is_same_object kind new change.old)
        then file_finding new r ∷ []
        else [])
      change

unfoldable pub content_kind_findings : ContentKind → RuleText → EvidenceBundle → List Finding
unfolding content_kind_change
content_kind_findings kind r bundle = for_changes (content_kind_change kind r) bundle.changes

unfoldable pub symlink_findings : EvidenceBundle → List Finding
unfolding content_kind_findings
symlink_findings = content_kind_findings symlink symlink_text

unfoldable pub submodule_findings : EvidenceBundle → List Finding
unfolding content_kind_findings
submodule_findings = content_kind_findings submodule submodule_text

unfoldable pub binary_findings : EvidenceBundle → List Finding
unfolding content_kind_findings
binary_findings = content_kind_findings binary binary_text
