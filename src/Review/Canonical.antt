-- ===== src/Review/Canonical.antt =====
-- `_canonicalize_findings` of src/repoguard/_review.py: one finding for each rule and references,
-- in the order of the sort key.
pub mod Order
pub mod Distinct
use repo_guard.Base.{
  ℕ, zero, suc, String, Bool, true, false, ◌&&◌, ◌||◌, Option, none, some, List, [], ◌∷◌, compare,
  Ordering, if◌then◌else◌, is_eq, ℕ_discrete,
}
use repo_guard.Base.Order.{compare_then, compare_by, compare_lists}
use repo_guard.Base.Order.Sort.{sorted}
use repo_guard.Text.{codes, encode_utf8}
use repo_guard.Review.{
  RuleId, private_key_material, merge_conflict_marker, executable_bit_added, symlink_changed,
  submodule_changed, binary_content_changed, FindingSeverity, info, low, medium, high, critical,
  EvidenceSide, old, new, EvidenceReference, Finding, RuleId-discrete, EvidenceReference-discrete,
}

-- _SEVERITY_RANK
unfoldable pub severity_rank : FindingSeverity → ℕ
severity_rank critical = 0
severity_rank high = 1
severity_rank medium = 2
severity_rank low = 3
severity_rank info = 4

-- `rule_id.value`
unfoldable pub rule_value : RuleId → List ℕ
rule_value private_key_material = codes "private_key_material"
rule_value merge_conflict_marker = codes "merge_conflict_marker"
rule_value executable_bit_added = codes "executable_bit_added"
rule_value symlink_changed = codes "symlink_changed"
rule_value submodule_changed = codes "submodule_changed"
rule_value binary_content_changed = codes "binary_content_changed"

-- `side.value`
unfoldable pub side_value : EvidenceSide → List ℕ
side_value old = codes "old"
side_value new = codes "new"

unfoldable pub line_sort_value : Option ℕ → ℕ
line_sort_value none = 0
line_sort_value (some n) = n

abbrev pub compare_text : List ℕ → List ℕ → Ordering
compare_text = compare_lists compare

-- Two references by `_reference_sort_key`.
abbrev pub compare_references : EvidenceReference → EvidenceReference → Ordering
compare_references = compare_then (compare_by compare_text (λ r. encode_utf8 r.path)) (
    compare_then (compare_by compare_text (λ r. side_value r.side)) (
      compare_then (compare_by compare_text (λ r. r.oid)) (
        compare_then (compare_by compare (λ r. line_sort_value r.start_line))
          (compare_by compare (λ r. line_sort_value r.end_line)))))

abbrev pub references : Finding → List EvidenceReference
references f = f.first_reference ∷ f.more_references

-- Two findings by `_finding_sort_key`.
abbrev pub compare_findings : Finding → Finding → Ordering
compare_findings = compare_then (compare_by compare (λ f. severity_rank f.severity)) (
    compare_then (compare_by compare_text (λ f. encode_utf8 f.first_reference.path)) (
      compare_then (compare_by compare (λ f. line_sort_value f.first_reference.start_line)) (
        compare_then (compare_by compare (λ f. line_sort_value f.first_reference.end_line)) (
          compare_then (compare_by compare_text (λ f. rule_value f.rule_id))
            (compare_by (compare_lists compare_references) references)))))

abbrev pub Key : Type 0
Key = RuleId × List EvidenceReference

abbrev pub key_of : Finding → Key
key_of f = (f.rule_id, references f)

unfoldable pub Key-discrete : Discrete Key
unfolding RuleId-discrete EvidenceReference-discrete
Key-discrete = hlevel (RuleId-discrete, EvidenceReference-discrete)

abbrev pub has_key : Key → List Key → Bool
has_key k [] = false
has_key k (j ∷ js) = is_eq Key-discrete k j || has_key k js

-- `unique.setdefault(key, finding)` for each finding in turn: the keys so far, and the values that
-- are added behind them.
unfoldable pub unique_findings : List Key → List Finding → List Finding
unfolding Key-discrete
unique_findings seen [] = []
unique_findings seen (f ∷ fs) =
    let known = unique_findings seen fs in
    let fresh = f ∷ unique_findings (key_of f ∷ seen) fs in
    if has_key (key_of f) seen then known else fresh

unfoldable pub canonicalize_findings : List Finding → List Finding
unfolding unique_findings sorted
canonicalize_findings findings = sorted compare_findings (unique_findings [] findings)
