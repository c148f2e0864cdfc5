-- ===== src/Agent/Prompt.antt =====
-- The changes as the prompt shows them, in src/repoguard/_prompt.py: the added lines of a private
-- key that was found are redacted.
pub mod Redacted
pub mod Keys
mod Tests
use repo_guard.Base.{
  ℕ, Bool, true, false, ◌&&◌, ◌||◌, Option, none, some, List, [], ◌∷◌, ◌++◌, map, compare, Ordering,
  leb, any,
}
use repo_guard.Base.Order.{compare_then, compare_by}
use repo_guard.Base.Order.Sort.{sorted}
use repo_guard.Text.{codes, text_eq}
use repo_guard.Evidence.{
  ChangeType, ContentKind, DiffLineKind, context, addition, deletion, FileVersion, DiffLineEvidence,
  DiffHunkEvidence, FileChangeEvidence, EvidenceBundle,
}
use repo_guard.Review.{
  RuleId, private_key_material, merge_conflict_marker, executable_bit_added, symlink_changed,
  submodule_changed, binary_content_changed, EvidenceSide, old, new, EvidenceReference, Finding,
  ReviewResult,
}
use repo_guard.Review.Canonical.{references}

-- First and last line.
abbrev pub Range : Type 0
Range = ℕ × ℕ

-- The ranges of each path and object id.
abbrev pub Redactions : Type 0
Redactions = List ((List ℕ × List ℕ) × List Range)

abbrev pub same_key : List ℕ → List ℕ → List ℕ × List ℕ → Bool
same_key path oid key = text_eq path key.0 && text_eq oid key.1

-- pending.setdefault(key, []).append(range)
unfoldable pub add_range : List ℕ → List ℕ → Range → Redactions → Redactions
add_range path oid r [] = ((path, oid), r ∷ []) ∷ []
add_range path oid r (entry ∷ entries) = elim (same_key path oid entry.0) [
  | true ↦ (entry.0, entry.1 ++ r ∷ []) ∷ entries
  | false ↦ entry ∷ add_range path oid r entries
]

-- The range of a reference to lines of the new side.
abbrev pub line_range : Option ℕ → Option ℕ → Option Range
line_range (some a) (some b) = some (a, b)
line_range (some a) none = none
line_range none end_line = none

abbrev pub new_range : EvidenceReference → Option Range
new_range r = elim r.side [ old ↦ none | new ↦ line_range r.start_line r.end_line ]

abbrev pub add_new_range : EvidenceReference → Option Range → Redactions → Redactions
add_new_range r none pending = pending
add_new_range r (some range) pending = add_range r.path r.oid range pending

unfoldable pub add_references : List EvidenceReference → Redactions → Redactions
add_references [] pending = pending
add_references (r ∷ rs) pending = add_references rs (add_new_range r (new_range r) pending)

abbrev pub is_key_rule : RuleId → Bool
is_key_rule private_key_material = true
is_key_rule merge_conflict_marker = false
is_key_rule executable_bit_added = false
is_key_rule symlink_changed = false
is_key_rule submodule_changed = false
is_key_rule binary_content_changed = false

unfoldable pub add_findings : List Finding → Redactions → Redactions
add_findings [] pending = pending
add_findings (f ∷ fs) pending = elim (is_key_rule f.rule_id) [
  | true ↦ add_findings fs (add_references (references f) pending)
  | false ↦ add_findings fs pending
]

abbrev pub compare_ranges : Range → Range → Ordering
compare_ranges = compare_then (compare_by compare (λ r. r.0)) (compare_by compare (λ r. r.1))

abbrev pub sort_entry : (List ℕ × List ℕ) × List Range → (List ℕ × List ℕ) × List Range
sort_entry entry = (entry.0, sorted compare_ranges entry.1)

-- _private_key_redactions
unfoldable pub private_key_redactions : List Finding → Redactions
private_key_redactions findings = map sort_entry (add_findings findings [])

-- redactions.get((path, oid), ())
unfoldable pub get_ranges : List ℕ → List ℕ → Redactions → List Range
get_ranges path oid [] = []
get_ranges path oid (entry ∷ entries) = elim (same_key path oid entry.0) [
  | true ↦ entry.1
  | false ↦ get_ranges path oid entries
]

-- _is_redacted
unfoldable pub is_redacted : FileVersion → ℕ → Redactions → Bool
is_redacted version n redactions =
    any (λ r. leb r.0 n && leb n r.1) (get_ranges version.path version.oid redactions)

abbrev pub redaction_sentinel : List ℕ
redaction_sentinel = codes "[REDACTED_PRIVATE_KEY_MATERIAL]"

abbrev pub shown_number : FileVersion → Option ℕ → List ℕ → Redactions → List ℕ
shown_number version none content redactions = content
shown_number version (some n) content redactions = elim (is_redacted version n redactions) [
  | true ↦ redaction_sentinel
  | false ↦ content
]

abbrev pub shown_kind : DiffLineKind → FileVersion → Option ℕ → List ℕ → Redactions → List ℕ
shown_kind addition version n content redactions = shown_number version n content redactions
shown_kind context version n content redactions = content
shown_kind deletion version n content redactions = content

-- The content of a line in `_line_to_dict`.
unfoldable pub shown_content : Option FileVersion → DiffLineEvidence → Redactions → List ℕ
shown_content none line redactions = line.content
shown_content (some version) line redactions =
    shown_kind line.kind version line.new_line_number line.content redactions

-- _line_to_dict: the line with the content that is shown
unfoldable pub line_to_dict : Option FileVersion → Redactions → DiffLineEvidence → DiffLineEvidence
line_to_dict version redactions line = record line {
  content = shown_content version line redactions;
}

-- _hunk_to_dict
unfoldable pub hunk_to_dict : Option FileVersion → Redactions → DiffHunkEvidence → DiffHunkEvidence
hunk_to_dict version redactions hunk = record hunk {
  lines = map (line_to_dict version redactions) hunk.lines;
}

-- _change_to_prompt_dict: the fields of the mapping are those of the change
unfoldable pub change_to_prompt_dict : Redactions → FileChangeEvidence → FileChangeEvidence
change_to_prompt_dict redactions change = record change {
  hunks = map (hunk_to_dict change.new redactions) change.hunks;
}

-- The `changes` of the prompt's data, before they are put in the order of their JSON text.
unfoldable pub prompt_changes : List FileChangeEvidence → List Finding → List FileChangeEvidence
prompt_changes changes findings =
    map (change_to_prompt_dict (private_key_redactions findings)) changes

-- user_data: all that the messages are written from
pub record PromptData : Type 0 where
  pub object_format : List ℕ
  pub base_oid : List ℕ
  pub head_oid : List ℕ
  pub merge_base_oid : List ℕ
  pub deterministic_findings : List Finding
  pub changes : List FileChangeEvidence

abbrev pub prompt_data : EvidenceBundle → ReviewResult → PromptData
prompt_data bundle review = record {
  object_format = bundle.repository.object_format;
  base_oid = bundle.revisions.base_oid;
  head_oid = bundle.revisions.head_oid;
  merge_base_oid = bundle.revisions.merge_base_oid;
  deterministic_findings = review.findings;
  changes = prompt_changes bundle.changes review.findings;
}
