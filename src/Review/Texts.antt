-- ===== src/Review/Texts.antt =====
-- `_text_finding` and `_file_finding` of src/repoguard/_review.py, and what each rule says.
use repo_guard.Base.{ℕ, String, Option, none, some, []}
use repo_guard.Evidence.{FileVersion}
use repo_guard.Review.{
  RuleId, private_key_material, merge_conflict_marker, executable_bit_added, symlink_changed,
  submodule_changed, binary_content_changed, FindingCategory, security, correctness, reviewability,
  supply_chain, FindingSeverity, info, low, medium, high, EvidenceSide, EvidenceReference, Finding,
}

abbrev pub located_at : FileVersion → Option ℕ → Option ℕ → EvidenceReference
located_at version start end = record {
  path = version.path;
  side = EvidenceSide.new;
  oid = version.oid;
  start_line = start;
  end_line = end;
}

-- The texts and ranks that a rule gives to its findings.
pub record RuleText : Type 0 where
  pub rule_id : RuleId
  pub category : FindingCategory
  pub severity : FindingSeverity
  pub title : String
  pub message : String
  pub remediation : String

abbrev pub finding_at : RuleText → EvidenceReference → Finding
finding_at r reference = record {
  rule_id = r.rule_id;
  category = r.category;
  severity = r.severity;
  title = r.title;
  message = r.message;
  remediation = r.remediation;
  first_reference = reference;
  more_references = [];
}

abbrev pub text_finding : FileVersion → RuleText → ℕ → ℕ → Finding
text_finding version r start end = finding_at r (located_at version (some start) (some end))

abbrev pub file_finding : FileVersion → RuleText → Finding
file_finding version r = finding_at r (located_at version none none)

abbrev pub private_key_text : RuleText
private_key_text = record {
  rule_id = private_key_material;
  category = security;
  severity = high;
  title = "Private key material added";
  message = "Added lines contain a paired private-key block.";
  remediation =
      "Remove the private key, rotate any exposed credential, and load the replacement from an approved secret store.";
}

abbrev pub merge_conflict_text : RuleText
merge_conflict_text = record {
  rule_id = merge_conflict_marker;
  category = correctness;
  severity = medium;
  title = "Unresolved merge conflict added";
  message = "Added lines contain a complete unresolved merge-conflict block.";
  remediation =
      "Resolve the conflict, remove the conflict markers, and verify the intended combined content.";
}

abbrev pub executable_text : RuleText
executable_text = record {
  rule_id = executable_bit_added;
  category = security;
  severity = low;
  title = "Executable permission introduced";
  message = "The head version introduces executable permission for this file.";
  remediation =
      "Confirm that executable permission is required; otherwise restore a non-executable regular-file mode.";
}

abbrev pub symlink_text : RuleText
symlink_text = record {
  rule_id = symlink_changed;
  category = security;
  severity = medium;
  title = "Symbolic link introduced or changed";
  message = "The head version introduces a symbolic link or changes its target object.";
  remediation =
      "Verify that the link target is intentional and cannot escape or redirect access outside the expected repository path.";
}

abbrev pub submodule_text : RuleText
submodule_text = record {
  rule_id = submodule_changed;
  category = supply_chain;
  severity = medium;
  title = "Submodule pointer introduced or changed";
  message = "The head version introduces a submodule or changes its referenced commit.";
  remediation =
      "Verify the submodule source and review the referenced commit before accepting the change.";
}

abbrev pub binary_text : RuleText
binary_text = record {
  rule_id = binary_content_changed;
  category = reviewability;
  severity = info;
  title = "Opaque binary content introduced or changed";
  message =
      "The head version introduces binary content or changes its object ID, so text review evidence is unavailable.";
  remediation = "Verify the binary's provenance and inspect it with an appropriate trusted tool.";
}
