-- ===== src/Review/Engine.antt =====
-- `_review_evidence` of src/repoguard/_review.py: validate, run the catalog, make canonical.
pub mod Correct
use repo_guard.Base.{String, Bool, true, false, Option, none, some, List, [], ◌∷◌, ◌++◌}
use repo_guard.Base.Outcome.{Outcome, ok, err, ◌>>=◌, ◌>>◌}
use repo_guard.Evidence.{EvidenceBundle}
use repo_guard.Review.{
  RuleId, private_key_material, merge_conflict_marker, executable_bit_added, symlink_changed,
  submodule_changed, binary_content_changed, rule_execution_failed, ReviewError, Finding,
  ReviewResult,
}
use repo_guard.Review.Validate.{Checked, validate_bundle}
use repo_guard.Review.Rules.{
  private_key_findings, merge_conflict_findings, executable_findings, symlink_findings,
  submodule_findings, binary_findings,
}
use repo_guard.Review.Canonical.{canonicalize_findings}

-- A rule of a catalog; `none` is any exception that the evaluator raises.
abbrev pub Rule : Type 0
Rule = RuleId × (EvidenceBundle → Option (List Finding))

abbrev failed_message : RuleId → String
failed_message private_key_material = "review rule failed: private_key_material"
failed_message merge_conflict_marker = "review rule failed: merge_conflict_marker"
failed_message executable_bit_added = "review rule failed: executable_bit_added"
failed_message symlink_changed = "review rule failed: symlink_changed"
failed_message submodule_changed = "review rule failed: submodule_changed"
failed_message binary_content_changed = "review rule failed: binary_content_changed"

abbrev pub rule_failed : RuleId → ReviewError
rule_failed rule_id = record { code = rule_execution_failed; message = failed_message rule_id }

-- The loop over the rules, with what has been found so far.
unfoldable pub run_rules : List Rule → EvidenceBundle → List Finding → Checked (List Finding)
run_rules [] bundle found = ok found
run_rules ((rule_id, evaluator) ∷ rules) bundle found = elim (evaluator bundle) [
  | some more ↦ run_rules rules bundle (found ++ more)
  | none ↦ err (rule_failed rule_id)
]

-- _RULES: the rules as they are modelled raise nothing, so that a run of this catalog does not
-- take the way of an exception
abbrev pub catalog : List Rule
catalog =
    (private_key_material, λ b. some (private_key_findings b))
    ∷ (merge_conflict_marker, λ b. some (merge_conflict_findings b))
    ∷ (executable_bit_added, λ b. some (executable_findings b))
    ∷ (symlink_changed, λ b. some (symlink_findings b))
    ∷ (submodule_changed, λ b. some (submodule_findings b))
    ∷ (binary_content_changed, λ b. some (binary_findings b))
    ∷ []

unfoldable pub review_with : List Rule → EvidenceBundle → Checked ReviewResult
review_with rules bundle = do
  validate_bundle bundle
  findings ← run_rules rules bundle []
  ok (record {
    repository = bundle.repository;
    revisions = bundle.revisions;
    findings = canonicalize_findings findings;
    schema_version = 1;
  })

unfoldable pub review_evidence : EvidenceBundle → Checked ReviewResult
unfolding review_with
review_evidence = review_with catalog
