-- ===== src/Agent/Tests.antt =====
-- Runs of the agent review on small inputs.
use repo_guard.Base.{ℕ, zero, suc, ◌*◌, ◌≡◌, refl, true, none, some, List, [], ◌∷◌, arith, All}
use repo_guard.Base.Outcome.{ok}
use repo_guard.Text.{codes}
use repo_guard.Evidence.{
  added, text, addition, FileVersion, DiffLineEvidence, FileChangeEvidence, EvidenceBundle,
}
use repo_guard.Review.{ReviewResult, new, EvidenceReference, correctness, low}
use repo_guard.Review.Engine.{run_rules, review_evidence}
use repo_guard.Agent.{AgentReviewConfig}
use repo_guard.Agent.Json.{
  Json, json_int, json_text, json_list, json_object, no_items, item, no_fields, with_field,
  JsonLoads,
}
use repo_guard.Agent.Provider.{
  LlmMessage, system, user, LlmRequest, Answer, responds, fails, crashes, rate_limited,
}
use repo_guard.Agent.Targets.{
  ReferenceTarget, target_of, add_reference_target, find_target, line_numbers, reference_targets,
}
use repo_guard.Agent.Context.{
  validate_context_line, validate_context_lines, validate_context_hunk, validate_context_hunks,
  validate_context_version,
}
use repo_guard.Agent.Context.Changes.{
  Targets, validate_side, validate_context_change, validate_context_changes,
  validate_context_revisions, validate_context_evidence,
}
use repo_guard.Review.Validate.{oid_length, is_hex_text, validate_bundle}
use repo_guard.Agent.Context.Reviewed.{context_valid-reviewed}
use repo_guard.Agent.Context.Numbered.{IsNumberedHunk, context_valid-numbered}
use repo_guard.Agent.Attempts.{Setting, Attempts, Attempt, review_attempts}
use repo_guard.Agent.Attempts.Run.{IsEnd, review_attempts-IsEnd}
use repo_guard.Agent.Response.{AgentFinding, agent, agent_reasoning, parse_model_findings}
use repo_guard.Agent.Response.Evidence.{AreCited, model_findings_cite_evidence}
use repo_guard.Agent.Merge.{merge_findings}
use repo_guard.Agent.Merge.Faithful.{IsMerged, merge_findings-IsMerged}
use repo_guard.Agent.Workflow.{Surroundings, AgentReviewResult, review_with_agent, setting_of}
use repo_guard.Agent.Workflow.Sound.{IsAgentReview, review_with_agent-IsAgentReview}
use repo_guard.Base.Order.Sort.{sorted}
use repo_guard.Text.{encode_utf8}
use repo_guard.Review.{EvidenceReference-discrete}
use repo_guard.Review.Canonical.{
  canonicalize_findings, severity_rank, rule_value, side_value, line_sort_value,
}
use repo_guard.Review.Rules.{
  private_key_findings, merge_conflict_findings, executable_findings, symlink_findings,
  submodule_findings, binary_findings,
}
use repo_guard.Agent.Characters.{is_space, is_control}
use repo_guard.Agent.Json.{strict_object, has_exactly}
use repo_guard.Agent.Provider.{validate_identifier, validate_configuration, within_limits}
use repo_guard.Agent.Reference.{
  category_of, severity_of, side_of, validated_text, parse_model_references, parse_model_reference,
  accept_lines, range_is_in_one_hunk,
}
use repo_guard.Agent.Response.{
  parse_findings, parse_model_finding, parse_label, parse_text, parse_finding_references,
}
use repo_guard.Agent.Merge.{unique_candidates, AgentFinding-discrete, category_value}
use repo_guard.Agent.Attempts.{
  run_attempts, invoke_provider_node, wait_before, call_provider, take_answer, route_by,
  error_route,
}
use repo_guard.Agent.Workflow.{
  validate_node, deterministic_review_node, build_prompt_node, render_review_prompt, review_prompt,
  parse_response_node, finalize_node,
}

abbrev oid : List ℕ
oid = codes "0123456789abcdef0123456789abcdef01234567"

abbrev version : FileVersion
version = record { path = codes "a.py"; mode = codes "100644"; oid = oid; content_kind = text }

abbrev added_line : ℕ → List ℕ → DiffLineEvidence
added_line n content = record {
  kind = addition;
  old_line_number = none;
  new_line_number = some n;
  content = content;
  has_trailing_newline = true;
}

abbrev change : FileChangeEvidence
change = record {
  change_type = added;
  rename_similarity = none;
  old = none;
  new = some version;
  hunks =
      record {
        old_start = 0;
        old_count = 0;
        new_start = 1;
        new_count = 2;
        lines = added_line 1 (codes "x = 1") ∷ added_line 2 (codes "y = 2") ∷ [];
      }
      ∷ [];
}

abbrev bundle : EvidenceBundle
bundle = record {
  repository = record { root = codes "/r"; object_format = codes "sha1" };
  revisions = record {
    base_ref = codes "main";
    head_ref = codes "topic";
    base_oid = oid;
    head_oid = oid;
    merge_base_oid = oid;
  };
  changes = change ∷ [];
  schema_version = 1;
}

abbrev seen : Targets
seen = (codes "a.py", new) ∷ []

context_valid : validate_context_evidence bundle ≡ ok seen
unfolding validate_context_evidence oid_length validate_context_revisions is_hex_text
    validate_context_changes validate_context_change validate_side validate_context_version
    validate_context_hunks validate_context_hunk validate_context_lines validate_context_line
context_valid = refl

context_valid-numbered_example : All (λ c. All IsNumberedHunk c.hunks) bundle.changes
context_valid-numbered_example = context_valid-numbered bundle seen context_valid

context_valid-reviewed_example : (r : ReviewResult) × (review_evidence bundle ≡ ok r)
context_valid-reviewed_example =
    context_valid-reviewed bundle seen ((((λ e _. cc), ((λ e _. cc), tt)), tt), tt) context_valid

abbrev config : AgentReviewConfig
config = record {
  model = codes "m";
  max_prompt_bytes = 131072;
  max_output_tokens = 4096;
  max_response_bytes = 524288;
  max_model_findings = 100;
  max_references_per_finding = 8;
  max_title_chars = 120;
  max_message_chars = 1000;
  max_remediation_chars = 1000;
  per_attempt_timeout = 30000000000;
  total_timeout = 95000000000;
  max_attempts = 3;
}

abbrev messages : List LlmMessage
messages =
    record { role = system; content = codes "review" }
    ∷ record { role = user; content = codes "changes" }
    ∷ []

-- Every reading of the clock is a second behind the one before.
abbrev seconds : ℕ → ℕ
seconds n = n * 1000000000

-- The provider is busy at first.
abbrev busy_once : ℕ → LlmRequest → Answer
busy_once zero request = crashes
busy_once (suc zero) request = fails rate_limited
busy_once (suc (suc n)) request = responds (record { output_text = codes "{}"; usage = none })

-- The JSON that the second answer stands for: one finding, on lines 1 to 2 of a.py.
abbrev reference_json : Json
reference_json = json_object (
    with_field (codes "path") (json_text (codes "a.py")) (
      with_field (codes "side") (json_text (codes "new")) (
        with_field (codes "start_line") (json_int 1)
          (with_field (codes "end_line") (json_int 2) no_fields))))

abbrev finding_json : Json
finding_json = json_object (
    with_field (codes "category") (json_text (codes "correctness")) (
      with_field (codes "severity") (json_text (codes "low")) (
        with_field (codes "title") (json_text (codes "t")) (
          with_field (codes "message") (json_text (codes "m")) (
            with_field (codes "remediation") (json_text (codes "r")) (
              with_field (codes "references") (json_list (item reference_json no_items))
                no_fields))))))

abbrev answer_json : JsonLoads
answer_json hook constants s = hook (
    with_field (codes "schema_version") (json_int 1)
      (with_field (codes "findings") (json_list (item finding_json no_items)) no_fields))

abbrev surroundings : Surroundings
surroundings = record {
  monotonic = seconds;
  provider_name = codes "p";
  complete = busy_once;
  loads = answer_json;
  messages = λ d. messages;
}

abbrev setting : Setting
setting = setting_of surroundings config 95000000000 messages

review_attempts-IsEnd_example :
    (o : Attempt Attempts) × (review_attempts setting ≡ some o) × IsEnd setting o
review_attempts-IsEnd_example = review_attempts-IsEnd setting (omega arith)

abbrev model_reference : EvidenceReference
model_reference = record {
  path = codes "a.py";
  side = new;
  oid = oid;
  start_line = some 1;
  end_line = some 2;
}

abbrev model_finding : AgentFinding
model_finding = record {
  source = agent;
  rule_id = agent_reasoning;
  category = correctness;
  severity = low;
  title = codes "t";
  message = codes "m";
  remediation = codes "r";
  references = model_reference ∷ [];
}

abbrev targets : List ReferenceTarget
targets = target_of version new change.hunks ∷ []

targets_made : reference_targets bundle.changes [] ≡ ok targets
unfolding reference_targets add_reference_target find_target
targets_made = refl

finding_parsed :
    parse_model_findings answer_json 2 config targets (codes "{}") ≡ ok (model_finding ∷ [])
unfolding parse_model_findings is_space strict_object has_exactly parse_findings parse_model_finding
    parse_label category_of severity_of parse_text validated_text parse_finding_references
    parse_model_references parse_model_reference side_of find_target accept_lines
    range_is_in_one_hunk line_numbers sorted line_sort_value side_value EvidenceReference-discrete
    encode_utf8
finding_parsed = refl

model_findings_cite_evidence_example : AreCited config bundle targets (model_finding ∷ [])
model_findings_cite_evidence_example =
    model_findings_cite_evidence answer_json 2 config bundle targets (codes "{}")
      (model_finding ∷ []) targets_made finding_parsed

merge_findings-IsMerged_example :
    IsMerged []
      (model_finding ∷ model_finding ∷ [])
      (merge_findings [] (model_finding ∷ model_finding ∷ []))
merge_findings-IsMerged_example = merge_findings-IsMerged [] (model_finding ∷ model_finding ∷ [])

abbrev result : AgentReviewResult
result = record {
  repository = bundle.repository;
  revisions = bundle.revisions;
  provider = codes "p";
  model = codes "m";
  attempt_count = 2;
  usage = none;
  prompt_bytes = 13;
  response_bytes = 2;
  findings = model_finding ∷ [];
}

agent_reviewed : review_with_agent surroundings config bundle ≡ ok result
unfolding review_with_agent validate_node validate_configuration validate_identifier within_limits
    is_control deterministic_review_node review_evidence build_prompt_node render_review_prompt
    reference_targets add_reference_target review_prompt review_attempts run_attempts
    invoke_provider_node wait_before call_provider take_answer route_by error_route
    parse_response_node parse_model_findings finalize_node merge_findings unique_candidates
    AgentFinding-discrete category_value severity_rank rule_value validate_bundle run_rules
    canonicalize_findings private_key_findings merge_conflict_findings executable_findings
    symlink_findings submodule_findings binary_findings is_space strict_object has_exactly
    parse_findings parse_model_finding parse_label category_of severity_of parse_text validated_text
    parse_finding_references parse_model_references parse_model_reference side_of find_target
    accept_lines range_is_in_one_hunk line_numbers sorted line_sort_value side_value
    EvidenceReference-discrete encode_utf8 validate_context_evidence oid_length
    validate_context_revisions is_hex_text validate_context_changes validate_context_change
    validate_side validate_context_version validate_context_hunks validate_context_hunk
    validate_context_lines validate_context_line
agent_reviewed = refl

review_with_agent-IsAgentReview_example : IsAgentReview surroundings config bundle result
review_with_agent-IsAgentReview_example =
    review_with_agent-IsAgentReview surroundings config bundle result agent_reviewed
