-- ===== src/Agent/Response.antt =====
-- `_parse_model_findings` of src/repoguard/_agent.py: the model's answer, read and checked.
pub mod References
pub mod Sound
pub mod Evidence
use repo_guard.Base.{
  ℕ, zero, suc, ◌+◌, ◌-◌, Bool, true, false, not, ◌&&◌, ◌||◌, Option, none, some, List, [], ◌∷◌,
  ltb, leb, ◌==◌, if◌then◌else◌, length, all, any, is_eq,
}
use repo_guard.Base.Outcome.{Outcome, ok, err, ◌>>=◌, ◌>>◌, require}
use repo_guard.Base.Order.Sort.{sorted}
use repo_guard.Text.{codes, text_eq, encodes, contains}
use repo_guard.Review.{
  RuleId, FindingCategory, security, correctness, reviewability, supply_chain, FindingSeverity,
  info, low, medium, high, critical, EvidenceSide, old, new, EvidenceReference,
  EvidenceReference-discrete,
}
use repo_guard.Review.Canonical.{compare_references}
use repo_guard.Agent.{
  Agent, AgentReviewError, AgentReviewErrorCode, invalid_model_output, AgentNode, parse_response,
  AgentReviewConfig,
}
use repo_guard.Agent.Characters.{is_space}
use repo_guard.Agent.Targets.{ReferenceTarget, find_target}
use repo_guard.Agent.Json.{
  Json, json_null, json_bool, json_int, json_negative, json_real, json_text, json_list, json_object,
  Fields, JsonLoads, get_field, to_list, has_exactly, strict_object, reject_constant,
}
use repo_guard.Agent.Reference.{
  bad_output, drop_spaces, is_blank, drop_last_spaces, strip, present, as_text, as_object, as_list,
  field, category_of, severity_of, side_of, validated_text, all_in, range_is_in_one_hunk, Lines,
  LineValue, line_value, accept_lines, reference_keys, parse_model_reference, has_reference,
  add_reference, parse_model_references, absent, bad_value, numbered,
}

pub data FindingSource : Type 0 where
  deterministic agent : FindingSource

-- RuleId | AgentRuleId
pub data AnyRule : Type 0 where
  rule : RuleId → AnyRule
  agent_reasoning : AnyRule

pub record AgentFinding : Type 0 where
  pub source : FindingSource
  pub rule_id : AnyRule
  pub category : FindingCategory
  pub severity : FindingSeverity
  pub title : List ℕ
  pub message : List ℕ
  pub remediation : List ℕ
  pub references : List EvidenceReference

abbrev pub finding_keys : List (List ℕ)
finding_keys =
    codes "category"
    ∷ codes "severity"
    ∷ codes "title"
    ∷ codes "message"
    ∷ codes "remediation"
    ∷ codes "references"
    ∷ []

-- The category and the severity.
unfoldable pub parse_label : ℕ → Fields → Agent (FindingCategory × FindingSeverity)
parse_label n raw = do
  category_value ← field n (codes "category") raw >>= as_text n
  severity_value ← field n (codes "severity") raw >>= as_text n
  category ← present n (category_of category_value)
  severity ← present n (severity_of severity_value)
  ok (category, severity)

-- One of the three texts.
unfoldable pub parse_text : ℕ → List ℕ → ℕ → Fields → Agent (List ℕ)
parse_text n key maximum raw = do value ← field n key raw; validated_text value maximum n

unfoldable pub parse_finding_references :
    ℕ → AgentReviewConfig → List ReferenceTarget → Fields → Agent (List EvidenceReference)
parse_finding_references n config targets raw = do
  values ← field n (codes "references") raw >>= as_list n
  require (ltb 0 (length values) && leb (length values) config.max_references_per_finding)
      (bad_output n)
  references ← parse_model_references n targets values
  ok (sorted compare_references references)

-- _parse_model_finding
unfoldable pub parse_model_finding :
    ℕ → AgentReviewConfig → List ReferenceTarget → Json → Agent AgentFinding
parse_model_finding n config targets value = do
  raw ← as_object n value
  require (has_exactly finding_keys raw) (bad_output n)
  label ← parse_label n raw
  title ← parse_text n (codes "title") config.max_title_chars raw
  message ← parse_text n (codes "message") config.max_message_chars raw
  remediation ← parse_text n (codes "remediation") config.max_remediation_chars raw
  references ← parse_finding_references n config targets raw
  ok (record {
    source = agent;
    rule_id = agent_reasoning;
    category = label.0;
    severity = label.1;
    title = title;
    message = message;
    remediation = remediation;
    references = references;
  })

unfoldable pub parse_findings :
    ℕ → AgentReviewConfig → List ReferenceTarget → List Json → Agent (List AgentFinding)
parse_findings n config targets [] = ok []
parse_findings n config targets (value ∷ values) = do
  f ← parse_model_finding n config targets value
  fs ← parse_findings n config targets values
  ok (f ∷ fs)

-- `type(value) is int and value == 1`
abbrev pub is_version_one : Json → Bool
is_version_one (json_int n) = n == 1
is_version_one _ = false

-- _parse_model_findings
unfoldable pub parse_model_findings :
    JsonLoads → ℕ → AgentReviewConfig → List ReferenceTarget → List ℕ → Agent (List AgentFinding)
parse_model_findings loads n config targets output_text = do
  require (text_eq output_text (strip output_text)) (bad_output n)
  value ← present n (loads strict_object reject_constant output_text)
  raw ← as_object n value
  require (has_exactly (codes "schema_version" ∷ codes "findings" ∷ []) raw) (bad_output n)
  version ← field n (codes "schema_version") raw
  require (is_version_one version) (bad_output n)
  raw_findings ← field n (codes "findings") raw >>= as_list n
  require (leb (length raw_findings) config.max_model_findings) (bad_output n)
  parse_findings n config targets raw_findings
