-- ===== src/Agent/Merge.antt =====
-- `_merge_findings_node` of src/repoguard/_agent.py: the findings of both sources in one order.
pub mod Faithful
use repo_guard.Base.{
  ℕ, zero, suc, Bool, true, false, ◌||◌, Option, none, some, List, [], ◌∷◌, ◌++◌, map, compare,
  Ordering, if◌then◌else◌, is_eq, ℕ_discrete,
}
use repo_guard.Base.Order.{compare_then, compare_by, compare_lists}
use repo_guard.Base.Order.Sort.{sorted}
use repo_guard.Text.{codes, encode_utf8}
use repo_guard.Review.{
  RuleId, FindingCategory, security, correctness, reviewability, supply_chain, FindingSeverity,
  info, low, medium, high, critical, EvidenceSide, EvidenceReference, Finding,
}
use repo_guard.Review.Canonical.{
  severity_rank, rule_value, line_sort_value, compare_text, compare_references, references,
}
use repo_guard.Agent.Response.{
  FindingSource, deterministic, agent, AnyRule, rule, agent_reasoning, AgentFinding,
}

-- _promote_finding
abbrev pub promote_finding : Finding → AgentFinding
promote_finding f = record {
  source = deterministic;
  rule_id = rule f.rule_id;
  category = f.category;
  severity = f.severity;
  title = codes f.title;
  message = codes f.message;
  remediation = codes f.remediation;
  references = references f;
}

-- _SOURCE_RANK
abbrev pub source_rank : FindingSource → ℕ
source_rank deterministic = 0
source_rank agent = 1

abbrev pub any_rule_value : AnyRule → List ℕ
any_rule_value (rule r) = rule_value r
any_rule_value agent_reasoning = codes "agent_reasoning"

-- `category.value`
unfoldable pub category_value : FindingCategory → List ℕ
category_value security = codes "security"
category_value correctness = codes "correctness"
category_value reviewability = codes "reviewability"
category_value supply_chain = codes "supply_chain"

-- A part of `references[0]`; a finding always has one.
abbrev pub of_first : {A : Type 0} → A → (EvidenceReference → A) → List EvidenceReference → A
of_first a f [] = a
of_first a f (r ∷ rs) = f r

-- Two findings by `_finding_sort_key`.
abbrev pub compare_agent_findings : AgentFinding → AgentFinding → Ordering
compare_agent_findings = compare_then (compare_by compare (λ f. severity_rank f.severity)) (
    compare_then (compare_by compare_text (λ f. of_first [] (λ r. encode_utf8 r.path) f.references))
      (compare_then
        (compare_by compare (λ f. of_first 0 (λ r. line_sort_value r.start_line) f.references))
        (compare_then
          (compare_by compare (λ f. of_first 0 (λ r. line_sort_value r.end_line) f.references))
          (compare_then (compare_by compare (λ f. source_rank f.source)) (
            compare_then (compare_by compare_text (λ f. any_rule_value f.rule_id)) (
              compare_then (compare_by (compare_lists compare_references) (λ f. f.references)) (
                compare_then (compare_by compare_text (λ f. category_value f.category)) (
                  compare_then (compare_by compare_text (λ f. f.title)) (
                    compare_then (compare_by compare_text (λ f. f.message))
                      (compare_by compare_text (λ f. f.remediation)))))))))))

unfoldable pub AgentFinding-discrete : Discrete AgentFinding
AgentFinding-discrete = hlevel ℕ_discrete

abbrev pub has_finding : AgentFinding → List AgentFinding → Bool
has_finding f [] = false
has_finding f (g ∷ gs) = is_eq AgentFinding-discrete f g || has_finding f gs

-- tuple(dict.fromkeys(candidates)), with the keys so far
unfoldable pub unique_candidates : List AgentFinding → List AgentFinding → List AgentFinding
unique_candidates seen [] = []
unique_candidates seen (f ∷ fs) =
    let known = unique_candidates seen fs in
    let fresh = f ∷ unique_candidates (f ∷ seen) fs in if has_finding f seen then known else fresh

-- _merge_findings_node
unfoldable pub merge_findings : List Finding → List AgentFinding → List AgentFinding
merge_findings found candidates =
    sorted compare_agent_findings (map promote_finding found ++ unique_candidates [] candidates)
