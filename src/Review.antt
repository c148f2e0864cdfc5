-- ===== src/Review.antt =====
-- src/repoguard/review.py: findings, and the errors of a review.
pub mod Validate
pub mod Markers
pub mod Additions
pub mod Texts
pub mod Pairs
pub mod Rules
pub mod Canonical
pub mod Engine
mod Tests
use repo_guard.Base.{ℕ, String, Option, List, ℕ_discrete}
use repo_guard.Evidence.{RepositoryEvidence, RevisionEvidence}

pub data RuleId : Type 0 where
  private_key_material merge_conflict_marker executable_bit_added : RuleId
  symlink_changed submodule_changed binary_content_changed : RuleId

pub data FindingCategory : Type 0 where
  security correctness reviewability supply_chain : FindingCategory

pub data FindingSeverity : Type 0 where
  info low medium high critical : FindingSeverity

pub data EvidenceSide : Type 0 where
  old new : EvidenceSide

pub data ReviewErrorCode : Type 0 where
  unsupported_evidence_schema invalid_evidence rule_execution_failed : ReviewErrorCode

pub record ReviewError : Type 0 where
  pub code : ReviewErrorCode
  pub message : String

pub record EvidenceReference : Type 0 where
  pub path : List ℕ
  pub side : EvidenceSide
  pub oid : List ℕ
  pub start_line : Option ℕ
  pub end_line : Option ℕ

-- `references` is never empty: its first item is a field of its own.
pub record Finding : Type 0 where
  pub rule_id : RuleId
  pub category : FindingCategory
  pub severity : FindingSeverity
  pub title : String
  pub message : String
  pub remediation : String
  pub first_reference : EvidenceReference
  pub more_references : List EvidenceReference

pub record ReviewResult : Type 0 where
  pub repository : RepositoryEvidence
  pub revisions : RevisionEvidence
  pub findings : List Finding
  pub schema_version : ℕ

unfoldable pub RuleId-discrete : Discrete RuleId
RuleId-discrete = hlevel

unfoldable pub EvidenceReference-discrete : Discrete EvidenceReference
EvidenceReference-discrete = hlevel ℕ_discrete
