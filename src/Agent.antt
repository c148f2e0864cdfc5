-- ===== src/Agent.antt =====
-- The types of the agent review: src/repoguard/agent.py, and the provider's errors of
-- src/repoguard/providers.py. Times are whole nanoseconds.
pub mod Context
pub mod Characters
pub mod Provider
pub mod Attempts
pub mod Targets
pub mod Json
pub mod Reference
pub mod Response
pub mod Merge
pub mod Prompt
pub mod Workflow
mod Tests
use repo_guard.Base.{ℕ, List}
use repo_guard.Base.Outcome.{Outcome}

pub data AgentNode : Type 0 where
  validate deterministic_review build_prompt invoke_provider : AgentNode
  parse_response merge_findings finalize : AgentNode

pub data AgentReviewErrorCode : Type 0 where
  unsupported_evidence_schema invalid_evidence invalid_configuration : AgentReviewErrorCode
  context_limit_exceeded provider_authentication_failed provider_rate_limited : AgentReviewErrorCode
  provider_timeout provider_unavailable provider_request_failed : AgentReviewErrorCode
  provider_refused invalid_model_output budget_exceeded : AgentReviewErrorCode
  workflow_execution_failed : AgentReviewErrorCode

pub record AgentReviewError : Type 0 where
  pub code : AgentReviewErrorCode
  pub node : AgentNode
  pub attempt_count : ℕ

abbrev pub Agent : Type 0 → Type 0
Agent A = Outcome AgentReviewError A

pub record AgentReviewConfig : Type 0 where
  pub model : List ℕ
  pub max_prompt_bytes : ℕ
  pub max_output_tokens : ℕ
  pub max_response_bytes : ℕ
  pub max_model_findings : ℕ
  pub max_references_per_finding : ℕ
  pub max_title_chars : ℕ
  pub max_message_chars : ℕ
  pub max_remediation_chars : ℕ
  pub per_attempt_timeout : ℕ
  pub total_timeout : ℕ
  pub max_attempts : ℕ
