-- ===== src/Repair/Records.antt =====
-- The records of src/repoguard/repair.py that a repair session is made of.
pub mod Yields
pub mod ReadsBack
pub mod Shape
pub mod Checks
pub mod Write
pub mod Exact
pub mod Read
pub mod RoundTrip
pub mod Built
use repo_guard.Base.{ℕ, ℕ_discrete, Bool, Option, List, [], ◌∷◌}
use repo_guard.Text.{codes}
use repo_guard.Repair.Codes.{RepairErrorCode, RepairStage}

pub data RepairState : Type 0 where
  created generating validating validated approved applying applied rejected cancelled : RepairState
  expired failed : RepairState

pub data RepairContextOutcome : Type 0 where
  not_requested used degraded : RepairContextOutcome

pub data ValidationFailureKind : Type 0 where
  command_exit_nonzero command_timeout command_signal output_limit resource_limit :
      ValidationFailureKind
  residual_process tracked_tree_changed sandbox_report_invalid sandbox_runtime_failed :
      ValidationFailureKind

-- RepairPromptIdentity
pub record RepairPromptIdentity : Type 0 where
  pub name : List ℕ
  pub version : ℕ
  pub system_sha256 : List ℕ
  pub response_schema_sha256 : List ℕ
  pub combined_sha256 : List ℕ

-- RepairContextSummary
pub record RepairContextSummary : Type 0 where
  pub outcome : RepairContextOutcome
  pub index_identity_sha256 : Option (List ℕ)
  pub query_sha256 : Option (List ℕ)
  pub query_count : ℕ
  pub candidate_count : ℕ
  pub selected_hit_count : ℕ
  pub hit_identity_sha256 : Option (List ℕ)
  pub degradation_code : Option (List ℕ)

-- RepairCandidate
pub record RepairCandidate : Type 0 where
  pub schema_version : ℕ
  pub candidate_id : List ℕ
  pub request_sha256 : List ℕ
  pub prompt : RepairPromptIdentity
  pub context : RepairContextSummary
  pub diff_sha256 : List ℕ
  pub tree_oid : List ℕ
  pub commit_oid : List ℕ
  pub changed_paths : List (List ℕ)
  pub changed_line_count : ℕ
  pub provider_attempt_count : ℕ
  pub input_tokens : ℕ
  pub output_tokens : ℕ

-- ValidationCommandResult
pub record ValidationCommandResult : Type 0 where
  pub command_index : ℕ
  pub exit_code : Option ℕ
  pub signal : Option ℕ
  pub timed_out : Bool
  pub duration_us : ℕ
  pub stdout_sha256 : List ℕ
  pub stdout_bytes : ℕ
  pub stdout_truncated : Bool
  pub stderr_sha256 : List ℕ
  pub stderr_bytes : ℕ
  pub stderr_truncated : Bool

-- RepairValidation
pub record RepairValidation : Type 0 where
  pub schema_version : ℕ
  pub validation_sha256 : List ℕ
  pub candidate_id : List ℕ
  pub policy_sha256 : List ℕ
  pub sandbox_manifest_sha256 : List ℕ
  pub image_id : List ℕ
  pub started_at_us : ℕ
  pub finished_at_us : ℕ
  pub success : Bool
  pub failure_kind : Option ValidationFailureKind
  pub command_results : List ValidationCommandResult
  pub peak_memory_bytes : ℕ
  pub oom_killed : Bool
  pub residual_process_count : ℕ
  pub workspace_entry_count : ℕ
  pub workspace_inode_count : ℕ
  pub tracked_tree_clean : Bool

-- RepairApproval
pub record RepairApproval : Type 0 where
  pub schema_version : ℕ
  pub approval_sha256 : List ℕ
  pub candidate_id : List ℕ
  pub validation_sha256 : List ℕ
  pub subject : List ℕ
  pub confirmation : List ℕ
  pub approved_at_us : ℕ

-- RepairApplication
pub record RepairApplication : Type 0 where
  pub schema_version : ℕ
  pub application_sha256 : List ℕ
  pub approval_sha256 : List ℕ
  pub ref : List ℕ
  pub commit_oid : List ℕ
  pub applied_at_us : ℕ

-- RepairDecision
pub record RepairDecision : Type 0 where
  pub schema_version : ℕ
  pub decision_sha256 : List ℕ
  pub state : RepairState
  pub subject : List ℕ
  pub reason : List ℕ
  pub candidate_id : Option (List ℕ)
  pub decided_at_us : ℕ

-- RepairFailure
pub record RepairFailure : Type 0 where
  pub schema_version : ℕ
  pub code : RepairErrorCode
  pub stage : RepairStage
  pub retryable : Bool
  pub occurred_at_us : ℕ

-- RepairSnapshot
pub record RepairSnapshot : Type 0 where
  pub schema_version : ℕ
  pub session_id : List ℕ
  pub state : RepairState
  pub request_sha256 : List ℕ
  pub created_at_us : ℕ
  pub updated_at_us : ℕ
  pub target_count : ℕ
  pub allowed_paths : List (List ℕ)
  pub candidate : Option RepairCandidate
  pub validation : Option RepairValidation
  pub approval : Option RepairApproval
  pub application : Option RepairApplication
  pub decision : Option RepairDecision
  pub failure : Option RepairFailure
  pub cleanup_pending : Bool

-- state.value
abbrev pub state_text : RepairState → List ℕ
state_text created = codes "created"
state_text generating = codes "generating"
state_text validating = codes "validating"
state_text validated = codes "validated"
state_text approved = codes "approved"
state_text applying = codes "applying"
state_text applied = codes "applied"
state_text rejected = codes "rejected"
state_text cancelled = codes "cancelled"
state_text expired = codes "expired"
state_text failed = codes "failed"

abbrev pub all_states : List RepairState
all_states =
    created ∷ generating ∷ validating ∷ validated ∷ approved ∷ applying ∷ applied ∷ rejected
    ∷ cancelled ∷ expired ∷ failed ∷ []

-- outcome.value
abbrev pub outcome_text : RepairContextOutcome → List ℕ
outcome_text not_requested = codes "not_requested"
outcome_text used = codes "used"
outcome_text degraded = codes "degraded"

abbrev pub all_outcomes : List RepairContextOutcome
all_outcomes = not_requested ∷ used ∷ degraded ∷ []

-- failure_kind.value
abbrev pub failure_text : ValidationFailureKind → List ℕ
failure_text command_exit_nonzero = codes "command_exit_nonzero"
failure_text command_timeout = codes "command_timeout"
failure_text command_signal = codes "command_signal"
failure_text output_limit = codes "output_limit"
failure_text resource_limit = codes "resource_limit"
failure_text residual_process = codes "residual_process"
failure_text tracked_tree_changed = codes "tracked_tree_changed"
failure_text sandbox_report_invalid = codes "sandbox_report_invalid"
failure_text sandbox_runtime_failed = codes "sandbox_runtime_failed"

abbrev pub all_failures : List ValidationFailureKind
all_failures =
    command_exit_nonzero ∷ command_timeout ∷ command_signal ∷ output_limit ∷ resource_limit
    ∷ residual_process ∷ tracked_tree_changed ∷ sandbox_report_invalid ∷ sandbox_runtime_failed ∷ []

unfoldable pub RepairState-discrete : Discrete RepairState
RepairState-discrete = hlevel

unfoldable pub RepairErrorCode-discrete : Discrete RepairErrorCode
RepairErrorCode-discrete = hlevel

unfoldable pub RepairCandidate-discrete : Discrete RepairCandidate
RepairCandidate-discrete = hlevel ℕ_discrete

unfoldable pub RepairValidation-discrete : Discrete RepairValidation
RepairValidation-discrete = hlevel ℕ_discrete

unfoldable pub RepairApproval-discrete : Discrete RepairApproval
RepairApproval-discrete = hlevel ℕ_discrete

unfoldable pub RepairApplication-discrete : Discrete RepairApplication
RepairApplication-discrete = hlevel ℕ_discrete

unfoldable pub RepairDecision-discrete : Discrete RepairDecision
RepairDecision-discrete = hlevel ℕ_discrete

unfoldable pub RepairFailure-discrete : Discrete RepairFailure
RepairFailure-discrete = hlevel ℕ_discrete
