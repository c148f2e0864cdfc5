-- ===== src/Repair/Codes.antt =====
-- `RepairErrorCode` and `RepairStage` of src/repoguard/repair.py, with the values of the enums.
use repo_guard.Base.{ℕ, Bool, true, false, List, [], ◌∷◌}
use repo_guard.Text.{codes}

pub data RepairErrorCode : Type 0 where
  unsupported_evidence_schema invalid_evidence unsupported_review_schema invalid_review :
      RepairErrorCode
  identity_mismatch invalid_targets invalid_config invalid_path session_not_found : RepairErrorCode
  session_locked invalid_state session_expired session_corrupt persistence_failed : RepairErrorCode
  git_unavailable git_failed missing_object materialization_failed resource_limit : RepairErrorCode
  provider_required provider_mismatch provider_rate_limited provider_timeout : RepairErrorCode
  provider_unavailable provider_authentication provider_permission provider_bad_request :
      RepairErrorCode
  provider_invalid_response provider_failed model_response_invalid patch_invalid : RepairErrorCode
  patch_limit unsupported_platform sandbox_unavailable image_unavailable image_mismatch :
      RepairErrorCode
  validation_failed approval_required approval_mismatch invalid_decision ref_conflict :
      RepairErrorCode
  publication_failed recovery_failed cleanup_failed cancelled expired invalid_workflow :
      RepairErrorCode

pub data RepairStage : Type 0 where
  input session materialization retrieval prompt provider patch sandbox validation approval :
      RepairStage
  application persistence recovery cleanup : RepairStage

-- code.value
abbrev pub code_text : RepairErrorCode → List ℕ
code_text unsupported_evidence_schema = codes "unsupported_evidence_schema"
code_text invalid_evidence = codes "invalid_evidence"
code_text unsupported_review_schema = codes "unsupported_review_schema"
code_text invalid_review = codes "invalid_review"
code_text identity_mismatch = codes "identity_mismatch"
code_text invalid_targets = codes "invalid_targets"
code_text invalid_config = codes "invalid_config"
code_text invalid_path = codes "invalid_path"
code_text session_not_found = codes "session_not_found"
code_text session_locked = codes "session_locked"
code_text invalid_state = codes "invalid_state"
code_text session_expired = codes "session_expired"
code_text session_corrupt = codes "session_corrupt"
code_text persistence_failed = codes "persistence_failed"
code_text git_unavailable = codes "git_unavailable"
code_text git_failed = codes "git_failed"
code_text missing_object = codes "missing_object"
code_text materialization_failed = codes "materialization_failed"
code_text resource_limit = codes "resource_limit"
code_text provider_required = codes "provider_required"
code_text provider_mismatch = codes "provider_mismatch"
code_text provider_rate_limited = codes "provider_rate_limited"
code_text provider_timeout = codes "provider_timeout"
code_text provider_unavailable = codes "provider_unavailable"
code_text provider_authentication = codes "provider_authentication"
code_text provider_permission = codes "provider_permission"
code_text provider_bad_request = codes "provider_bad_request"
code_text provider_invalid_response = codes "provider_invalid_response"
code_text provider_failed = codes "provider_failed"
code_text model_response_invalid = codes "model_response_invalid"
code_text patch_invalid = codes "patch_invalid"
code_text patch_limit = codes "patch_limit"
code_text unsupported_platform = codes "unsupported_platform"
code_text sandbox_unavailable = codes "sandbox_unavailable"
code_text image_unavailable = codes "image_unavailable"
code_text image_mismatch = codes "image_mismatch"
code_text validation_failed = codes "validation_failed"
code_text approval_required = codes "approval_required"
code_text approval_mismatch = codes "approval_mismatch"
code_text invalid_decision = codes "invalid_decision"
code_text ref_conflict = codes "ref_conflict"
code_text publication_failed = codes "publication_failed"
code_text recovery_failed = codes "recovery_failed"
code_text cleanup_failed = codes "cleanup_failed"
code_text cancelled = codes "cancelled"
code_text expired = codes "expired"
code_text invalid_workflow = codes "invalid_workflow"

abbrev pub all_codes : List RepairErrorCode
all_codes =
    unsupported_evidence_schema ∷ invalid_evidence ∷ unsupported_review_schema ∷ invalid_review
    ∷ identity_mismatch ∷ invalid_targets ∷ invalid_config ∷ invalid_path ∷ session_not_found
    ∷ session_locked ∷ invalid_state ∷ session_expired ∷ session_corrupt ∷ persistence_failed
    ∷ git_unavailable ∷ git_failed ∷ missing_object ∷ materialization_failed ∷ resource_limit
    ∷ provider_required ∷ provider_mismatch ∷ provider_rate_limited ∷ provider_timeout
    ∷ provider_unavailable ∷ provider_authentication ∷ provider_permission ∷ provider_bad_request
    ∷ provider_invalid_response ∷ provider_failed ∷ model_response_invalid ∷ patch_invalid
    ∷ patch_limit ∷ unsupported_platform ∷ sandbox_unavailable ∷ image_unavailable ∷ image_mismatch
    ∷ validation_failed ∷ approval_required ∷ approval_mismatch ∷ invalid_decision ∷ ref_conflict
    ∷ publication_failed ∷ recovery_failed ∷ cleanup_failed ∷ cancelled ∷ expired ∷ invalid_workflow
    ∷ []

-- stage.value
abbrev pub stage_text : RepairStage → List ℕ
stage_text input = codes "input"
stage_text session = codes "session"
stage_text materialization = codes "materialization"
stage_text retrieval = codes "retrieval"
stage_text prompt = codes "prompt"
stage_text provider = codes "provider"
stage_text patch = codes "patch"
stage_text sandbox = codes "sandbox"
stage_text validation = codes "validation"
stage_text approval = codes "approval"
stage_text application = codes "application"
stage_text persistence = codes "persistence"
stage_text recovery = codes "recovery"
stage_text cleanup = codes "cleanup"

abbrev pub all_stages : List RepairStage
all_stages =
    input ∷ session ∷ materialization ∷ retrieval ∷ prompt ∷ provider ∷ patch ∷ sandbox ∷ validation
    ∷ approval ∷ application ∷ persistence ∷ recovery ∷ cleanup ∷ []

-- code in _RETRYABLE_CODES
abbrev pub is_retryable : RepairErrorCode → Bool
is_retryable session_locked = true
is_retryable provider_rate_limited = true
is_retryable provider_timeout = true
is_retryable provider_unavailable = true
is_retryable _ = false
