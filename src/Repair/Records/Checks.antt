-- ===== src/Repair/Records/Checks.antt =====
-- The checks that the records of src/repoguard/repair.py make when they are built: for each record
-- whether its `__post_init__` returns.
use repo_guard.Base.{
  ℕ, suc, Bool, true, false, not, ◌&&◌, ◌||◌, Option, none, some, List, [], ◌∷◌, leb, ◌==◌, all,
  any, length,
}
use repo_guard.Base.Outcome.{ok, err}
use repo_guard.Text.{codes, text_eq, strip_prefix, encodes, encode_utf8}
use repo_guard.Review.Validate.{is_hex_text}
use repo_guard.Repair.Unicode.{Unicode}
use repo_guard.Repair.Paths.{canonical_repository_paths, has_text}
use repo_guard.Repair.Codes.{is_retryable}
use repo_guard.Repair.Records.{
  RepairState, rejected, cancelled, expired, RepairContextOutcome, not_requested, used, degraded,
  RepairPromptIdentity, RepairContextSummary, RepairCandidate, ValidationCommandResult,
  RepairValidation, RepairApproval, RepairApplication, RepairDecision, RepairFailure,
  RepairSnapshot,
}
use repo_guard.Repair.Records.Shape.{bool_eq, exists, has_valid_shape}

-- _SHA256_PATTERN.fullmatch(value)
abbrev pub is_sha256 : List ℕ → Bool
is_sha256 value = (length value == 64) && is_hex_text value

-- _OID_PATTERN.fullmatch(value)
abbrev pub is_oid : List ℕ → Bool
is_oid value = ((length value == 40) || (length value == 64)) && is_hex_text value

abbrev is_digest_behind : Option (List ℕ) → Bool
is_digest_behind none = false
is_digest_behind (some rest) = is_sha256 rest

-- _IMAGE_PATTERN.fullmatch(value)
abbrev pub is_image : List ℕ → Bool
is_image value = is_digest_behind (strip_prefix (codes "sha256:") value)

-- A check of a value that may be None.
abbrev pub if_given : {A : Type 0} → (A → Bool) → Option A → Bool
if_given test none = true
if_given test (some value) = test value

-- _require_bounded_int
abbrev pub is_bounded : ℕ → ℕ → ℕ → Bool
is_bounded minimum maximum value = leb minimum value && leb value maximum

-- _require_text
unfoldable pub is_text : Unicode → ℕ → ℕ → List ℕ → Bool
is_text u min_bytes max_bytes value =
    encodes value
    && is_bounded min_bytes max_bytes (length (encode_utf8 value))
    && not (any u.is_other value)

-- _require_paths
unfoldable pub are_paths : Unicode → ℕ → ℕ → List (List ℕ) → Bool
are_paths u minimum maximum value = elim (canonical_repository_paths u value minimum maximum) [
  | ok paths ↦ true
  | err raised ↦ false
]

unfoldable pub prompt_identity_is_valid : Unicode → RepairPromptIdentity → Bool
prompt_identity_is_valid u r =
    is_text u 1 128 r.name
    && (r.version == 1)
    && is_sha256 r.system_sha256
    && is_sha256 r.response_schema_sha256
    && is_sha256 r.combined_sha256

abbrev is_degradation : Option (List ℕ) → Bool
is_degradation none = false
is_degradation (some code) =
    has_text code (codes "closed_index" ∷ codes "deadline_exceeded" ∷ codes "backend_failure" ∷ [])

abbrev context_fits_outcome : RepairContextOutcome → RepairContextSummary → Bool
context_fits_outcome not_requested r =
    not (exists r.index_identity_sha256 || exists r.query_sha256)
    && not (exists r.hit_identity_sha256 || exists r.degradation_code)
    && ((r.query_count == 0) && (r.candidate_count == 0) && (r.selected_hit_count == 0))
context_fits_outcome used r =
    exists r.index_identity_sha256
    && exists r.query_sha256
    && exists r.hit_identity_sha256
    && not (exists r.degradation_code)
context_fits_outcome degraded r =
    exists r.index_identity_sha256
    && exists r.query_sha256
    && is_degradation r.degradation_code
    && ((r.candidate_count == 0) && (r.selected_hit_count == 0))
    && not (exists r.hit_identity_sha256)

unfoldable pub context_summary_is_valid : RepairContextSummary → Bool
context_summary_is_valid r =
    if_given is_sha256 r.index_identity_sha256
    && if_given is_sha256 r.query_sha256
    && if_given is_sha256 r.hit_identity_sha256
    && leb r.query_count 16
    && leb r.selected_hit_count 12
    && context_fits_outcome r.outcome r

unfoldable pub candidate_is_valid : Unicode → RepairCandidate → Bool
candidate_is_valid u r =
    (r.schema_version == 1)
    && (is_sha256 r.candidate_id && is_sha256 r.request_sha256 && is_sha256 r.diff_sha256)
    && (is_oid r.tree_oid && is_oid r.commit_oid)
    && are_paths u 1 32 r.changed_paths
    && is_bounded 1 10000 r.changed_line_count
    && leb r.provider_attempt_count 3

unfoldable pub command_result_is_valid : ValidationCommandResult → Bool
command_result_is_valid r =
    leb r.command_index 7
    && (is_sha256 r.stdout_sha256 && is_sha256 r.stderr_sha256)
    && not (exists r.exit_code && exists r.signal)

-- The indices of the results are 0, 1, ..
abbrev pub are_contiguous : ℕ → List ValidationCommandResult → Bool
are_contiguous next [] = true
are_contiguous next (r ∷ rs) = (r.command_index == next) && are_contiguous (suc next) rs

abbrev pub is_zero_exit : Option ℕ → Bool
is_zero_exit none = false
is_zero_exit (some code) = code == 0

abbrev pub has_passed : ValidationCommandResult → Bool
has_passed r =
    is_zero_exit r.exit_code
    && not (exists r.signal || r.timed_out)
    && not (r.stdout_truncated || r.stderr_truncated)

abbrev pub is_nonempty : {A : Type 0} → List A → Bool
is_nonempty [] = false
is_nonempty (x ∷ xs) = true

abbrev pub success_fits : Bool → RepairValidation → Bool
success_fits false r = exists r.failure_kind
success_fits true r =
    not (exists r.failure_kind)
    && is_nonempty r.command_results
    && all has_passed r.command_results
    && not r.oom_killed
    && (r.residual_process_count == 0)
    && r.tracked_tree_clean

unfoldable pub validation_is_valid : RepairValidation → Bool
validation_is_valid r =
    (r.schema_version == 1)
    && (is_sha256 r.validation_sha256 && is_sha256 r.candidate_id)
    && (is_sha256 r.policy_sha256 && is_sha256 r.sandbox_manifest_sha256)
    && is_image r.image_id
    && leb r.started_at_us r.finished_at_us
    && leb (length r.command_results) 8
    && are_contiguous 0 r.command_results
    && success_fits r.success r

-- REPAIR_APPROVAL_CONFIRMATION
abbrev pub approval_confirmation : List ℕ
approval_confirmation =
    codes "I approve this exact RepoGuard candidate and validation result for ref-only application."

unfoldable pub approval_is_valid : Unicode → RepairApproval → Bool
approval_is_valid u r =
    (r.schema_version == 1)
    && (is_sha256 r.approval_sha256 && is_sha256 r.candidate_id && is_sha256 r.validation_sha256)
    && is_text u 1 256 r.subject
    && text_eq r.confirmation approval_confirmation

unfoldable pub application_is_valid : RepairApplication → Bool
application_is_valid r =
    (r.schema_version == 1)
    && (is_sha256 r.application_sha256 && is_sha256 r.approval_sha256)
    && is_digest_behind (strip_prefix (codes "refs/repoguard/repairs/") r.ref)
    && is_oid r.commit_oid

-- A rejection names what it rejects and says why.
abbrev decision_fits : Unicode → RepairState → RepairDecision → Bool
decision_fits u rejected r = is_text u 1 1000 r.reason && exists r.candidate_id
decision_fits u cancelled r = not (is_nonempty r.reason) || is_text u 1 1000 r.reason
decision_fits u expired r = not (is_nonempty r.reason) || is_text u 1 1000 r.reason
decision_fits u _ r = false

unfoldable pub decision_is_valid : Unicode → RepairDecision → Bool
decision_is_valid u r =
    (r.schema_version == 1)
    && is_sha256 r.decision_sha256
    && is_text u 1 256 r.subject
    && decision_fits u r.state r
    && if_given is_sha256 r.candidate_id

unfoldable pub failure_is_valid : RepairFailure → Bool
failure_is_valid r = (r.schema_version == 1) && bool_eq r.retryable (is_retryable r.code)

unfoldable pub snapshot_is_valid : Unicode → RepairSnapshot → Bool
snapshot_is_valid u r =
    (r.schema_version == 1)
    && (is_sha256 r.session_id && is_sha256 r.request_sha256)
    && leb r.created_at_us r.updated_at_us
    && is_bounded 1 16 r.target_count
    && are_paths u 1 32 r.allowed_paths
    && has_valid_shape r
