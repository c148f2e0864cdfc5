-- ===== src/Repair/Records/Write.antt =====
-- `*_to_dict` of src/repoguard/repair.py for the records of a repair session.
use repo_guard.Base.{String, Option, none, some, List, [], ◌∷◌}
use repo_guard.Text.{codes}
use repo_guard.Agent.Json.{
  Json, json_null, json_bool, json_int, json_text, json_list, json_object, Items, no_items, item,
  Fields, no_fields, with_field,
}
use repo_guard.Repair.Codes.{code_text, stage_text}
use repo_guard.Repair.Records.{
  RepairPromptIdentity, RepairContextSummary, RepairCandidate, ValidationCommandResult,
  RepairValidation, RepairApproval, RepairApplication, RepairDecision, RepairFailure,
  RepairSnapshot, state_text, outcome_text, failure_text,
}

abbrev pub to_fields : List (String × Json) → Fields
to_fields [] = no_fields
to_fields ((key, v) ∷ rest) = with_field (codes key) v (to_fields rest)

-- A dictionary display.
abbrev pub dict : List (String × Json) → Json
dict entries = json_object (to_fields entries)

abbrev pub or_null : {A : Type 0} → (A → Json) → Option A → Json
or_null write none = json_null
or_null write (some value) = write value

abbrev pub to_items : {A : Type 0} → (A → Json) → List A → Items
to_items write [] = no_items
to_items write (x ∷ xs) = item (write x) (to_items write xs)

-- [write(x) for x in xs]
abbrev pub write_list : {A : Type 0} → (A → Json) → List A → Json
write_list write xs = json_list (to_items write xs)

unfoldable pub repair_prompt_identity_to_dict : RepairPromptIdentity → Json
repair_prompt_identity_to_dict r = dict (
    ("name", json_text r.name)
    ∷ ("version", json_int r.version)
    ∷ ("system_sha256", json_text r.system_sha256)
    ∷ ("response_schema_sha256", json_text r.response_schema_sha256)
    ∷ ("combined_sha256", json_text r.combined_sha256)
    ∷ [])

unfoldable pub repair_context_summary_to_dict : RepairContextSummary → Json
repair_context_summary_to_dict r = dict (
    ("outcome", json_text (outcome_text r.outcome))
    ∷ ("index_identity_sha256", or_null json_text r.index_identity_sha256)
    ∷ ("query_sha256", or_null json_text r.query_sha256)
    ∷ ("query_count", json_int r.query_count)
    ∷ ("candidate_count", json_int r.candidate_count)
    ∷ ("selected_hit_count", json_int r.selected_hit_count)
    ∷ ("hit_identity_sha256", or_null json_text r.hit_identity_sha256)
    ∷ ("degradation_code", or_null json_text r.degradation_code)
    ∷ [])

unfoldable pub repair_candidate_to_dict : RepairCandidate → Json
unfolding repair_prompt_identity_to_dict repair_context_summary_to_dict
repair_candidate_to_dict r = dict (
    ("schema_version", json_int r.schema_version)
    ∷ ("candidate_id", json_text r.candidate_id)
    ∷ ("request_sha256", json_text r.request_sha256)
    ∷ ("prompt", repair_prompt_identity_to_dict r.prompt)
    ∷ ("context", repair_context_summary_to_dict r.context)
    ∷ ("diff_sha256", json_text r.diff_sha256)
    ∷ ("tree_oid", json_text r.tree_oid)
    ∷ ("commit_oid", json_text r.commit_oid)
    ∷ ("changed_paths", write_list json_text r.changed_paths)
    ∷ ("changed_line_count", json_int r.changed_line_count)
    ∷ ("provider_attempt_count", json_int r.provider_attempt_count)
    ∷ ("input_tokens", json_int r.input_tokens)
    ∷ ("output_tokens", json_int r.output_tokens)
    ∷ [])

unfoldable pub validation_command_result_to_dict : ValidationCommandResult → Json
validation_command_result_to_dict r = dict (
    ("command_index", json_int r.command_index)
    ∷ ("exit_code", or_null json_int r.exit_code)
    ∷ ("signal", or_null json_int r.signal)
    ∷ ("timed_out", json_bool r.timed_out)
    ∷ ("duration_us", json_int r.duration_us)
    ∷ ("stdout_sha256", json_text r.stdout_sha256)
    ∷ ("stdout_bytes", json_int r.stdout_bytes)
    ∷ ("stdout_truncated", json_bool r.stdout_truncated)
    ∷ ("stderr_sha256", json_text r.stderr_sha256)
    ∷ ("stderr_bytes", json_int r.stderr_bytes)
    ∷ ("stderr_truncated", json_bool r.stderr_truncated)
    ∷ [])

unfoldable pub repair_validation_to_dict : RepairValidation → Json
unfolding validation_command_result_to_dict
repair_validation_to_dict r = dict (
    ("schema_version", json_int r.schema_version)
    ∷ ("validation_sha256", json_text r.validation_sha256)
    ∷ ("candidate_id", json_text r.candidate_id)
    ∷ ("policy_sha256", json_text r.policy_sha256)
    ∷ ("sandbox_manifest_sha256", json_text r.sandbox_manifest_sha256)
    ∷ ("image_id", json_text r.image_id)
    ∷ ("started_at_us", json_int r.started_at_us)
    ∷ ("finished_at_us", json_int r.finished_at_us)
    ∷ ("success", json_bool r.success)
    ∷ ("failure_kind", or_null (λ k. json_text (failure_text k)) r.failure_kind)
    ∷ ("command_results", write_list validation_command_result_to_dict r.command_results)
    ∷ ("peak_memory_bytes", json_int r.peak_memory_bytes)
    ∷ ("oom_killed", json_bool r.oom_killed)
    ∷ ("residual_process_count", json_int r.residual_process_count)
    ∷ ("workspace_entry_count", json_int r.workspace_entry_count)
    ∷ ("workspace_inode_count", json_int r.workspace_inode_count)
    ∷ ("tracked_tree_clean", json_bool r.tracked_tree_clean)
    ∷ [])

unfoldable pub repair_approval_to_dict : RepairApproval → Json
repair_approval_to_dict r = dict (
    ("schema_version", json_int r.schema_version)
    ∷ ("approval_sha256", json_text r.approval_sha256)
    ∷ ("candidate_id", json_text r.candidate_id)
    ∷ ("validation_sha256", json_text r.validation_sha256)
    ∷ ("subject", json_text r.subject)
    ∷ ("confirmation", json_text r.confirmation)
    ∷ ("approved_at_us", json_int r.approved_at_us)
    ∷ [])

unfoldable pub repair_application_to_dict : RepairApplication → Json
repair_application_to_dict r = dict (
    ("schema_version", json_int r.schema_version)
    ∷ ("application_sha256", json_text r.application_sha256)
    ∷ ("approval_sha256", json_text r.approval_sha256)
    ∷ ("ref", json_text r.ref)
    ∷ ("commit_oid", json_text r.commit_oid)
    ∷ ("applied_at_us", json_int r.applied_at_us)
    ∷ [])

unfoldable pub repair_decision_to_dict : RepairDecision → Json
repair_decision_to_dict r = dict (
    ("schema_version", json_int r.schema_version)
    ∷ ("decision_sha256", json_text r.decision_sha256)
    ∷ ("state", json_text (state_text r.state))
    ∷ ("subject", json_text r.subject)
    ∷ ("reason", json_text r.reason)
    ∷ ("candidate_id", or_null json_text r.candidate_id)
    ∷ ("decided_at_us", json_int r.decided_at_us)
    ∷ [])

unfoldable pub repair_failure_to_dict : RepairFailure → Json
repair_failure_to_dict r = dict (
    ("schema_version", json_int r.schema_version)
    ∷ ("code", json_text (code_text r.code))
    ∷ ("stage", json_text (stage_text r.stage))
    ∷ ("retryable", json_bool r.retryable)
    ∷ ("occurred_at_us", json_int r.occurred_at_us)
    ∷ [])

unfoldable pub repair_snapshot_to_dict : RepairSnapshot → Json
unfolding repair_candidate_to_dict repair_validation_to_dict repair_approval_to_dict
    repair_application_to_dict repair_decision_to_dict repair_failure_to_dict
repair_snapshot_to_dict r = dict (
    ("schema_version", json_int r.schema_version)
    ∷ ("session_id", json_text r.session_id)
    ∷ ("state", json_text (state_text r.state))
    ∷ ("request_sha256", json_text r.request_sha256)
    ∷ ("created_at_us", json_int r.created_at_us)
    ∷ ("updated_at_us", json_int r.updated_at_us)
    ∷ ("target_count", json_int r.target_count)
    ∷ ("allowed_paths", write_list json_text r.allowed_paths)
    ∷ ("candidate", or_null repair_candidate_to_dict r.candidate)
    ∷ ("validation", or_null repair_validation_to_dict r.validation)
    ∷ ("approval", or_null repair_approval_to_dict r.approval)
    ∷ ("application", or_null repair_application_to_dict r.application)
    ∷ ("decision", or_null repair_decision_to_dict r.decision)
    ∷ ("failure", or_null repair_failure_to_dict r.failure)
    ∷ ("cleanup_pending", json_bool r.cleanup_pending)
    ∷ [])
