-- ===== src/Repair/Records/Read/Validation.antt =====
-- `_repair_validation_from_dict` of src/repoguard/_repair_models.py, and its parts.
use repo_guard.Base.{ℕ, Bool, Option, List, [], ◌∷◌}
use repo_guard.Base.Outcome.{ok, ◌>>=◌}
use repo_guard.Text.{codes}
use repo_guard.Agent.Json.{Json}
use repo_guard.Repair.Records.{
  ValidationFailureKind, ValidationCommandResult, RepairValidation, failure_text, all_failures,
}
use repo_guard.Repair.Records.Checks.{command_result_is_valid, validation_is_valid}
use repo_guard.Repair.Records.Exact.{
  Read, exact_str, exact_int, exact_bool, optional, exact_list, enum_value, exact_mapping, field,
  ◌⊛◌, construct,
}

abbrev pub validation_command_result_keys : List (List ℕ)
validation_command_result_keys =
    codes "command_index"
    ∷ codes "exit_code"
    ∷ codes "signal"
    ∷ codes "timed_out"
    ∷ codes "duration_us"
    ∷ codes "stdout_sha256"
    ∷ codes "stdout_bytes"
    ∷ codes "stdout_truncated"
    ∷ codes "stderr_sha256"
    ∷ codes "stderr_bytes"
    ∷ codes "stderr_truncated"
    ∷ []

abbrev pub build_validation_command_result :
    ℕ
    → Option ℕ
    → Option ℕ
    → Bool
    → ℕ
    → List ℕ
    → ℕ
    → Bool
    → List ℕ
    → ℕ
    → Bool
    → ValidationCommandResult
build_validation_command_result v0 v1 v2 v3 v4 v5 v6 v7 v8 v9 v10 = record {
  command_index = v0;
  exit_code = v1;
  signal = v2;
  timed_out = v3;
  duration_us = v4;
  stdout_sha256 = v5;
  stdout_bytes = v6;
  stdout_truncated = v7;
  stderr_sha256 = v8;
  stderr_bytes = v9;
  stderr_truncated = v10;
}

unfoldable pub validation_command_result_from_dict : Json → Read ValidationCommandResult
unfolding exact_mapping
validation_command_result_from_dict value = do
  mapping ← exact_mapping validation_command_result_keys value
  built ←
      ok build_validation_command_result
      ⊛ field mapping "command_index" exact_int
      ⊛ field mapping "exit_code" (optional exact_int)
      ⊛ field mapping "signal" (optional exact_int)
      ⊛ field mapping "timed_out" exact_bool
      ⊛ field mapping "duration_us" exact_int
      ⊛ field mapping "stdout_sha256" exact_str
      ⊛ field mapping "stdout_bytes" exact_int
      ⊛ field mapping "stdout_truncated" exact_bool
      ⊛ field mapping "stderr_sha256" exact_str
      ⊛ field mapping "stderr_bytes" exact_int
      ⊛ field mapping "stderr_truncated" exact_bool
  construct command_result_is_valid built

abbrev pub repair_validation_keys : List (List ℕ)
repair_validation_keys =
    codes "schema_version"
    ∷ codes "validation_sha256"
    ∷ codes "candidate_id"
    ∷ codes "policy_sha256"
    ∷ codes "sandbox_manifest_sha256"
    ∷ codes "image_id"
    ∷ codes "started_at_us"
    ∷ codes "finished_at_us"
    ∷ codes "success"
    ∷ codes "failure_kind"
    ∷ codes "command_results"
    ∷ codes "peak_memory_bytes"
    ∷ codes "oom_killed"
    ∷ codes "residual_process_count"
    ∷ codes "workspace_entry_count"
    ∷ codes "workspace_inode_count"
    ∷ codes "tracked_tree_clean"
    ∷ []

abbrev pub build_repair_validation :
    ℕ
    → List ℕ
    → List ℕ
    → List ℕ
    → List ℕ
    → List ℕ
    → ℕ
    → ℕ
    → Bool
    → Option ValidationFailureKind
    → List ValidationCommandResult
    → ℕ
    → Bool
    → ℕ
    → ℕ
    → ℕ
    → Bool
    → RepairValidation
build_repair_validation v0 v1 v2 v3 v4 v5 v6 v7 v8 v9 v10 v11 v12 v13 v14 v15 v16 = record {
  schema_version = v0;
  validation_sha256 = v1;
  candidate_id = v2;
  policy_sha256 = v3;
  sandbox_manifest_sha256 = v4;
  image_id = v5;
  started_at_us = v6;
  finished_at_us = v7;
  success = v8;
  failure_kind = v9;
  command_results = v10;
  peak_memory_bytes = v11;
  oom_killed = v12;
  residual_process_count = v13;
  workspace_entry_count = v14;
  workspace_inode_count = v15;
  tracked_tree_clean = v16;
}

unfoldable pub repair_validation_from_dict : Json → Read RepairValidation
unfolding exact_mapping validation_command_result_from_dict
repair_validation_from_dict value = do
  mapping ← exact_mapping repair_validation_keys value
  built ←
      ok build_repair_validation
      ⊛ field mapping "schema_version" exact_int
      ⊛ field mapping "validation_sha256" exact_str
      ⊛ field mapping "candidate_id" exact_str
      ⊛ field mapping "policy_sha256" exact_str
      ⊛ field mapping "sandbox_manifest_sha256" exact_str
      ⊛ field mapping "image_id" exact_str
      ⊛ field mapping "started_at_us" exact_int
      ⊛ field mapping "finished_at_us" exact_int
      ⊛ field mapping "success" exact_bool
      ⊛ field mapping "failure_kind" (optional (enum_value failure_text all_failures))
      ⊛ field mapping "command_results" (exact_list validation_command_result_from_dict)
      ⊛ field mapping "peak_memory_bytes" exact_int
      ⊛ field mapping "oom_killed" exact_bool
      ⊛ field mapping "residual_process_count" exact_int
      ⊛ field mapping "workspace_entry_count" exact_int
      ⊛ field mapping "workspace_inode_count" exact_int
      ⊛ field mapping "tracked_tree_clean" exact_bool
  construct validation_is_valid built
