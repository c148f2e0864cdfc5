-- ===== src/Repair/Records/Read/Decision.antt =====
-- The mappings of approvals, applications, decisions and failures in
-- src/repoguard/_repair_models.py.
use repo_guard.Base.{ℕ, Bool, Option, List, [], ◌∷◌}
use repo_guard.Base.Outcome.{ok, ◌>>=◌}
use repo_guard.Text.{codes}
use repo_guard.Agent.Json.{Json}
use repo_guard.Repair.Unicode.{Unicode}
use repo_guard.Repair.Codes.{
  RepairErrorCode, RepairStage, code_text, all_codes, stage_text, all_stages,
}
use repo_guard.Repair.Records.{
  RepairState, RepairApproval, RepairApplication, RepairDecision, RepairFailure, state_text,
  all_states,
}
use repo_guard.Repair.Records.Checks.{
  approval_is_valid, application_is_valid, decision_is_valid, failure_is_valid,
}
use repo_guard.Repair.Records.Exact.{
  Read, exact_str, exact_int, exact_bool, optional, enum_value, exact_mapping, field, ◌⊛◌,
  construct,
}

abbrev pub repair_approval_keys : List (List ℕ)
repair_approval_keys =
    codes "schema_version"
    ∷ codes "approval_sha256"
    ∷ codes "candidate_id"
    ∷ codes "validation_sha256"
    ∷ codes "subject"
    ∷ codes "confirmation"
    ∷ codes "approved_at_us"
    ∷ []

abbrev pub build_repair_approval :
    ℕ → List ℕ → List ℕ → List ℕ → List ℕ → List ℕ → ℕ → RepairApproval
build_repair_approval v0 v1 v2 v3 v4 v5 v6 = record {
  schema_version = v0;
  approval_sha256 = v1;
  candidate_id = v2;
  validation_sha256 = v3;
  subject = v4;
  confirmation = v5;
  approved_at_us = v6;
}

unfoldable pub repair_approval_from_dict : Unicode → Json → Read RepairApproval
unfolding exact_mapping
repair_approval_from_dict u value = do
  mapping ← exact_mapping repair_approval_keys value
  built ←
      ok build_repair_approval
      ⊛ field mapping "schema_version" exact_int
      ⊛ field mapping "approval_sha256" exact_str
      ⊛ field mapping "candidate_id" exact_str
      ⊛ field mapping "validation_sha256" exact_str
      ⊛ field mapping "subject" exact_str
      ⊛ field mapping "confirmation" exact_str
      ⊛ field mapping "approved_at_us" exact_int
  construct (approval_is_valid u) built

abbrev pub repair_application_keys : List (List ℕ)
repair_application_keys =
    codes "schema_version"
    ∷ codes "application_sha256"
    ∷ codes "approval_sha256"
    ∷ codes "ref"
    ∷ codes "commit_oid"
    ∷ codes "applied_at_us"
    ∷ []

abbrev pub build_repair_application : ℕ → List ℕ → List ℕ → List ℕ → List ℕ → ℕ → RepairApplication
build_repair_application v0 v1 v2 v3 v4 v5 = record {
  schema_version = v0;
  application_sha256 = v1;
  approval_sha256 = v2;
  ref = v3;
  commit_oid = v4;
  applied_at_us = v5;
}

unfoldable pub repair_application_from_dict : Json → Read RepairApplication
unfolding exact_mapping
repair_application_from_dict value = do
  mapping ← exact_mapping repair_application_keys value
  built ←
      ok build_repair_application
      ⊛ field mapping "schema_version" exact_int
      ⊛ field mapping "application_sha256" exact_str
      ⊛ field mapping "approval_sha256" exact_str
      ⊛ field mapping "ref" exact_str
      ⊛ field mapping "commit_oid" exact_str
      ⊛ field mapping "applied_at_us" exact_int
  construct application_is_valid built

abbrev pub repair_decision_keys : List (List ℕ)
repair_decision_keys =
    codes "schema_version"
    ∷ codes "decision_sha256"
    ∷ codes "state"
    ∷ codes "subject"
    ∷ codes "reason"
    ∷ codes "candidate_id"
    ∷ codes "decided_at_us"
    ∷ []

abbrev pub build_repair_decision :
    ℕ → List ℕ → RepairState → List ℕ → List ℕ → Option (List ℕ) → ℕ → RepairDecision
build_repair_decision v0 v1 v2 v3 v4 v5 v6 = record {
  schema_version = v0;
  decision_sha256 = v1;
  state = v2;
  subject = v3;
  reason = v4;
  candidate_id = v5;
  decided_at_us = v6;
}

unfoldable pub repair_decision_from_dict : Unicode → Json → Read RepairDecision
unfolding exact_mapping
repair_decision_from_dict u value = do
  mapping ← exact_mapping repair_decision_keys value
  built ←
      ok build_repair_decision
      ⊛ field mapping "schema_version" exact_int
      ⊛ field mapping "decision_sha256" exact_str
      ⊛ field mapping "state" (enum_value state_text all_states)
      ⊛ field mapping "subject" exact_str
      ⊛ field mapping "reason" exact_str
      ⊛ field mapping "candidate_id" (optional exact_str)
      ⊛ field mapping "decided_at_us" exact_int
  construct (decision_is_valid u) built

abbrev pub repair_failure_keys : List (List ℕ)
repair_failure_keys =
    codes "schema_version"
    ∷ codes "code"
    ∷ codes "stage"
    ∷ codes "retryable"
    ∷ codes "occurred_at_us"
    ∷ []

abbrev pub build_repair_failure : ℕ → RepairErrorCode → RepairStage → Bool → ℕ → RepairFailure
build_repair_failure v0 v1 v2 v3 v4 = record {
  schema_version = v0;
  code = v1;
  stage = v2;
  retryable = v3;
  occurred_at_us = v4;
}

unfoldable pub repair_failure_from_dict : Json → Read RepairFailure
unfolding exact_mapping
repair_failure_from_dict value = do
  mapping ← exact_mapping repair_failure_keys value
  built ←
      ok build_repair_failure
      ⊛ field mapping "schema_version" exact_int
      ⊛ field mapping "code" (enum_value code_text all_codes)
      ⊛ field mapping "stage" (enum_value stage_text all_stages)
      ⊛ field mapping "retryable" exact_bool
      ⊛ field mapping "occurred_at_us" exact_int
  construct failure_is_valid built
