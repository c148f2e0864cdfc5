-- ===== src/Repair/Records/Read.antt =====
-- `_repair_*_from_dict` of src/repoguard/_repair_models.py for the records of a repair session.
pub mod Candidate
pub mod Validation
pub mod Decision
use repo_guard.Base.{ℕ, Bool, Option, List, [], ◌∷◌}
use repo_guard.Base.Outcome.{ok, ◌>>=◌}
use repo_guard.Text.{codes}
use repo_guard.Agent.Json.{Json}
use repo_guard.Repair.Unicode.{Unicode}
use repo_guard.Repair.Records.{
  RepairState, RepairCandidate, RepairValidation, RepairApproval, RepairApplication, RepairDecision,
  RepairFailure, RepairSnapshot, state_text, all_states,
}
use repo_guard.Repair.Records.Checks.{snapshot_is_valid}
use repo_guard.Repair.Records.Exact.{
  Read, exact_str, exact_int, exact_bool, optional, exact_list, enum_value, exact_mapping, field,
  ◌⊛◌, construct,
}
use repo_guard.Repair.Records.Read.Candidate.{repair_candidate_from_dict}
use repo_guard.Repair.Records.Read.Validation.{repair_validation_from_dict}
use repo_guard.Repair.Records.Read.Decision.{
  repair_approval_from_dict, repair_application_from_dict, repair_decision_from_dict,
  repair_failure_from_dict,
}

abbrev pub repair_snapshot_keys : List (List ℕ)
repair_snapshot_keys =
    codes "schema_version"
    ∷ codes "session_id"
    ∷ codes "state"
    ∷ codes "request_sha256"
    ∷ codes "created_at_us"
    ∷ codes "updated_at_us"
    ∷ codes "target_count"
    ∷ codes "allowed_paths"
    ∷ codes "candidate"
    ∷ codes "validation"
    ∷ codes "approval"
    ∷ codes "application"
    ∷ codes "decision"
    ∷ codes "failure"
    ∷ codes "cleanup_pending"
    ∷ []

abbrev pub build_repair_snapshot :
    ℕ
    → List ℕ
    → RepairState
    → List ℕ
    → ℕ
    → ℕ
    → ℕ
    → List (List ℕ)
    → Option RepairCandidate
    → Option RepairValidation
    → Option RepairApproval
    → Option RepairApplication
    → Option RepairDecision
    → Option RepairFailure
    → Bool
    → RepairSnapshot
build_repair_snapshot v0 v1 v2 v3 v4 v5 v6 v7 v8 v9 v10 v11 v12 v13 v14 = record {
  schema_version = v0;
  session_id = v1;
  state = v2;
  request_sha256 = v3;
  created_at_us = v4;
  updated_at_us = v5;
  target_count = v6;
  allowed_paths = v7;
  candidate = v8;
  validation = v9;
  approval = v10;
  application = v11;
  decision = v12;
  failure = v13;
  cleanup_pending = v14;
}

unfoldable pub repair_snapshot_from_dict : Unicode → Json → Read RepairSnapshot
unfolding exact_mapping repair_candidate_from_dict repair_validation_from_dict
    repair_approval_from_dict repair_application_from_dict repair_decision_from_dict
    repair_failure_from_dict
repair_snapshot_from_dict u value = do
  mapping ← exact_mapping repair_snapshot_keys value
  built ←
      ok build_repair_snapshot
      ⊛ field mapping "schema_version" exact_int
      ⊛ field mapping "session_id" exact_str
      ⊛ field mapping "state" (enum_value state_text all_states)
      ⊛ field mapping "request_sha256" exact_str
      ⊛ field mapping "created_at_us" exact_int
      ⊛ field mapping "updated_at_us" exact_int
      ⊛ field mapping "target_count" exact_int
      ⊛ field mapping "allowed_paths" (exact_list exact_str)
      ⊛ field mapping "candidate" (optional (repair_candidate_from_dict u))
      ⊛ field mapping "validation" (optional repair_validation_from_dict)
      ⊛ field mapping "approval" (optional (repair_approval_from_dict u))
      ⊛ field mapping "application" (optional repair_application_from_dict)
      ⊛ field mapping "decision" (optional (repair_decision_from_dict u))
      ⊛ field mapping "failure" (optional repair_failure_from_dict)
      ⊛ field mapping "cleanup_pending" exact_bool
  construct (snapshot_is_valid u) built
