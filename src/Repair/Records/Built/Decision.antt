-- ===== src/Repair/Records/Built/Decision.antt =====
-- What the readers of approvals, applications, decisions and failures return has been built.
use repo_guard.Base.{ℕ, ◌≡◌, Bool, true, Option, List}
use repo_guard.Base.Outcome.{ok, err, ◌>>=◌, >>=-eq-ok}
use repo_guard.Repair.Codes.{
  RepairErrorCode, RepairStage, code_text, all_codes, stage_text, all_stages,
}
use repo_guard.Repair.Unicode.{Unicode}
use repo_guard.Repair.Records.{
  RepairState, state_text, all_states, RepairApproval, RepairApplication, RepairDecision,
  RepairFailure,
}
use repo_guard.Repair.Records.Checks.{
  approval_is_valid, application_is_valid, decision_is_valid, failure_is_valid,
}
use repo_guard.Repair.Records.Exact.{
  Read, exact_str, exact_int, exact_bool, enum_value, optional, field, ◌⊛◌, construct,
  exact_mapping,
}
use repo_guard.Repair.Records.Read.Decision.{
  build_repair_approval, repair_approval_keys, build_repair_application, repair_application_keys,
  build_repair_decision, repair_decision_keys, build_repair_failure, repair_failure_keys,
  repair_approval_from_dict, repair_application_from_dict, repair_decision_from_dict,
  repair_failure_from_dict,
}
use repo_guard.Repair.Records.Yields.{Yields, construct_yields}

pub approval_parts :
    (u : Unicode) (a0 : Read (ℕ)) (a1 : Read (List ℕ)) (a2 : Read (List ℕ)) (a3 : Read (List ℕ))
    (a4 : Read (List ℕ)) (a5 : Read (List ℕ)) (a6 : Read (ℕ)) (r : RepairApproval)
    → (ok build_repair_approval
        ⊛ a0
        ⊛ a1
        ⊛ a2
        ⊛ a3
        ⊛ a4
        ⊛ a5
        ⊛ a6
        >>= construct (approval_is_valid u))
      ≡ ok r
    → (approval_is_valid u r ≡ true)
approval_parts u (ok x0) (ok x1) (ok x2) (ok x3) (ok x4) (ok x5) (ok x6) r h =
    let (valid, q) = construct_yields (approval_is_valid u) _ r h in valid
approval_parts u (err e) a1 a2 a3 a4 a5 a6 r h = cc
approval_parts u (ok x0) (err e) a2 a3 a4 a5 a6 r h = cc
approval_parts u (ok x0) (ok x1) (err e) a3 a4 a5 a6 r h = cc
approval_parts u (ok x0) (ok x1) (ok x2) (err e) a4 a5 a6 r h = cc
approval_parts u (ok x0) (ok x1) (ok x2) (ok x3) (err e) a5 a6 r h = cc
approval_parts u (ok x0) (ok x1) (ok x2) (ok x3) (ok x4) (err e) a6 r h = cc
approval_parts u (ok x0) (ok x1) (ok x2) (ok x3) (ok x4) (ok x5) (err e) r h = cc

pub approval_built :
    (u : Unicode) → Yields (repair_approval_from_dict u) (λ r. approval_is_valid u r ≡ true)
unfolding repair_approval_from_dict
approval_built u v r h =
    let (m, _, h1) = >>=-eq-ok (exact_mapping repair_approval_keys v) _ h in
    let valid =
      approval_parts u (field m "schema_version" exact_int) (field m "approval_sha256" exact_str)
        (field m "candidate_id" exact_str) (field m "validation_sha256" exact_str)
        (field m "subject" exact_str) (field m "confirmation" exact_str)
        (field m "approved_at_us" exact_int) r h1 in
    valid

pub application_parts :
    (a0 : Read (ℕ)) (a1 : Read (List ℕ)) (a2 : Read (List ℕ)) (a3 : Read (List ℕ))
    (a4 : Read (List ℕ)) (a5 : Read (ℕ)) (r : RepairApplication)
    → (ok build_repair_application
        ⊛ a0
        ⊛ a1
        ⊛ a2
        ⊛ a3
        ⊛ a4
        ⊛ a5
        >>= construct (application_is_valid))
      ≡ ok r
    → (application_is_valid r ≡ true)
application_parts (ok x0) (ok x1) (ok x2) (ok x3) (ok x4) (ok x5) r h =
    let (valid, q) = construct_yields (application_is_valid) _ r h in valid
application_parts (err e) a1 a2 a3 a4 a5 r h = cc
application_parts (ok x0) (err e) a2 a3 a4 a5 r h = cc
application_parts (ok x0) (ok x1) (err e) a3 a4 a5 r h = cc
application_parts (ok x0) (ok x1) (ok x2) (err e) a4 a5 r h = cc
application_parts (ok x0) (ok x1) (ok x2) (ok x3) (err e) a5 r h = cc
application_parts (ok x0) (ok x1) (ok x2) (ok x3) (ok x4) (err e) r h = cc

pub application_built : Yields (repair_application_from_dict) (λ r. application_is_valid r ≡ true)
unfolding repair_application_from_dict
application_built v r h =
    let (m, _, h1) = >>=-eq-ok (exact_mapping repair_application_keys v) _ h in
    let valid =
      application_parts (field m "schema_version" exact_int)
        (field m "application_sha256" exact_str) (field m "approval_sha256" exact_str)
        (field m "ref" exact_str) (field m "commit_oid" exact_str)
        (field m "applied_at_us" exact_int) r h1 in
    valid

pub decision_parts :
    (u : Unicode) (a0 : Read (ℕ)) (a1 : Read (List ℕ)) (a2 : Read (RepairState))
    (a3 : Read (List ℕ)) (a4 : Read (List ℕ)) (a5 : Read (Option (List ℕ))) (a6 : Read (ℕ))
    (r : RepairDecision)
    → (ok build_repair_decision
        ⊛ a0
        ⊛ a1
        ⊛ a2
        ⊛ a3
        ⊛ a4
        ⊛ a5
        ⊛ a6
        >>= construct (decision_is_valid u))
      ≡ ok r
    → (decision_is_valid u r ≡ true)
decision_parts u (ok x0) (ok x1) (ok x2) (ok x3) (ok x4) (ok x5) (ok x6) r h =
    let (valid, q) = construct_yields (decision_is_valid u) _ r h in valid
decision_parts u (err e) a1 a2 a3 a4 a5 a6 r h = cc
decision_parts u (ok x0) (err e) a2 a3 a4 a5 a6 r h = cc
decision_parts u (ok x0) (ok x1) (err e) a3 a4 a5 a6 r h = cc
decision_parts u (ok x0) (ok x1) (ok x2) (err e) a4 a5 a6 r h = cc
decision_parts u (ok x0) (ok x1) (ok x2) (ok x3) (err e) a5 a6 r h = cc
decision_parts u (ok x0) (ok x1) (ok x2) (ok x3) (ok x4) (err e) a6 r h = cc
decision_parts u (ok x0) (ok x1) (ok x2) (ok x3) (ok x4) (ok x5) (err e) r h = cc

pub decision_built :
    (u : Unicode) → Yields (repair_decision_from_dict u) (λ r. decision_is_valid u r ≡ true)
unfolding repair_decision_from_dict
decision_built u v r h =
    let (m, _, h1) = >>=-eq-ok (exact_mapping repair_decision_keys v) _ h in
    let valid =
      decision_parts u (field m "schema_version" exact_int) (field m "decision_sha256" exact_str)
        (field m "state" (enum_value state_text all_states)) (field m "subject" exact_str)
        (field m "reason" exact_str) (field m "candidate_id" (optional exact_str))
        (field m "decided_at_us" exact_int) r h1 in
    valid

pub failure_parts :
    (a0 : Read (ℕ)) (a1 : Read (RepairErrorCode)) (a2 : Read (RepairStage)) (a3 : Read (Bool))
    (a4 : Read (ℕ)) (r : RepairFailure)
    → (ok build_repair_failure ⊛ a0 ⊛ a1 ⊛ a2 ⊛ a3 ⊛ a4 >>= construct (failure_is_valid)) ≡ ok r
    → (failure_is_valid r ≡ true)
failure_parts (ok x0) (ok x1) (ok x2) (ok x3) (ok x4) r h =
    let (valid, q) = construct_yields (failure_is_valid) _ r h in valid
failure_parts (err e) a1 a2 a3 a4 r h = cc
failure_parts (ok x0) (err e) a2 a3 a4 r h = cc
failure_parts (ok x0) (ok x1) (err e) a3 a4 r h = cc
failure_parts (ok x0) (ok x1) (ok x2) (err e) a4 r h = cc
failure_parts (ok x0) (ok x1) (ok x2) (ok x3) (err e) r h = cc

pub failure_built : Yields (repair_failure_from_dict) (λ r. failure_is_valid r ≡ true)
unfolding repair_failure_from_dict
failure_built v r h =
    let (m, _, h1) = >>=-eq-ok (exact_mapping repair_failure_keys v) _ h in
    let valid =
      failure_parts (field m "schema_version" exact_int)
        (field m "code" (enum_value code_text all_codes))
        (field m "stage" (enum_value stage_text all_stages)) (field m "retryable" exact_bool)
        (field m "occurred_at_us" exact_int) r h1 in
    valid
