-- ===== src/Repair/Records/Built.antt =====
-- What `_*_from_dict` returns has been built: the checks of its parts have passed.
pub mod Candidate
pub mod Validation
pub mod Decision
use repo_guard.Base.{ℕ, ◌≡◌, sym, ap, Bool, true, Option, List}
use repo_guard.Base.Outcome.{ok, err, ◌>>=◌, >>=-eq-ok}
use repo_guard.Repair.Unicode.{Unicode}
use repo_guard.Repair.Records.{
  RepairState, state_text, all_states, RepairCandidate, RepairValidation, RepairApproval,
  RepairApplication, RepairDecision, RepairFailure, RepairSnapshot,
}
use repo_guard.Repair.Records.Checks.{
  approval_is_valid, application_is_valid, decision_is_valid, failure_is_valid, snapshot_is_valid,
}
use repo_guard.Repair.Records.Exact.{
  Read, exact_str, exact_int, exact_bool, enum_value, optional, exact_list, field, ◌⊛◌, construct,
  exact_mapping,
}
use repo_guard.Repair.Records.Read.{
  build_repair_snapshot, repair_snapshot_keys, repair_snapshot_from_dict,
}
use repo_guard.Repair.Records.Read.Decision.{
  repair_approval_from_dict, repair_application_from_dict, repair_decision_from_dict,
  repair_failure_from_dict,
}
use repo_guard.Repair.Records.Read.Validation.{repair_validation_from_dict}
use repo_guard.Repair.Records.Read.Candidate.{repair_candidate_from_dict}
use repo_guard.Repair.Records.RoundTrip.{IsCandidate, IsValidation, IsSnapshot}
use repo_guard.Repair.Records.ReadsBack.{IfGiven}
use repo_guard.Repair.Records.Yields.{Yields, field_yields, construct_yields, optional_yields}
use repo_guard.Repair.Records.Built.Candidate.{from_dict-IsCandidate}
use repo_guard.Repair.Records.Built.Validation.{from_dict-IsValidation}
use repo_guard.Repair.Records.Built.Decision.{
  approval_built, application_built, decision_built, failure_built,
}

snapshot_parts :
    (u : Unicode) (a0 : Read (ℕ)) (a1 : Read (List ℕ)) (a2 : Read (RepairState))
    (a3 : Read (List ℕ)) (a4 : Read (ℕ)) (a5 : Read (ℕ)) (a6 : Read (ℕ)) (a7 : Read (List (List ℕ)))
    (a8 : Read (Option RepairCandidate)) (a9 : Read (Option RepairValidation))
    (a10 : Read (Option RepairApproval)) (a11 : Read (Option RepairApplication))
    (a12 : Read (Option RepairDecision)) (a13 : Read (Option RepairFailure)) (a14 : Read (Bool))
    (r : RepairSnapshot)
    → (ok build_repair_snapshot
        ⊛ a0
        ⊛ a1
        ⊛ a2
        ⊛ a3
        ⊛ a4
        ⊛ a5
        ⊛ a6
        ⊛ a7
        ⊛ a8
        ⊛ a9
        ⊛ a10
        ⊛ a11
        ⊛ a12
        ⊛ a13
        ⊛ a14
        >>= construct (snapshot_is_valid u))
      ≡ ok r
    → (a8 ≡ ok r.candidate)
      × (a9 ≡ ok r.validation)
      × (a10 ≡ ok r.approval)
      × (a11 ≡ ok r.application)
      × (a12 ≡ ok r.decision)
      × (a13 ≡ ok r.failure)
      × (snapshot_is_valid u r ≡ true)
snapshot_parts u (ok x0) (ok x1) (ok x2) (ok x3) (ok x4) (ok x5) (ok x6) (ok x7) (ok x8) (ok x9)
      (ok x10) (ok x11) (ok x12) (ok x13) (ok x14) r h =
    let (valid, q) = construct_yields (snapshot_is_valid u) _ r h in
    (
      ap (λ s. ok s.candidate) (sym q),
      ap (λ s. ok s.validation) (sym q),
      ap (λ s. ok s.approval) (sym q),
      ap (λ s. ok s.application) (sym q),
      ap (λ s. ok s.decision) (sym q),
      ap (λ s. ok s.failure) (sym q),
      valid,
    )
snapshot_parts u (err e) a1 a2 a3 a4 a5 a6 a7 a8 a9 a10 a11 a12 a13 a14 r h = cc
snapshot_parts u (ok x0) (err e) a2 a3 a4 a5 a6 a7 a8 a9 a10 a11 a12 a13 a14 r h = cc
snapshot_parts u (ok x0) (ok x1) (err e) a3 a4 a5 a6 a7 a8 a9 a10 a11 a12 a13 a14 r h = cc
snapshot_parts u (ok x0) (ok x1) (ok x2) (err e) a4 a5 a6 a7 a8 a9 a10 a11 a12 a13 a14 r h = cc
snapshot_parts u (ok x0) (ok x1) (ok x2) (ok x3) (err e) a5 a6 a7 a8 a9 a10 a11 a12 a13 a14 r h = cc
snapshot_parts u (ok x0) (ok x1) (ok x2) (ok x3) (ok x4) (err e) a6 a7 a8 a9 a10 a11 a12 a13 a14 r
      h =
    cc
snapshot_parts u (ok x0) (ok x1) (ok x2) (ok x3) (ok x4) (ok x5) (err e) a7 a8 a9 a10 a11 a12 a13
      a14 r h =
    cc
snapshot_parts u (ok x0) (ok x1) (ok x2) (ok x3) (ok x4) (ok x5) (ok x6) (err e) a8 a9 a10 a11 a12
      a13 a14 r h =
    cc
snapshot_parts u (ok x0) (ok x1) (ok x2) (ok x3) (ok x4) (ok x5) (ok x6) (ok x7) (err e) a9 a10 a11
      a12 a13 a14 r h =
    cc
snapshot_parts u (ok x0) (ok x1) (ok x2) (ok x3) (ok x4) (ok x5) (ok x6) (ok x7) (ok x8) (err e) a10
      a11 a12 a13 a14 r h =
    cc
snapshot_parts u (ok x0) (ok x1) (ok x2) (ok x3) (ok x4) (ok x5) (ok x6) (ok x7) (ok x8) (ok x9)
      (err e) a11 a12 a13 a14 r h =
    cc
snapshot_parts u (ok x0) (ok x1) (ok x2) (ok x3) (ok x4) (ok x5) (ok x6) (ok x7) (ok x8) (ok x9)
      (ok x10) (err e) a12 a13 a14 r h =
    cc
snapshot_parts u (ok x0) (ok x1) (ok x2) (ok x3) (ok x4) (ok x5) (ok x6) (ok x7) (ok x8) (ok x9)
      (ok x10) (ok x11) (err e) a13 a14 r h =
    cc
snapshot_parts u (ok x0) (ok x1) (ok x2) (ok x3) (ok x4) (ok x5) (ok x6) (ok x7) (ok x8) (ok x9)
      (ok x10) (ok x11) (ok x12) (err e) a14 r h =
    cc
snapshot_parts u (ok x0) (ok x1) (ok x2) (ok x3) (ok x4) (ok x5) (ok x6) (ok x7) (ok x8) (ok x9)
      (ok x10) (ok x11) (ok x12) (ok x13) (err e) r h =
    cc

pub from_dict-IsSnapshot : (u : Unicode) → Yields (repair_snapshot_from_dict u) (IsSnapshot u)
unfolding repair_snapshot_from_dict
from_dict-IsSnapshot u v r h =
    let (m, _, h1) = >>=-eq-ok (exact_mapping repair_snapshot_keys v) _ h in
    let (q0, q1, q2, q3, q4, q5, valid) =
      snapshot_parts u (field m "schema_version" exact_int) (field m "session_id" exact_str)
        (field m "state" (enum_value state_text all_states)) (field m "request_sha256" exact_str)
        (field m "created_at_us" exact_int) (field m "updated_at_us" exact_int)
        (field m "target_count" exact_int) (field m "allowed_paths" (exact_list exact_str))
        (field m "candidate" (optional (repair_candidate_from_dict u)))
        (field m "validation" (optional repair_validation_from_dict))
        (field m "approval" (optional (repair_approval_from_dict u)))
        (field m "application" (optional repair_application_from_dict))
        (field m "decision" (optional (repair_decision_from_dict u)))
        (field m "failure" (optional repair_failure_from_dict))
        (field m "cleanup_pending" exact_bool) r h1 in
    record {
      candidate_built =
          field_yields (optional (repair_candidate_from_dict u)) (IfGiven (IsCandidate u)) m
            "candidate"
            (optional_yields (repair_candidate_from_dict u) (IsCandidate u)
              (from_dict-IsCandidate u))
            q0;
      validation_built =
          field_yields (optional repair_validation_from_dict) (IfGiven IsValidation) m "validation"
            (optional_yields repair_validation_from_dict IsValidation from_dict-IsValidation) q1;
      approval_built =
          field_yields (optional (repair_approval_from_dict u))
            (IfGiven (λ a. approval_is_valid u a ≡ true)) m "approval"
            (optional_yields (repair_approval_from_dict u) (λ a. approval_is_valid u a ≡ true)
              (approval_built u))
            q2;
      application_built =
          field_yields (optional repair_application_from_dict)
            (IfGiven (λ p. application_is_valid p ≡ true)) m "application"
            (optional_yields repair_application_from_dict (λ p. application_is_valid p ≡ true)
              application_built)
            q3;
      decision_built =
          field_yields (optional (repair_decision_from_dict u))
            (IfGiven (λ d. decision_is_valid u d ≡ true)) m "decision"
            (optional_yields (repair_decision_from_dict u) (λ d. decision_is_valid u d ≡ true)
              (decision_built u))
            q4;
      failure_built =
          field_yields (optional repair_failure_from_dict)
            (IfGiven (λ f. failure_is_valid f ≡ true)) m "failure"
            (optional_yields repair_failure_from_dict (λ f. failure_is_valid f ≡ true)
              failure_built)
            q5;
      is_built = valid;
    }
