-- ===== src/Repair/Records/RoundTrip.antt =====
-- What `*_to_dict` writes and `_*_from_dict` reads, for the records of a repair session.
use repo_guard.Base.{true, ◌≡◌, refl, Option, none, some, List, [], ◌∷◌, All, arith}
use repo_guard.Base.Outcome.{ok}
use repo_guard.Agent.Json.{json_text, has_exactly}
use repo_guard.Repair.Unicode.{Unicode}
use repo_guard.Repair.Codes.{
  RepairErrorCode, RepairStage, code_text, all_codes, stage_text, all_stages,
}
use repo_guard.Repair.Records.{
  RepairState, RepairContextOutcome, not_requested, used, degraded, ValidationFailureKind,
  RepairPromptIdentity, RepairContextSummary, RepairCandidate, ValidationCommandResult,
  RepairValidation, RepairApproval, RepairApplication, RepairDecision, RepairFailure,
  RepairSnapshot, state_text, all_states, outcome_text, all_outcomes, failure_text, all_failures,
}
use repo_guard.Repair.Records.Checks.{
  prompt_identity_is_valid, context_summary_is_valid, candidate_is_valid, command_result_is_valid,
  validation_is_valid, approval_is_valid, application_is_valid, decision_is_valid, failure_is_valid,
  snapshot_is_valid,
}
use repo_guard.Repair.Records.Exact.{
  optional, read_items, member, enum_value, exact_mapping, construct,
}
use repo_guard.Repair.Records.Write.{
  or_null, to_items, repair_prompt_identity_to_dict, repair_context_summary_to_dict,
  repair_candidate_to_dict, validation_command_result_to_dict, repair_validation_to_dict,
  repair_approval_to_dict, repair_application_to_dict, repair_decision_to_dict,
  repair_failure_to_dict, repair_snapshot_to_dict,
}
use repo_guard.Repair.Records.Read.{repair_snapshot_from_dict}
use repo_guard.Repair.Records.Read.Decision.{
  repair_approval_from_dict, repair_application_from_dict, repair_decision_from_dict,
  repair_failure_from_dict,
}
use repo_guard.Repair.Records.Read.Validation.{
  validation_command_result_from_dict, repair_validation_from_dict,
}
use repo_guard.Repair.Records.Read.Candidate.{
  repair_prompt_identity_from_dict, repair_context_summary_from_dict, repair_candidate_from_dict,
}
use repo_guard.Repair.Records.ReadsBack.{
  ReadsBack, IfGiven, optional-or_null, texts_back, text_back, int_back, construct_valid,
  map-IfGiven,
}

prompt_identity_back :
    (u : Unicode) (r : RepairPromptIdentity)
    → repair_prompt_identity_from_dict u (repair_prompt_identity_to_dict r)
      ≡ construct (prompt_identity_is_valid u) r
unfolding repair_prompt_identity_from_dict repair_prompt_identity_to_dict exact_mapping has_exactly
prompt_identity_back u r = refl

outcome_back : (o : RepairContextOutcome) → member outcome_text all_outcomes (outcome_text o) ≡ ok o
outcome_back not_requested = refl
outcome_back used = refl
outcome_back degraded = refl

state_back : (s : RepairState) → member state_text all_states (state_text s) ≡ ok s
state_back s = ground arith

code_back : (c : RepairErrorCode) → member code_text all_codes (code_text c) ≡ ok c
code_back c = ground arith

stage_back : (s : RepairStage) → member stage_text all_stages (stage_text s) ≡ ok s
stage_back s = ground arith

failure_back :
    (k : ValidationFailureKind) → member failure_text all_failures (failure_text k) ≡ ok k
failure_back k = ground arith

context_summary_back :
    (r : RepairContextSummary)
    → repair_context_summary_from_dict (repair_context_summary_to_dict r)
      ≡ construct context_summary_is_valid r
unfolding repair_context_summary_from_dict repair_context_summary_to_dict exact_mapping has_exactly
context_summary_back r =
    rw
      (
        outcome_back r.outcome,
        text_back r.index_identity_sha256,
        text_back r.query_sha256,
        text_back r.hit_identity_sha256,
        text_back r.degradation_code,
      )
      refl

-- What is true of every candidate that has been built.
abbrev pub IsCandidate : Unicode → RepairCandidate → Type 0
IsCandidate u r =
    (prompt_identity_is_valid u r.prompt ≡ true)
    × (context_summary_is_valid r.context ≡ true)
    × (candidate_is_valid u r ≡ true)

candidate_reads :
    (u : Unicode) (r : RepairCandidate)
    → IsCandidate u r
    → ReadsBack (repair_candidate_from_dict u) repair_candidate_to_dict r
unfolding repair_candidate_from_dict repair_candidate_to_dict exact_mapping has_exactly
candidate_reads u r (p, c, h) = (
  refl,
  rw
      (
        prompt_identity_back u r.prompt,
        construct_valid (prompt_identity_is_valid u) r.prompt p,
        context_summary_back r.context,
        construct_valid context_summary_is_valid r.context c,
        texts_back r.changed_paths,
        construct_valid (candidate_is_valid u) r h,
      )
      refl,
)

command_result_reads :
    (r : ValidationCommandResult)
    → command_result_is_valid r ≡ true
    → validation_command_result_from_dict (validation_command_result_to_dict r) ≡ ok r
unfolding validation_command_result_from_dict validation_command_result_to_dict exact_mapping
    has_exactly
command_result_reads r h =
    rw (int_back r.exit_code, int_back r.signal, construct_valid command_result_is_valid r h) refl

abbrev pub IsValidation : RepairValidation → Type 0
IsValidation r =
    All (λ c. command_result_is_valid c ≡ true) r.command_results × (validation_is_valid r ≡ true)

results_read :
    (rs : List ValidationCommandResult)
    → All (λ c. command_result_is_valid c ≡ true) rs
    → read_items validation_command_result_from_dict (to_items validation_command_result_to_dict rs)
      ≡ ok rs
results_read [] h = refl
results_read (r ∷ rs) h = rw (command_result_reads r h.0, results_read rs h.1) refl

kind_back :
    (o : Option ValidationFailureKind)
    → optional (enum_value failure_text all_failures) (or_null (λ k. json_text (failure_text k)) o)
      ≡ ok o
kind_back none = refl
kind_back (some k) = rw (failure_back k) refl

validation_reads :
    (r : RepairValidation)
    → IsValidation r
    → ReadsBack repair_validation_from_dict repair_validation_to_dict r
unfolding repair_validation_from_dict repair_validation_to_dict exact_mapping has_exactly
validation_reads r (c, h) = (
  refl,
  rw
      (
        kind_back r.failure_kind,
        results_read r.command_results c,
        construct_valid validation_is_valid r h,
      )
      refl,
)

approval_reads :
    (u : Unicode) (r : RepairApproval)
    → approval_is_valid u r ≡ true
    → ReadsBack (repair_approval_from_dict u) repair_approval_to_dict r
unfolding repair_approval_from_dict repair_approval_to_dict exact_mapping has_exactly
approval_reads u r h = (refl, construct_valid (approval_is_valid u) r h)

application_reads :
    (r : RepairApplication)
    → application_is_valid r ≡ true
    → ReadsBack repair_application_from_dict repair_application_to_dict r
unfolding repair_application_from_dict repair_application_to_dict exact_mapping has_exactly
application_reads r h = (refl, construct_valid application_is_valid r h)

decision_reads :
    (u : Unicode) (r : RepairDecision)
    → decision_is_valid u r ≡ true
    → ReadsBack (repair_decision_from_dict u) repair_decision_to_dict r
unfolding repair_decision_from_dict repair_decision_to_dict exact_mapping has_exactly
decision_reads u r h = (
  refl,
  rw (state_back r.state, text_back r.candidate_id, construct_valid (decision_is_valid u) r h) refl,
)

failure_reads :
    (r : RepairFailure)
    → failure_is_valid r ≡ true
    → ReadsBack repair_failure_from_dict repair_failure_to_dict r
unfolding repair_failure_from_dict repair_failure_to_dict exact_mapping has_exactly
failure_reads r h =
    (refl, rw (code_back r.code, stage_back r.stage, construct_valid failure_is_valid r h) refl)

-- A snapshot that has been built from records that have been built.
pub record IsSnapshot (u : Unicode) (r : RepairSnapshot) : Type 0 where
  pub candidate_built : IfGiven (IsCandidate u) r.candidate
  pub validation_built : IfGiven IsValidation r.validation
  pub approval_built : IfGiven (λ a. approval_is_valid u a ≡ true) r.approval
  pub application_built : IfGiven (λ p. application_is_valid p ≡ true) r.application
  pub decision_built : IfGiven (λ d. decision_is_valid u d ≡ true) r.decision
  pub failure_built : IfGiven (λ f. failure_is_valid f ≡ true) r.failure
  pub is_built : snapshot_is_valid u r ≡ true

-- Every snapshot that has been built from records that have been built is read back from its JSON
-- mapping by `_repair_snapshot_from_dict`.
pub snapshot_round_trip :
    (u : Unicode) (r : RepairSnapshot)
    → IsSnapshot u r
    → repair_snapshot_from_dict u (repair_snapshot_to_dict r) ≡ ok r
unfolding repair_snapshot_from_dict repair_snapshot_to_dict exact_mapping has_exactly
snapshot_round_trip u r h =
    rw
      (
        state_back r.state,
        texts_back r.allowed_paths,
        optional-or_null (repair_candidate_from_dict u) repair_candidate_to_dict r.candidate
            (map-IfGiven r.candidate (candidate_reads u) h.candidate_built),
        optional-or_null repair_validation_from_dict repair_validation_to_dict r.validation
            (map-IfGiven r.validation validation_reads h.validation_built),
        optional-or_null (repair_approval_from_dict u) repair_approval_to_dict r.approval
            (map-IfGiven r.approval (approval_reads u) h.approval_built),
        optional-or_null repair_application_from_dict repair_application_to_dict r.application
            (map-IfGiven r.application application_reads h.application_built),
        optional-or_null (repair_decision_from_dict u) repair_decision_to_dict r.decision
            (map-IfGiven r.decision (decision_reads u) h.decision_built),
        optional-or_null repair_failure_from_dict repair_failure_to_dict r.failure
            (map-IfGiven r.failure failure_reads h.failure_built),
        construct_valid (snapshot_is_valid u) r h.is_built,
      )
      refl
