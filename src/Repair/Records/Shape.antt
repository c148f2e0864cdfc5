-- ===== src/Repair/Records/Shape.antt =====
-- `_validate_snapshot_shape` of src/repoguard/repair.py: what the parts of a snapshot say of each
-- other and of its state.
pub mod Parts
use repo_guard.Base.{
  ℕ, Bool, true, false, not, ◌&&◌, ◌||◌, Option, none, some, List, [], ◌∷◌, ◌++◌, is_eq,
}
use repo_guard.Text.{codes, text_eq}
use repo_guard.Repair.Records.{
  RepairState, created, generating, validating, validated, approved, applying, applied, rejected,
  cancelled, expired, failed, RepairState-discrete, RepairCandidate, RepairValidation,
  RepairApproval, RepairApplication, RepairDecision, RepairFailure, RepairSnapshot,
}

abbrev pub bool_eq : Bool → Bool → Bool
bool_eq true b = b
bool_eq false b = not b

abbrev pub state_eq : RepairState → RepairState → Bool
state_eq = is_eq RepairState-discrete

-- A check of a value that is there.
abbrev pub holds_of : {A : Type 0} → (A → Bool) → Option A → Bool
holds_of test none = false
holds_of test (some value) = test value

abbrev pub candidate_fits : RepairSnapshot → Option RepairCandidate → Bool
candidate_fits r none = true
candidate_fits r (some c) =
    not (state_eq r.state created) && text_eq c.request_sha256 r.request_sha256

abbrev pub validation_fits : RepairSnapshot → Option RepairValidation → Bool
validation_fits r none = true
validation_fits r (some v) = holds_of (λ c. text_eq v.candidate_id c.candidate_id) r.candidate

abbrev pub approval_fits : RepairSnapshot → Option RepairApproval → Bool
approval_fits r none = true
approval_fits r (some a) =
    holds_of (λ c. text_eq a.candidate_id c.candidate_id) r.candidate
    && holds_of (λ v. v.success && text_eq a.validation_sha256 v.validation_sha256) r.validation

-- f"refs/repoguard/repairs/{candidate_id}"
abbrev pub repair_ref : List ℕ → List ℕ
repair_ref candidate_id = codes "refs/repoguard/repairs/" ++ candidate_id

abbrev pub application_fits : RepairSnapshot → Option RepairApplication → Bool
application_fits r none = true
application_fits r (some p) =
    state_eq r.state applied
    && holds_of (λ a. text_eq p.approval_sha256 a.approval_sha256) r.approval
    && holds_of
        (λ c. text_eq p.commit_oid c.commit_oid && text_eq p.ref (repair_ref c.candidate_id))
        r.candidate

abbrev pub names_candidate : RepairSnapshot → Option (List ℕ) → Bool
names_candidate r none = true
names_candidate r (some id) = holds_of (λ c. text_eq id c.candidate_id) r.candidate

abbrev pub outcome_fits : RepairSnapshot → Option RepairDecision → Bool
outcome_fits r none = true
outcome_fits r (some d) = state_eq d.state r.state && names_candidate r d.candidate_id

abbrev pub failure_fits : RepairSnapshot → Option RepairFailure → Bool
failure_fits r none = true
failure_fits r (some f) = state_eq r.state failed

-- state in {VALIDATING, VALIDATED, APPROVED, APPLYING, APPLIED, REJECTED}
abbrev pub requires_candidate : RepairState → Bool
requires_candidate validating = true
requires_candidate validated = true
requires_candidate approved = true
requires_candidate applying = true
requires_candidate applied = true
requires_candidate rejected = true
requires_candidate _ = false

abbrev pub requires_successful_validation : RepairState → Bool
requires_successful_validation validated = true
requires_successful_validation approved = true
requires_successful_validation applying = true
requires_successful_validation applied = true
requires_successful_validation rejected = true
requires_successful_validation _ = false

abbrev pub requires_approval : RepairState → Bool
requires_approval approved = true
requires_approval applying = true
requires_approval applied = true
requires_approval _ = false

abbrev pub requires_decision : RepairState → Bool
requires_decision rejected = true
requires_decision cancelled = true
requires_decision expired = true
requires_decision _ = false

-- state in _TERMINAL_STATES
abbrev pub is_terminal : RepairState → Bool
is_terminal applied = true
is_terminal rejected = true
is_terminal cancelled = true
is_terminal expired = true
is_terminal failed = true
is_terminal _ = false

abbrev pub exists : {A : Type 0} → Option A → Bool
exists none = false
exists (some value) = true

-- What a state asks of a snapshot.
unfoldable pub has_what_state_requires : RepairSnapshot → Bool
has_what_state_requires r =
    (not (requires_candidate r.state) || exists r.candidate)
    && (not (requires_successful_validation r.state) || holds_of (λ v. v.success) r.validation)
    && (not (requires_approval r.state) || exists r.approval)
    && (not (state_eq r.state applied) || exists r.application)
    && (not (requires_decision r.state) || exists r.decision)
    && (not (state_eq r.state failed) || exists r.failure)

unfoldable pub has_valid_shape : RepairSnapshot → Bool
has_valid_shape r =
    candidate_fits r r.candidate
    && validation_fits r r.validation
    && approval_fits r r.approval
    && application_fits r r.application
    && outcome_fits r r.decision
    && failure_fits r r.failure
    && has_what_state_requires r
    && (not r.cleanup_pending || is_terminal r.state)
