-- ===== src/Repair/Session/Updates.antt =====
-- The checks of src/repoguard/_repair_store.py on what an event changes: the snapshot, the lease of
-- the validation run and the preview.
use repo_guard.Base.{
  ℕ, Bool, true, false, not, ◌&&◌, ◌||◌, Option, none, some, List, [], ◌∷◌, ◌==◌, all, any, is_eq,
}
use repo_guard.Text.{text_eq}
use repo_guard.Repair.Paths.{texts_eq}
use repo_guard.Repair.Records.{
  RepairState, validating, RepairSnapshot, RepairCandidate-discrete, RepairValidation-discrete,
  RepairApproval-discrete, RepairApplication-discrete, RepairDecision-discrete,
  RepairFailure-discrete,
}
use repo_guard.Repair.Records.Shape.{bool_eq, exists, holds_of, state_eq}
use repo_guard.Repair.Session.{
  EventKind, kind_created, kind_candidate, kind_validation_intent, kind_validation_intent_abandoned,
  kind_validation_run, kind_validation_result, kind_validated, kind_approved, kind_applied,
  kind_rejected, kind_cancelled, kind_expired, kind_failed, kind_cleanup_complete,
  kind_cleanup_pending, carries_lease,
}
use repo_guard.Repair.Session.Lease.{ValidationRunLease, ValidationRunLease-discrete, labels_eq}

-- _SNAPSHOT_MUTABLE_FIELDS
pub data SnapshotField : Type 0 where
  candidate_field validation_field approval_field application_field : SnapshotField
  decision_field failure_field cleanup_field : SnapshotField

abbrev pub mutable_fields : List SnapshotField
mutable_fields =
    candidate_field ∷ validation_field ∷ approval_field ∷ application_field ∷ decision_field
    ∷ failure_field ∷ cleanup_field ∷ []

unfoldable pub SnapshotField-discrete : Discrete SnapshotField
SnapshotField-discrete = hlevel

abbrev pub option_eq : {A : Type 0} → Discrete A → Option A → Option A → Bool
option_eq d none none = true
option_eq d none (some b) = false
option_eq d (some a) none = false
option_eq d (some a) (some b) = is_eq d a b

-- getattr(previous, name) == getattr(current, name) for every name of _SNAPSHOT_IDENTITY_FIELDS
unfoldable pub same_identity : RepairSnapshot → RepairSnapshot → Bool
same_identity previous current =
    (previous.schema_version == current.schema_version)
    && text_eq previous.session_id current.session_id
    && text_eq previous.request_sha256 current.request_sha256
    && (previous.created_at_us == current.created_at_us)
    && (previous.target_count == current.target_count)
    && texts_eq previous.allowed_paths current.allowed_paths

-- getattr(previous, name) == getattr(current, name) for a name of _SNAPSHOT_MUTABLE_FIELDS
abbrev pub is_kept : RepairSnapshot → RepairSnapshot → SnapshotField → Bool
is_kept p c candidate_field = option_eq RepairCandidate-discrete p.candidate c.candidate
is_kept p c validation_field = option_eq RepairValidation-discrete p.validation c.validation
is_kept p c approval_field = option_eq RepairApproval-discrete p.approval c.approval
is_kept p c application_field = option_eq RepairApplication-discrete p.application c.application
is_kept p c decision_field = option_eq RepairDecision-discrete p.decision c.decision
is_kept p c failure_field = option_eq RepairFailure-discrete p.failure c.failure
is_kept p c cleanup_field = bool_eq p.cleanup_pending c.cleanup_pending

-- _EVENT_SNAPSHOT_CHANGES, which has no entry for the first event and for a pending cleanup
abbrev pub event_snapshot_changes : EventKind → Option (List SnapshotField)
event_snapshot_changes kind_created = none
event_snapshot_changes kind_cleanup_pending = none
event_snapshot_changes kind_candidate = some (candidate_field ∷ [])
event_snapshot_changes kind_validation_result = some (validation_field ∷ [])
event_snapshot_changes kind_approved = some (approval_field ∷ [])
event_snapshot_changes kind_applied = some (application_field ∷ cleanup_field ∷ [])
event_snapshot_changes kind_rejected = some (decision_field ∷ cleanup_field ∷ [])
event_snapshot_changes kind_cancelled = some (decision_field ∷ cleanup_field ∷ [])
event_snapshot_changes kind_expired = some (decision_field ∷ cleanup_field ∷ [])
event_snapshot_changes kind_failed = some (failure_field ∷ cleanup_field ∷ [])
event_snapshot_changes kind_cleanup_complete = some (cleanup_field ∷ [])
event_snapshot_changes _ = some []

-- The fields that differ are those that the kind changes.
unfoldable pub changes_exactly :
    Option (List SnapshotField) → RepairSnapshot → RepairSnapshot → Bool
changes_exactly none p c = false
changes_exactly (some fields) p c =
    all (λ f. bool_eq (not (is_kept p c f)) (any (is_eq SnapshotField-discrete f) fields))
      mutable_fields

-- A value is set that was not there.
abbrev pub is_set : {A : Type 0} → Option A → Option A → Bool
is_set previous current = not (exists previous) && exists current

abbrev pub sets_what_it_changes : EventKind → RepairSnapshot → RepairSnapshot → Bool
sets_what_it_changes kind_candidate p c = is_set p.candidate c.candidate
sets_what_it_changes kind_validation_result p c = is_set p.validation c.validation
sets_what_it_changes kind_approved p c = is_set p.approval c.approval
sets_what_it_changes kind_applied p c = is_set p.application c.application && c.cleanup_pending
sets_what_it_changes kind_rejected p c = is_set p.decision c.decision && c.cleanup_pending
sets_what_it_changes kind_cancelled p c = is_set p.decision c.decision && c.cleanup_pending
sets_what_it_changes kind_expired p c = is_set p.decision c.decision && c.cleanup_pending
sets_what_it_changes kind_failed p c = is_set p.failure c.failure && c.cleanup_pending
sets_what_it_changes kind_cleanup_complete p c = p.cleanup_pending && not c.cleanup_pending
sets_what_it_changes _ p c = true

-- _snapshot_update_is_valid behind the fields of the identity
unfoldable pub mutable_update_is_valid : EventKind → RepairSnapshot → RepairSnapshot → Bool
unfolding changes_exactly
mutable_update_is_valid kind_cleanup_pending p c =
    all (λ f. is_kept p c f || is_eq SnapshotField-discrete f cleanup_field) mutable_fields
    && c.cleanup_pending
mutable_update_is_valid kind p c =
    changes_exactly (event_snapshot_changes kind) p c && sets_what_it_changes kind p c

-- _snapshot_update_is_valid
unfoldable pub snapshot_update_is_valid : EventKind → RepairSnapshot → RepairSnapshot → Bool
unfolding same_identity mutable_update_is_valid
snapshot_update_is_valid kind previous current =
    same_identity previous current && mutable_update_is_valid kind previous current

-- _same_validation_intent
unfoldable pub same_validation_intent : ValidationRunLease → ValidationRunLease → Bool
same_validation_intent previous current =
    text_eq previous.container_name current.container_name
    && labels_eq previous.labels current.labels
    && text_eq previous.session_id current.session_id
    && text_eq previous.candidate_id current.candidate_id
    && text_eq previous.run_token_sha256 current.run_token_sha256

-- _validation_run_matches_snapshot
unfoldable pub validation_run_matches_snapshot : ValidationRunLease → RepairSnapshot → Bool
validation_run_matches_snapshot lease snapshot =
    text_eq lease.session_id snapshot.session_id
    && holds_of (λ c. text_eq lease.candidate_id c.candidate_id) snapshot.candidate

abbrev pub matches_if_given : Option ValidationRunLease → RepairSnapshot → Bool
matches_if_given none snapshot = true
matches_if_given (some lease) snapshot = validation_run_matches_snapshot lease snapshot

abbrev pub is_intent : ValidationRunLease → Bool
is_intent lease = not (exists lease.container_id)

abbrev pub is_run : ValidationRunLease → Bool
is_run lease = exists lease.container_id

abbrev pub continues_intent : Option ValidationRunLease → ValidationRunLease → Bool
continues_intent previous run =
    holds_of (λ intent. is_intent intent && same_validation_intent intent run) previous

abbrev pub lease_eq : Option ValidationRunLease → Option ValidationRunLease → Bool
lease_eq = option_eq ValidationRunLease-discrete

-- kind in {"validated", "failed", "cleanup_pending", "cleanup_complete"}
abbrev pub clears_lease : EventKind → Bool
clears_lease kind_validated = true
clears_lease kind_failed = true
clears_lease kind_cleanup_pending = true
clears_lease kind_cleanup_complete = true
clears_lease _ = false

-- kind != "cleanup_complete"
abbrev pub keeps_lease : EventKind → Bool
keeps_lease kind_cleanup_complete = false
keeps_lease _ = true

-- The last part of _validation_run_update_is_valid, for the kinds that register no lease.
unfoldable pub lease_is_carried :
    EventKind → RepairState → Option ValidationRunLease → Option ValidationRunLease → Bool
lease_is_carried kind state none current = not (exists current)
lease_is_carried kind state (some l) current = elim (lease_eq current (some l)) [
  | true ↦ keeps_lease kind && carries_lease state
  | false ↦ not (exists current) && clears_lease kind
]

-- _validation_run_update_is_valid behind the matching of both leases
unfoldable pub lease_update_is_valid :
    EventKind → RepairSnapshot → Option ValidationRunLease → Option ValidationRunLease → Bool
unfolding same_validation_intent lease_is_carried
lease_update_is_valid kind_validation_intent s previous current =
    not (exists previous) && holds_of is_intent current && not (exists s.validation)
lease_update_is_valid kind_validation_run s previous current =
    holds_of is_intent previous
    && holds_of (λ run. is_run run && continues_intent previous run) current
    && not (exists s.validation)
lease_update_is_valid kind_validation_intent_abandoned s previous current =
    holds_of is_intent previous
    && not (exists current)
    && state_eq s.state validating
    && not (exists s.validation)
lease_update_is_valid kind_validation_result s previous current =
    holds_of is_run previous && lease_eq current previous && exists s.validation
lease_update_is_valid kind s previous current = lease_is_carried kind s.state previous current

-- _validation_run_update_is_valid
unfoldable pub validation_run_update_is_valid :
    EventKind
    → RepairSnapshot
    → RepairSnapshot
    → Option ValidationRunLease
    → Option ValidationRunLease
    → Bool
unfolding validation_run_matches_snapshot lease_update_is_valid
validation_run_update_is_valid kind previous_snapshot snapshot previous current =
    matches_if_given previous previous_snapshot
    && matches_if_given current snapshot
    && lease_update_is_valid kind snapshot previous current

abbrev pub digest_eq : Option (List ℕ) → Option (List ℕ) → Bool
digest_eq none none = true
digest_eq none (some b) = false
digest_eq (some a) none = false
digest_eq (some a) (some b) = text_eq a b

-- _candidate_preview_update_is_valid
unfoldable pub candidate_preview_update_is_valid :
    EventKind → RepairSnapshot → RepairSnapshot → Option (List ℕ) → Option (List ℕ) → Bool
candidate_preview_update_is_valid kind_candidate p c previous_preview preview =
    is_set p.candidate c.candidate && is_set previous_preview preview
candidate_preview_update_is_valid kind p c previous_preview preview =
    is_kept p c candidate_field
    && digest_eq preview previous_preview
    && bool_eq (exists c.candidate) (exists preview)
