-- ===== src/Repair/Session.antt =====
-- The states of a repair session and the events that move it: the tables of
-- src/repoguard/_repair_models.py and _repair_store.py.
pub mod Sample
pub mod Bounds
pub mod Held
pub mod Written
pub mod Once
pub mod Event
pub mod Lease
pub mod Updates
pub mod Digests
pub mod Chain
pub mod Append
pub mod Diagram
pub mod Step
pub mod Later
pub mod Invariant
pub mod RoundTrip
pub mod Tamper
pub mod History
pub mod Ended
pub mod Accepts
mod Tests
use repo_guard.Base.{Bool, true, false, ◌&&◌, ◌||◌, List, [], ◌∷◌, any, map}
use repo_guard.Text.{codes}
use repo_guard.Base.{ℕ}
use repo_guard.Repair.Records.{
  RepairState, created, generating, validating, validated, approved, applying, applied, rejected,
  cancelled, expired, failed,
}
use repo_guard.Repair.Records.Shape.{state_eq, is_terminal}

-- The members of _EVENT_KINDS.
pub data EventKind : Type 0 where
  kind_created kind_generating kind_candidate kind_validating kind_validation_intent : EventKind
  kind_validation_intent_abandoned kind_validation_run kind_validation_result : EventKind
  kind_validated kind_approved kind_applying kind_applied kind_rejected kind_cancelled : EventKind
  kind_expired kind_failed kind_application_conflict kind_recovered : EventKind
  kind_cleanup_complete kind_cleanup_pending : EventKind

abbrev pub kind_text : EventKind → List ℕ
kind_text kind_created = codes "created"
kind_text kind_generating = codes "generating"
kind_text kind_candidate = codes "candidate"
kind_text kind_validating = codes "validating"
kind_text kind_validation_intent = codes "validation_intent"
kind_text kind_validation_intent_abandoned = codes "validation_intent_abandoned"
kind_text kind_validation_run = codes "validation_run"
kind_text kind_validation_result = codes "validation_result"
kind_text kind_validated = codes "validated"
kind_text kind_approved = codes "approved"
kind_text kind_applying = codes "applying"
kind_text kind_applied = codes "applied"
kind_text kind_rejected = codes "rejected"
kind_text kind_cancelled = codes "cancelled"
kind_text kind_expired = codes "expired"
kind_text kind_failed = codes "failed"
kind_text kind_application_conflict = codes "application_conflict"
kind_text kind_recovered = codes "recovered"
kind_text kind_cleanup_complete = codes "cleanup_complete"
kind_text kind_cleanup_pending = codes "cleanup_pending"

abbrev pub event_kinds : List EventKind
event_kinds =
    kind_created ∷ kind_generating ∷ kind_candidate ∷ kind_validating ∷ kind_validation_intent
    ∷ kind_validation_intent_abandoned ∷ kind_validation_run ∷ kind_validation_result
    ∷ kind_validated ∷ kind_approved ∷ kind_applying ∷ kind_applied ∷ kind_rejected ∷ kind_cancelled
    ∷ kind_expired ∷ kind_failed ∷ kind_application_conflict ∷ kind_recovered
    ∷ kind_cleanup_complete ∷ kind_cleanup_pending ∷ []

-- _TRANSITIONS
abbrev pub transitions : RepairState → List RepairState
transitions created = generating ∷ cancelled ∷ expired ∷ []
transitions generating = validating ∷ cancelled ∷ expired ∷ failed ∷ []
transitions validating = validated ∷ cancelled ∷ expired ∷ failed ∷ []
transitions validated = approved ∷ rejected ∷ cancelled ∷ expired ∷ []
transitions approved = applying ∷ rejected ∷ cancelled ∷ expired ∷ []
transitions applying = applied ∷ approved ∷ cancelled ∷ failed ∷ []
transitions applied = []
transitions rejected = []
transitions cancelled = []
transitions expired = []
transitions failed = []

-- _can_transition
unfoldable pub can_transition : RepairState → RepairState → Bool
can_transition current target = any (state_eq target) (transitions current)

-- _can_transition_or_same
unfoldable pub can_transition_or_same : RepairState → RepairState → Bool
unfolding can_transition
can_transition_or_same previous current =
    state_eq previous current || can_transition previous current

-- (state, state) for the states
abbrev stays_in : List RepairState → List (RepairState × RepairState)
stays_in = map (λ s. (s, s))

abbrev leads_to : RepairState → List RepairState → List (RepairState × RepairState)
leads_to target = map (λ s. (s, target))

abbrev terminal_states : List RepairState
terminal_states = applied ∷ rejected ∷ cancelled ∷ expired ∷ failed ∷ []

-- _EVENT_STATE_PAIRS, which has no entry for the first event
abbrev pub event_state_pairs : EventKind → List (RepairState × RepairState)
event_state_pairs kind_created = []
event_state_pairs kind_generating = leads_to generating (created ∷ [])
event_state_pairs kind_candidate = stays_in (generating ∷ [])
event_state_pairs kind_validating = leads_to validating (generating ∷ [])
event_state_pairs kind_validation_intent = stays_in (validating ∷ [])
event_state_pairs kind_validation_intent_abandoned = stays_in (validating ∷ [])
event_state_pairs kind_validation_run = stays_in (validating ∷ cancelled ∷ expired ∷ failed ∷ [])
event_state_pairs kind_validation_result = stays_in (validating ∷ [])
event_state_pairs kind_validated = leads_to validated (validating ∷ [])
event_state_pairs kind_approved = leads_to approved (validated ∷ [])
event_state_pairs kind_applying = leads_to applying (approved ∷ [])
event_state_pairs kind_applied = leads_to applied (applying ∷ [])
event_state_pairs kind_rejected = leads_to rejected (validated ∷ approved ∷ [])
event_state_pairs kind_cancelled =
    leads_to cancelled (created ∷ generating ∷ validating ∷ validated ∷ approved ∷ [])
event_state_pairs kind_expired =
    leads_to expired (created ∷ generating ∷ validating ∷ validated ∷ approved ∷ [])
event_state_pairs kind_failed = leads_to failed (generating ∷ validating ∷ [])
event_state_pairs kind_application_conflict = leads_to approved (applying ∷ [])
event_state_pairs kind_recovered = leads_to approved (applying ∷ [])
event_state_pairs kind_cleanup_complete = stays_in terminal_states
event_state_pairs kind_cleanup_pending = stays_in terminal_states

-- _event_state_pair_is_valid
unfoldable pub event_state_pair_is_valid : EventKind → RepairState → RepairState → Bool
unfolding can_transition_or_same
event_state_pair_is_valid kind previous current =
    any (λ p. state_eq previous p.0 && state_eq current p.1) (event_state_pairs kind)
    && can_transition_or_same previous current

-- state in _LEASE_CARRY_STATES
abbrev pub carries_lease : RepairState → Bool
carries_lease validating = true
carries_lease cancelled = true
carries_lease expired = true
carries_lease failed = true
carries_lease _ = false
