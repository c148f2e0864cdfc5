-- ===== src/Repair/Session/Held.antt =====
-- The lease that an event leaves, and the preview.
use repo_guard.Base.{◌≡◌, refl, true, Option, none, some, All, All-In, arith}
use repo_guard.Repair.Records.{RepairState, RepairSnapshot}
use repo_guard.Repair.Session.{
  EventKind, kind_created, kind_cleanup_pending, kind_generating, kind_candidate, kind_validating,
  kind_validation_intent, kind_validation_intent_abandoned, kind_validation_run,
  kind_validation_result, kind_validated, kind_approved, kind_applying, kind_applied, kind_rejected,
  kind_cancelled, kind_expired, kind_failed, kind_application_conflict, kind_recovered,
  kind_cleanup_complete, event_state_pairs, event_state_pair_is_valid, carries_lease,
}
use repo_guard.Repair.Session.Lease.{ValidationRunLease, lease_is_valid}
use repo_guard.Repair.Session.Updates.{
  lease_is_carried, lease_update_is_valid, validation_run_matches_snapshot,
}
use repo_guard.Repair.Session.Diagram.{event-In}

abbrev pub Carries : RepairState × RepairState → Type 0
Carries p = carries_lease p.1 ≡ true

pub carried_by :
    (kind : EventKind) (s t : RepairState)
    → All Carries (event_state_pairs kind)
    → event_state_pair_is_valid kind s t ≡ true
    → carries_lease t ≡ true
carried_by kind s t carries h =
    All-In Carries (s, t) (event_state_pairs kind) carries (event-In kind s t h)

pub lease_is_carried-carries :
    (kind : EventKind) (s : RepairState) (previous : Option ValidationRunLease)
    (r : ValidationRunLease)
    → lease_is_carried kind s previous (some r) ≡ true
    → carries_lease s ≡ true
unfolding lease_is_carried
lease_is_carried-carries kind s none r h = cc
lease_is_carried-carries kind s (some l) r h = ground arith

-- A lease that an event leaves stands in a state that carries one.
pub update_carries :
    (kind : EventKind) (p c : RepairSnapshot) (previous : Option ValidationRunLease)
    (r : ValidationRunLease)
    → event_state_pair_is_valid kind p.state c.state ≡ true
    → lease_update_is_valid kind c previous (some r) ≡ true
    → carries_lease c.state ≡ true
unfolding lease_update_is_valid
update_carries kind_validation_intent p c previous r m h =
    carried_by kind_validation_intent p.state c.state (refl, tt) m
update_carries kind_validation_run p c previous r m h =
    carried_by kind_validation_run p.state c.state (refl, (refl, (refl, (refl, tt)))) m
update_carries kind_validation_intent_abandoned p c previous r m h =
    carried_by kind_validation_intent_abandoned p.state c.state (refl, tt) m
update_carries kind_validation_result p c previous r m h =
    carried_by kind_validation_result p.state c.state (refl, tt) m
update_carries kind_created p c previous r m h =
    lease_is_carried-carries kind_created c.state previous r h
update_carries kind_generating p c previous r m h =
    lease_is_carried-carries kind_generating c.state previous r h
update_carries kind_candidate p c previous r m h =
    lease_is_carried-carries kind_candidate c.state previous r h
update_carries kind_validating p c previous r m h =
    lease_is_carried-carries kind_validating c.state previous r h
update_carries kind_validated p c previous r m h =
    lease_is_carried-carries kind_validated c.state previous r h
update_carries kind_approved p c previous r m h =
    lease_is_carried-carries kind_approved c.state previous r h
update_carries kind_applying p c previous r m h =
    lease_is_carried-carries kind_applying c.state previous r h
update_carries kind_applied p c previous r m h =
    lease_is_carried-carries kind_applied c.state previous r h
update_carries kind_rejected p c previous r m h =
    lease_is_carried-carries kind_rejected c.state previous r h
update_carries kind_cancelled p c previous r m h =
    lease_is_carried-carries kind_cancelled c.state previous r h
update_carries kind_expired p c previous r m h =
    lease_is_carried-carries kind_expired c.state previous r h
update_carries kind_failed p c previous r m h =
    lease_is_carried-carries kind_failed c.state previous r h
update_carries kind_application_conflict p c previous r m h =
    lease_is_carried-carries kind_application_conflict c.state previous r h
update_carries kind_recovered p c previous r m h =
    lease_is_carried-carries kind_recovered c.state previous r h
update_carries kind_cleanup_complete p c previous r m h =
    lease_is_carried-carries kind_cleanup_complete c.state previous r h
update_carries kind_cleanup_pending p c previous r m h =
    lease_is_carried-carries kind_cleanup_pending c.state previous r h

-- A lease that a session holds: of its candidate, in a state that carries one.
abbrev pub IsHeld : RepairSnapshot → ValidationRunLease → Type 0
IsHeld s r =
    (lease_is_valid r ≡ true)
    × (carries_lease s.state ≡ true)
    × (validation_run_matches_snapshot r s ≡ true)
