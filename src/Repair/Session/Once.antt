-- ===== src/Repair/Session/Once.antt =====
-- Which records of a snapshot an event may set.
use repo_guard.Base.{
  ◌≡◌, refl, sym, subst, ◌⊎◌, inl, inr, Bool, true, false, not, ◌&&◌, ◌||◌, and_iff, or_iff, is_eq,
  is_eq_iff, Option, none, some, List, arith, any, all, In, All-In, all-All,
}
use repo_guard.Repair.Records.{RepairSnapshot}
use repo_guard.Repair.Records.Shape.{exists, bool_eq}
use repo_guard.Repair.Session.{
  EventKind, kind_created, kind_cleanup_pending, kind_generating, kind_candidate, kind_validating,
  kind_validation_intent, kind_validation_intent_abandoned, kind_validation_run,
  kind_validation_result, kind_validated, kind_approved, kind_applying, kind_applied, kind_rejected,
  kind_cancelled, kind_expired, kind_failed, kind_application_conflict, kind_recovered,
  kind_cleanup_complete,
}
use repo_guard.Repair.Session.Updates.{
  SnapshotField, candidate_field, validation_field, approval_field, application_field,
  decision_field, failure_field, cleanup_field, SnapshotField-discrete, mutable_fields, is_kept,
  event_snapshot_changes, changes_exactly, sets_what_it_changes, mutable_update_is_valid,
}

abbrev pub was_unset : RepairSnapshot → SnapshotField → Bool
was_unset p candidate_field = not (exists p.candidate)
was_unset p validation_field = not (exists p.validation)
was_unset p approval_field = not (exists p.approval)
was_unset p application_field = not (exists p.application)
was_unset p decision_field = not (exists p.decision)
was_unset p failure_field = not (exists p.failure)
was_unset p cleanup_field = true

pub every_field : (f : SnapshotField) → In f mutable_fields
every_field candidate_field = inl refl
every_field validation_field = inr (inl refl)
every_field approval_field = inr (inr (inl refl))
every_field application_field = inr (inr (inr (inl refl)))
every_field decision_field = inr (inr (inr (inr (inl refl))))
every_field failure_field = inr (inr (inr (inr (inr (inl refl)))))
every_field cleanup_field = inr (inr (inr (inr (inr (inr (inl refl))))))

pub for_every_field :
    (test : SnapshotField → Bool)
    → all test mutable_fields ≡ true
    → (f : SnapshotField) → test f ≡ true
for_every_field test h f =
    All-In (λ g. test g ≡ true) f mutable_fields ((all-All test mutable_fields).0 h) (every_field f)

abbrev pub is_changed : Option (List SnapshotField) → SnapshotField → Bool
is_changed none f = false
is_changed (some fields) f = any (is_eq SnapshotField-discrete f) fields

pub kept_or_changed :
    (fields : Option (List SnapshotField)) (p c : RepairSnapshot)
    → changes_exactly fields p c ≡ true
    → (f : SnapshotField) → (is_kept p c f ≡ true) ⊎ (is_changed fields f ≡ true)
unfolding changes_exactly
kept_or_changed none p c h f = cc
kept_or_changed (some fields) p c h f =
    choose (is_kept p c f) (is_changed (some fields) f)
      (for_every_field (λ g. bool_eq (not (is_kept p c g)) (is_changed (some fields) g)) h f)
  where
    choose : (a b : Bool) → bool_eq (not a) b ≡ true → (a ≡ true) ⊎ (b ≡ true)
    choose true b h = inl refl
    choose false b h = inr h

pub set_was_unset :
    (kind : EventKind) (p c : RepairSnapshot) (f : SnapshotField)
    → is_changed (event_snapshot_changes kind) f ≡ true
    → sets_what_it_changes kind p c ≡ true
    → was_unset p f ≡ true
unfolding SnapshotField-discrete
set_was_unset kind p c f m s = ground arith

pub by_changes :
    (kind : EventKind) (p c : RepairSnapshot)
    → (changes_exactly (event_snapshot_changes kind) p c && sets_what_it_changes kind p c) ≡ true
    → (f : SnapshotField) → (is_kept p c f ≡ true) ⊎ (was_unset p f ≡ true)
by_changes kind p c h f =
    let (x, s) = (and_iff (changes_exactly (event_snapshot_changes kind) p c) _).0 h in
    elim (kept_or_changed (event_snapshot_changes kind) p c x f) [
      | inl k ↦ inl k
      | inr m ↦ inr (set_was_unset kind p c f m s)
    ]

-- A field that an event changes was not set.
pub update_once :
    (kind : EventKind) (p c : RepairSnapshot)
    → mutable_update_is_valid kind p c ≡ true
    → (f : SnapshotField) → (is_kept p c f ≡ true) ⊎ (was_unset p f ≡ true)
unfolding mutable_update_is_valid
update_once kind_cleanup_pending p c h f =
    let (every, _) = (and_iff _ c.cleanup_pending).0 h in
    elim ((or_iff (is_kept p c f) (is_eq SnapshotField-discrete f cleanup_field)).0 (
      for_every_field (λ g. is_kept p c g || is_eq SnapshotField-discrete g cleanup_field) every
        f)) [
          | inl k ↦ inl k
          | inr e ↦ inr (
              subst (λ g. was_unset p g ≡ true)
                (sym ((is_eq_iff SnapshotField-discrete f cleanup_field).0 e)) refl)
        ]
update_once kind_created p c h f = by_changes kind_created p c h f
update_once kind_generating p c h f = by_changes kind_generating p c h f
update_once kind_candidate p c h f = by_changes kind_candidate p c h f
update_once kind_validating p c h f = by_changes kind_validating p c h f
update_once kind_validation_intent p c h f = by_changes kind_validation_intent p c h f
update_once kind_validation_intent_abandoned p c h f =
    by_changes kind_validation_intent_abandoned p c h f
update_once kind_validation_run p c h f = by_changes kind_validation_run p c h f
update_once kind_validation_result p c h f = by_changes kind_validation_result p c h f
update_once kind_validated p c h f = by_changes kind_validated p c h f
update_once kind_approved p c h f = by_changes kind_approved p c h f
update_once kind_applying p c h f = by_changes kind_applying p c h f
update_once kind_applied p c h f = by_changes kind_applied p c h f
update_once kind_rejected p c h f = by_changes kind_rejected p c h f
update_once kind_cancelled p c h f = by_changes kind_cancelled p c h f
update_once kind_expired p c h f = by_changes kind_expired p c h f
update_once kind_failed p c h f = by_changes kind_failed p c h f
update_once kind_application_conflict p c h f = by_changes kind_application_conflict p c h f
update_once kind_recovered p c h f = by_changes kind_recovered p c h f
update_once kind_cleanup_complete p c h f = by_changes kind_cleanup_complete p c h f
