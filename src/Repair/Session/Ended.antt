-- ===== src/Repair/Session/Ended.antt =====
-- What `append` refuses, and what it accepts, for a session that loads.
use repo_guard.Base.{
  ℕ, ◌≡◌, refl, sym, ap, ◌∙◌, subst, ◌⊎◌, inl, inr, Bool, true, false, ◌||◌, and_iff, or_iff, is_eq,
  is_eq_iff, some, List, [], ◌∷◌, All, All-In,
}
use repo_guard.Base.Outcome.{ok, ok-injective}
use repo_guard.Repair.Unicode.{Unicode}
use repo_guard.Repair.Records.{
  RepairState, RepairSnapshot, RepairCandidate-discrete, RepairValidation-discrete,
  RepairApproval-discrete, RepairApplication-discrete, RepairDecision-discrete,
  RepairFailure-discrete,
}
use repo_guard.Repair.Records.Shape.{is_terminal}
use repo_guard.Repair.Session.{
  EventKind, kind_created, kind_cleanup_pending, kind_generating, kind_candidate, kind_validating,
  kind_validation_intent, kind_validation_intent_abandoned, kind_validation_run,
  kind_validation_result, kind_validated, kind_approved, kind_applying, kind_applied, kind_rejected,
  kind_cancelled, kind_expired, kind_failed, kind_application_conflict, kind_recovered,
  kind_cleanup_complete, event_state_pairs, event_state_pair_is_valid,
}
use repo_guard.Repair.Session.Updates.{
  SnapshotField, SnapshotField-discrete, cleanup_field, candidate_field, validation_field,
  approval_field, application_field, decision_field, failure_field, is_kept,
  mutable_update_is_valid, snapshot_update_is_valid, same_identity, changes_exactly,
}
use repo_guard.Repair.Session.Diagram.{event-In, event-⟶}
use repo_guard.Repair.Session.Digests.{Hashing}
use repo_guard.Repair.Session.Chain.{LoadedState, load_event_chain}
use repo_guard.Repair.Session.Append.{SessionFiles, Update, append, loaded_behind}
use repo_guard.Repair.Session.Step.{follows_previous-IsStep}
use repo_guard.Repair.Session.Later.{option_eq_iff, step-ends, same_identity-identity, identity}
use repo_guard.Repair.Session.Once.{kept_or_changed, for_every_field}
use repo_guard.Repair.Session.RoundTrip.{append-inv}
use repo_guard.Repair.Session.Written.{check_update-IsChecked}

-- The kinds of event that a session takes when it has ended.
pub data IsCleanup : EventKind → Type 0 where
  late_run : IsCleanup kind_validation_run
  complete : IsCleanup kind_cleanup_complete
  pending : IsCleanup kind_cleanup_pending

abbrev EndsOrCleans : EventKind → RepairState × RepairState → Type 0
EndsOrCleans kind p = (is_terminal p.0 ≡ false) ⊎ IsCleanup kind

ends_or_cleans : (kind : EventKind) → All (EndsOrCleans kind) (event_state_pairs kind)
ends_or_cleans kind_created = tt
ends_or_cleans kind_generating = (inl refl, tt)
ends_or_cleans kind_candidate = (inl refl, tt)
ends_or_cleans kind_validating = (inl refl, tt)
ends_or_cleans kind_validation_intent = (inl refl, tt)
ends_or_cleans kind_validation_intent_abandoned = (inl refl, tt)
ends_or_cleans kind_validation_run =
    (inr late_run, (inr late_run, (inr late_run, (inr late_run, tt))))
ends_or_cleans kind_validation_result = (inl refl, tt)
ends_or_cleans kind_validated = (inl refl, tt)
ends_or_cleans kind_approved = (inl refl, tt)
ends_or_cleans kind_applying = (inl refl, tt)
ends_or_cleans kind_applied = (inl refl, tt)
ends_or_cleans kind_rejected = (inl refl, (inl refl, tt))
ends_or_cleans kind_cancelled = (inl refl, (inl refl, (inl refl, (inl refl, (inl refl, tt)))))
ends_or_cleans kind_expired = (inl refl, (inl refl, (inl refl, (inl refl, (inl refl, tt)))))
ends_or_cleans kind_failed = (inl refl, (inl refl, tt))
ends_or_cleans kind_application_conflict = (inl refl, tt)
ends_or_cleans kind_recovered = (inl refl, tt)
ends_or_cleans kind_cleanup_complete =
    (inr complete, (inr complete, (inr complete, (inr complete, (inr complete, tt)))))
ends_or_cleans kind_cleanup_pending =
    (inr pending, (inr pending, (inr pending, (inr pending, (inr pending, tt)))))

ended-IsCleanup :
    (kind : EventKind) (s t : RepairState)
    → event_state_pair_is_valid kind s t ≡ true
    → is_terminal s ≡ true
    → IsCleanup kind
ended-IsCleanup kind s t h ended =
    elim (All-In (EndsOrCleans kind) (s, t) (event_state_pairs kind) (ends_or_cleans kind)
      (event-In kind s t h)) [ inl not_ended ↦ cc | inr cleans ↦ cleans ]

abbrev is_record : SnapshotField → Bool
is_record cleanup_field = false
is_record _ = true

record_is_kept :
    (f : SnapshotField) (k : Bool)
    → is_record f ≡ true
    → (k || is_eq SnapshotField-discrete f cleanup_field) ≡ true
    → k ≡ true
record_is_kept f true r h = refl
record_is_kept f false r h =
    let e = (is_eq_iff SnapshotField-discrete f cleanup_field).0 h in let n = ap is_record e in cc

cleanup_keeps :
    (kind : EventKind) (p c : RepairSnapshot)
    → IsCleanup kind
    → mutable_update_is_valid kind p c ≡ true
    → (f : SnapshotField) → is_record f ≡ true
    → is_kept p c f ≡ true
unfolding mutable_update_is_valid
cleanup_keeps _ p c late_run h f r =
    elim (kept_or_changed (some []) p c ((and_iff (changes_exactly (some []) p c) true).0 h).0 f) [
      | inl k ↦ k
      | inr e ↦ cc
    ]
cleanup_keeps _ p c complete h f r = record_is_kept f (is_kept p c f) r (
    (or_iff (is_kept p c f) (is_eq SnapshotField-discrete f cleanup_field)).1
      (elim (kept_or_changed (some (cleanup_field ∷ [])) p c
        ((and_iff (changes_exactly (some (cleanup_field ∷ [])) p c) _).0 h).0 f) [
          | inl k ↦ inl k
          | inr e ↦ inr (either _ e)
        ]))
  where
    either : (b : Bool) → (b || false) ≡ true → b ≡ true
    either true e = refl
    either false e = e
cleanup_keeps _ p c pending h f r = record_is_kept f (is_kept p c f) r (
    for_every_field (λ g. is_kept p c g || is_eq SnapshotField-discrete g cleanup_field)
      ((and_iff _ c.cleanup_pending).0 h).0 f)

-- Two snapshots of one session and state with the same records.
pub record HasSameRecords (a b : RepairSnapshot) : Type 0 where
  pub state_same : b.state ≡ a.state
  pub identity_same : identity b ≡ identity a
  pub candidate_same : b.candidate ≡ a.candidate
  pub validation_same : b.validation ≡ a.validation
  pub approval_same : b.approval ≡ a.approval
  pub application_same : b.application ≡ a.application
  pub decision_same : b.decision ≡ a.decision
  pub failure_same : b.failure ≡ a.failure

-- To a session in a state that ends it `append` takes only the late start of a container and the
-- two events of the cleanup, and afterwards the state, the identity and all six records are what
-- they were.
pub append_behind_end :
    (h : Hashing) (u : Unicode) (s : List ℕ) (x : Update) (files after : SessionFiles)
    (current l : LoadedState)
    → load_event_chain h u s files.events ≡ ok current
    → is_terminal current.snapshot.state ≡ true
    → append h u s x files ≡ ok (after, l)
    → IsCleanup x.kind × HasSameRecords current.snapshot l.snapshot
unfolding snapshot_update_is_valid
append_behind_end h u s x files after current l loads ended returns =
    let (now, run, next, _, c, _, n, _, is_l) = append-inv h u s x files after l returns in
    let same = ok-injective (sym c ∙ loads) in
    let checked = check_update-IsChecked h s now x run files.preview next n in
    let step =
      follows_previous-IsStep x.kind now (loaded_behind h now x run next) checked.follows refl in
    let p = now.snapshot in
    let q = x.snapshot in
    let end = subst (λ z. is_terminal z.snapshot.state ≡ true) (sym same) ended in
    let cleans = ended-IsCleanup x.kind p.state q.state step.moved end in
    let (i, m) =
      (and_iff (same_identity p q) (mutable_update_is_valid x.kind p q)).0 step.snapshot_updated in
    let keeps = cleanup_keeps x.kind p q cleans m in
    let kept : HasSameRecords p q = record {
      state_same = step-ends p.state q.state (event-⟶ x.kind p.state q.state step.moved) end;
      identity_same = same_identity-identity p q i;
      candidate_same = option_eq_iff RepairCandidate-discrete _ _ (keeps candidate_field refl);
      validation_same = option_eq_iff RepairValidation-discrete _ _ (keeps validation_field refl);
      approval_same = option_eq_iff RepairApproval-discrete _ _ (keeps approval_field refl);
      application_same =
          option_eq_iff RepairApplication-discrete _ _ (keeps application_field refl);
      decision_same = option_eq_iff RepairDecision-discrete _ _ (keeps decision_field refl);
      failure_same = option_eq_iff RepairFailure-discrete _ _ (keeps failure_field refl);
    } in
    (
      cleans,
      subst (λ z. HasSameRecords z.snapshot l.snapshot) same
          (subst (λ z. HasSameRecords p z.snapshot) (sym is_l) kept),
    )
