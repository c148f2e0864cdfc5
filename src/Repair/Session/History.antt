-- ===== src/Repair/Session/History.antt =====
-- What the states of a session that loads say of its past.
use repo_guard.Base.{
  ℕ, ◌≡◌, sym, ◌∙◌, subst, true, not, and_iff, none, List, ◌++◌, All, all-All, all, ◌==◌,
}
use repo_guard.Base.Outcome.{ok}
use repo_guard.Text.{text_eq_iff}
use repo_guard.Repair.Unicode.{Unicode}
use repo_guard.Repair.Records.{
  applied, RepairCandidate, RepairValidation, RepairApproval, RepairApplication, RepairSnapshot,
}
use repo_guard.Repair.Records.Checks.{validation_is_valid, has_passed, is_nonempty, success_fits}
use repo_guard.Repair.Records.RoundTrip.{IsValidation}
use repo_guard.Repair.Records.ReadsBack.{IfGiven}
use repo_guard.Repair.Records.Shape.Parts.{has_valid_shape-IsShaped, IsRepaired, applied-IsRepaired}
use repo_guard.Repair.Session.Digests.{
  Hashing, candidate_digest, validation_digest, approval_digest, application_digest,
  decision_digest, digest_fits, snapshot_record_digests_are_valid,
}
use repo_guard.Repair.Session.Chain.{LoadedState, load_event_chain}
use repo_guard.Repair.Session.Event.{EventFile}
use repo_guard.Repair.Session.Step.{load_events-between}
use repo_guard.Repair.Session.Later.{IsLater, IsLater-refl, step-IsLater}
use repo_guard.Repair.Session.Invariant.{
  load_event_chain-IsSession, load_event_chain-events, snapshot_shape,
}
use repo_guard.Repair.Session.RoundTrip.{load_events-append}

-- When a chain of event files loads and a longer chain that begins with it loads too, then session,
-- request, creation time, number of targets and allowed paths are the same; a candidate,
-- validation, approval, application, decision or failure that was there is there unchanged; the
-- time of the update is no earlier; the states are joined by the diagram of the states; and a state
-- that ended the session has not changed.
pub load_event_chain-IsLater :
    (h : Hashing) (u : Unicode) (s : List ℕ) (files more : List EventFile) (a b : LoadedState)
    → load_event_chain h u s files ≡ ok a
    → load_event_chain h u s (files ++ more) ≡ ok b
    → IsLater a b
load_event_chain-IsLater h u s files more a b loads_a loads_b =
    load_events-between IsLater IsLater-refl step-IsLater h u s a a more b (IsLater-refl a) (
      sym
        (load_events-append h u s none files more a (load_event_chain-events h u s files a loads_a))
      ∙ load_event_chain-events h u s (files ++ more) b loads_b)

-- Digests that name what they are computed from.
pub record IsNamed (h : Hashing) (c : RepairCandidate) (v : RepairValidation) (a : RepairApproval)
    (p : RepairApplication) : Type 0 where
  pub candidate_named : c.candidate_id ≡ candidate_digest h c
  pub validation_named : v.validation_sha256 ≡ validation_digest h v
  pub approval_named : a.approval_sha256 ≡ approval_digest h a
  pub application_named : p.application_sha256 ≡ application_digest h p

named :
    (h : Hashing) (r : RepairSnapshot) (c : RepairCandidate) (v : RepairValidation)
    (a : RepairApproval) (p : RepairApplication)
    → snapshot_record_digests_are_valid h r ≡ true
    → IsRepaired r c v a p
    → IsNamed h c v a p
unfolding snapshot_record_digests_are_valid
named h r c v a p d i =
    let (d1, _) =
      (and_iff _ (digest_fits (λ d. d.decision_sha256) (decision_digest h) r.decision)).0 d in
    let (d2, fp) =
      (and_iff _ (digest_fits (λ p. p.application_sha256) (application_digest h) r.application)).0
        d1 in
    let (d3, fa) =
      (and_iff _ (digest_fits (λ a. a.approval_sha256) (approval_digest h) r.approval)).0 d2 in
    let (fc, fv) =
      (and_iff (digest_fits (λ c. c.candidate_id) (candidate_digest h) r.candidate)
          (digest_fits (λ v. v.validation_sha256) (validation_digest h) r.validation)).0
        d3 in
    record {
      candidate_named = (text_eq_iff _ _).0 (
          subst (λ o. digest_fits (λ c. c.candidate_id) (candidate_digest h) o ≡ true)
            i.candidate_there fc);
      validation_named = (text_eq_iff _ _).0 (
          subst (λ o. digest_fits (λ v. v.validation_sha256) (validation_digest h) o ≡ true)
            i.validation_there fv);
      approval_named = (text_eq_iff _ _).0 (
          subst (λ o. digest_fits (λ a. a.approval_sha256) (approval_digest h) o ≡ true)
            i.approval_there fa);
      application_named = (text_eq_iff _ _).0 (
          subst (λ o. digest_fits (λ p. p.application_sha256) (application_digest h) o ≡ true)
            i.application_there fp);
    }

-- Some commands ran, and each of them passed.
abbrev pub AllPassed : RepairValidation → Type 0
AllPassed v =
    (is_nonempty v.command_results ≡ true)
    × All (λ r. has_passed r ≡ true) v.command_results
    × (v.tracked_tree_clean ≡ true)

success-AllPassed :
    (v : RepairValidation) → validation_is_valid v ≡ true → v.success ≡ true → AllPassed v
unfolding validation_is_valid
success-AllPassed v h won =
    let (_, f) = (and_iff _ (success_fits v.success v)).0 h in
    let g = subst (λ b. success_fits b v ≡ true) won f in
    let (g1, clean) = (and_iff _ v.tracked_tree_clean).0 g in
    let (g2, _) = (and_iff _ (v.residual_process_count == 0)).0 g1 in
    let (g3, _) = (and_iff _ (not v.oom_killed)).0 g2 in
    let (g4, passed) = (and_iff _ (all has_passed v.command_results)).0 g3 in
    let (_, some_ran) = (and_iff _ (is_nonempty v.command_results)).0 g4 in
    (some_ran, (all-All has_passed v.command_results).0 passed, clean)

-- A session that `_load_event_chain` loads in the applied state has a candidate, a validation, an
-- approval and an application that name each other: the validation is of the candidate and a
-- success, of at least one command, each with exit code 0, no signal, no timeout and complete
-- outputs, on a clean tree; the approval is of that candidate and that validation; the application
-- is of that approval, publishes the commit of the candidate and stands at its ref; and the digest
-- of each of the four is that of its content.
pub applied_session :
    (h : Hashing) (u : Unicode) (s : List ℕ) (files : List EventFile) (l : LoadedState)
    → load_event_chain h u s files ≡ ok l
    → l.snapshot.state ≡ applied
    → (c : RepairCandidate) × (v : RepairValidation) × (a : RepairApproval)
      × (p : RepairApplication) × IsRepaired l.snapshot c v a p
      × IsNamed h c v a p
      × AllPassed v
applied_session h u s files l loads is_applied =
    let session = load_event_chain-IsSession h u s files l loads in
    let shape =
      has_valid_shape-IsShaped l.snapshot (snapshot_shape u l.snapshot session.built.is_built) in
    let (c, v, a, p, i) = applied-IsRepaired l.snapshot shape is_applied in
    let validation =
      subst (IfGiven IsValidation) i.validation_there session.built.validation_built in
    (
      c,
      v,
      a,
      p,
      i,
      named h l.snapshot c v a p session.digests_valid i,
      success-AllPassed v validation.1 i.succeeded,
    )
