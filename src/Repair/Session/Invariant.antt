-- ===== src/Repair/Session/Invariant.antt =====
-- What holds of every session that loads.
use repo_guard.Base.{
  ℕ, ◌≡◌, refl, sym, ap, ◌∙◌, subst, ◌⊎◌, inl, inr, true, false, not, and_iff, Option, none, some,
  List, [], ◌∷◌, arith, is_eq_iff,
}
use repo_guard.Base.Outcome.{ok, >>=-eq-ok, ok-injective}
use repo_guard.Agent.Json.{Fields}
use repo_guard.Repair.Unicode.{Unicode}
use repo_guard.Repair.Records.{
  RepairState, created, RepairCandidate, RepairSnapshot, RepairState-discrete,
}
use repo_guard.Repair.Records.Shape.{state_eq, exists, has_valid_shape, candidate_fits}
use repo_guard.Repair.Records.Shape.Parts.{has_valid_shape-IsShaped}
use repo_guard.Repair.Records.Checks.{is_sha256, if_given, snapshot_is_valid}
use repo_guard.Repair.Records.RoundTrip.{IsSnapshot}
use repo_guard.Repair.Records.ReadsBack.{IfGiven}
use repo_guard.Repair.Records.Built.{from_dict-IsSnapshot}
use repo_guard.Repair.Session.{EventKind, event_state_pair_is_valid}
use repo_guard.Repair.Session.Lease.{ValidationRunLease}
use repo_guard.Repair.Session.Lease.RoundTrip.{IsLease, optional-IsLease}
use repo_guard.Repair.Session.Updates.{
  lease_update_is_valid, validation_run_matches_snapshot, validation_run_update_is_valid,
  candidate_preview_update_is_valid,
}
use repo_guard.Repair.Session.Digests.{Hashing, snapshot_record_digests_are_valid}
use repo_guard.Repair.Session.Diagram.{◌⟶◌, ◌⟶*◌, here, then, event-⟶}
use repo_guard.Repair.Session.Step.{some_same, follows_previous-IsStep}
use repo_guard.Repair.Session.Chain.{
  LoadedState, follows_previous, load_event, load_events, load_event_chain, or_missing,
}
use repo_guard.Repair.Session.Event.{EventFile, EventRecord}
use repo_guard.Repair.Session.Chain.Loaded.{IsLoaded, load_event-inv, load_mapping-IsLoaded}
use repo_guard.Repair.Session.Held.{update_carries, IsHeld}

pub record IsSession (h : Hashing) (u : Unicode) (session_id : List ℕ) (l : LoadedState)
    : Type 0 where
  pub reached : created ⟶* l.snapshot.state
  pub built : IsSnapshot u l.snapshot
  pub digests_valid : snapshot_record_digests_are_valid h l.snapshot ≡ true
  pub of_session : l.snapshot.session_id ≡ session_id
  pub run_held : IfGiven (IsHeld l.snapshot) l.validation_run
  pub preview_digest : if_given is_sha256 l.preview_sha256 ≡ true
  pub preview_named : exists l.preview_sha256 ≡ exists l.snapshot.candidate
  pub timed : l.event_timestamp_us ≡ l.snapshot.updated_at_us

preview_follows :
    (kind : EventKind) (p c : RepairSnapshot) (a b : Option (List ℕ))
    → candidate_preview_update_is_valid kind p c a b ≡ true
    → exists b ≡ exists c.candidate
unfolding candidate_preview_update_is_valid
preview_follows kind p c a b h = ground arith

pub snapshot_shape :
    (u : Unicode) (s : RepairSnapshot) → snapshot_is_valid u s ≡ true → has_valid_shape s ≡ true
unfolding snapshot_is_valid
snapshot_shape u s h = ((and_iff _ (has_valid_shape s)).0 h).1

run_stays :
    (kind : EventKind) (p c : RepairSnapshot) (a b : Option ValidationRunLease)
    → event_state_pair_is_valid kind p.state c.state ≡ true
    → validation_run_update_is_valid kind p c a b ≡ true
    → IfGiven IsLease b
    → IfGiven (IsHeld c) b
unfolding validation_run_update_is_valid
run_stays kind p c a none m v g = tt
run_stays kind p c a (some r) m v g =
    let (v1, w) = (and_iff _ (lease_update_is_valid kind c a (some r))).0 v in
    let (_, x) = (and_iff _ (validation_run_matches_snapshot r c)).0 v1 in
    (g, update_carries kind p c a r m w, x)

no_preview :
    (o : Option (List ℕ)) (s : RepairSnapshot)
    → not (exists o) ≡ true
    → s.state ≡ created
    → candidate_fits s s.candidate ≡ true
    → exists o ≡ exists s.candidate
no_preview (some d) s n k v = cc
no_preview none s n k v = none_yet s.candidate v
  where
    none_yet : (c : Option RepairCandidate) → candidate_fits s c ≡ true → false ≡ exists c
    none_yet none v = refl
    none_yet (some c) v =
        let (a, _) = (and_iff (not (state_eq s.state created)) _).0 v in
        let b = (is_eq_iff RepairState-discrete s.state created).1 k in cc

-- The events behind the first keep the session alive.
step-IsSession :
    (h : Hashing) (u : Unicode) (s : List ℕ) (p c : LoadedState) (m : Fields) (e : EventRecord)
    → IsSession h u s p
    → IsLoaded h u s (some p) m e c
    → IsSession h u s c
step-IsSession h u s p c m e i l =
    let step = follows_previous-IsStep e.kind p c l.follows l.sequence_named in
    record {
      reached =
          step-reaches (event-⟶ e.kind p.snapshot.state c.snapshot.state step.moved) i.reached;
      built = from_dict-IsSnapshot u e.snapshot c.snapshot l.snapshot_read;
      digests_valid = l.digests_valid;
      of_session = l.of_session;
      run_held =
          run_stays e.kind p.snapshot c.snapshot p.validation_run c.validation_run step.moved
            step.run_updated (optional-IsLease e.validation_run c.validation_run l.run_read);
      preview_digest =
          subst (λ d. if_given is_sha256 d ≡ true) (sym l.preview_named) l.header.preview_digest;
      preview_named =
          preview_follows e.kind p.snapshot c.snapshot p.preview_sha256 c.preview_sha256
            step.preview_updated;
      timed = l.timed;
    }
  where
    step-reaches : {a b : RepairState} → (b ≡ a) ⊎ (a ⟶ b) → created ⟶* a → created ⟶* b
    step-reaches (inl q) r = subst (λ x. created ⟶* x) (sym q) r
    step-reaches (inr q) r = then r q

first-IsSession :
    (h : Hashing) (u : Unicode) (s : List ℕ) (c : LoadedState) (m : Fields) (e : EventRecord)
    → IsLoaded h u s none m e c
    → IsSession h u s c
unfolding follows_previous
first-IsSession h u s c m e l =
    let (f1, r) = (and_iff _ (not (exists c.validation_run))).0 l.follows in
    let (f2, v) = (and_iff _ (not (exists c.preview_sha256))).0 f1 in
    let (k, _) = (and_iff (state_eq c.snapshot.state created) _).0 f2 in
    let at_start = (is_eq_iff RepairState-discrete c.snapshot.state created).0 k in
    let built = from_dict-IsSnapshot u e.snapshot c.snapshot l.snapshot_read in
    record {
      reached = subst (λ x. created ⟶* x) (sym at_start) here;
      built = built;
      digests_valid = l.digests_valid;
      of_session = l.of_session;
      run_held = no_run c.validation_run r;
      preview_digest =
          subst (λ d. if_given is_sha256 d ≡ true) (sym l.preview_named) l.header.preview_digest;
      preview_named =
          no_preview c.preview_sha256 c.snapshot v at_start
            (has_valid_shape-IsShaped c.snapshot
              (snapshot_shape u c.snapshot built.is_built)).candidate_part;
      timed = l.timed;
    }
  where
    no_run : (o : Option ValidationRunLease) → not (exists o) ≡ true → IfGiven (IsHeld c.snapshot) o
    no_run none n = tt
    no_run (some r) n = cc

load_events-IsSession :
    (h : Hashing) (u : Unicode) (s : List ℕ) (previous : Option LoadedState)
    (files : List EventFile) (l : LoadedState)
    → IfGiven (IsSession h u s) previous
    → load_events h u s previous files ≡ ok (some l)
    → IsSession h u s l
unfolding load_events
load_events-IsSession h u s none [] l given returns = cc
load_events-IsSession h u s (some p) [] l given returns =
    subst (IsSession h u s) (some_same p l (ok-injective returns)) given
load_events-IsSession h u s previous (file ∷ files) l given returns =
    let (next, loads, rest) = >>=-eq-ok (load_event h u s previous file) _ returns in
    let (m, _, _, reads) = load_event-inv h u s previous file next loads in
    let (e, is_loaded) = load_mapping-IsLoaded h u s previous m next reads in
    load_events-IsSession h u s (some next) files l (behind previous next m e given is_loaded) rest
  where
    behind :
        (previous : Option LoadedState) (next : LoadedState) (m : Fields) (e : EventRecord)
        → IfGiven (IsSession h u s) previous
        → IsLoaded h u s previous m e next
        → IsSession h u s next
    behind none next m e given i = first-IsSession h u s next m e i
    behind (some p) next m e given i = step-IsSession h u s p next m e given i

pub load_event_chain-events :
    (h : Hashing) (u : Unicode) (s : List ℕ) (files : List EventFile) (l : LoadedState)
    → load_event_chain h u s files ≡ ok l
    → load_events h u s none files ≡ ok (some l)
unfolding load_event_chain
load_event_chain-events h u s files l returns =
    let (o, loads, e) = >>=-eq-ok (load_events h u s none files) _ returns in
    loads ∙ ap (λ x. ok x) (there o l e)
  where
    there : (o : Option LoadedState) (l : LoadedState) → or_missing s o ≡ ok l → o ≡ some l
    there none l e = cc
    there (some x) l e = ap (λ y. some y) (ok-injective e)

-- Whatever `_load_event_chain` loads is in a state that the diagram joins to the created one; its
-- snapshot has been built, is of the session and has valid digests; a lease that it holds has been
-- built, names the session and its candidate, and the state is validating, cancelled, expired or
-- failed; there is a digest of the preview exactly when there is a candidate; and the time of the
-- event is that of the update.
pub load_event_chain-IsSession :
    (h : Hashing) (u : Unicode) (s : List ℕ) (files : List EventFile) (l : LoadedState)
    → load_event_chain h u s files ≡ ok l
    → IsSession h u s l
load_event_chain-IsSession h u s files l returns =
    load_events-IsSession h u s none files l tt (load_event_chain-events h u s files l returns)
