-- ===== src/Repair/Session/Bounds.antt =====
-- The bounds of a session that loads.
use repo_guard.Base.{
  ℕ, ◌+◌, ◌≡◌, refl, ap, ◌≤◌, Bool, true, false, and_iff, leb_iff, Option, none, some, List, [],
  ◌∷◌, leb, arith, length,
}
use repo_guard.Base.Outcome.{Outcome, ok, err, ◌>>◌, require, >>=-eq-ok, ok-injective}
use repo_guard.Repair.Unicode.{Unicode}
use repo_guard.Repair.Records.{RepairCandidate, RepairValidation, RepairSnapshot}
use repo_guard.Repair.Records.Checks.{
  candidate_is_valid, snapshot_is_valid, are_paths, is_bounded, validation_is_valid, success_fits,
  are_contiguous,
}
use repo_guard.Repair.Records.ReadsBack.{IfGiven, map-IfGiven}
use repo_guard.Repair.Records.Shape.{has_valid_shape}
use repo_guard.Repair.Paths.{PathError, outside_count, canonical_repository_paths}
use repo_guard.Repair.Session.Digests.{Hashing}
use repo_guard.Repair.Session.Chain.{
  LoadedState, load_event, load_events, load_event_chain, next_sequence,
}
use repo_guard.Repair.Session.Event.{EventFile}
use repo_guard.Repair.Session.Chain.Loaded.{load_event-inv, load_mapping-IsLoaded}
use repo_guard.Repair.Session.Step.{some_same}
use repo_guard.Repair.Session.Invariant.{load_event_chain-IsSession, load_event_chain-events}

pub load_events-number :
    (h : Hashing) (u : Unicode) (s : List ℕ) (previous : Option LoadedState)
    (files : List EventFile) (l : LoadedState)
    → load_events h u s previous files ≡ ok (some l)
    → l.event_sequence + 1 ≡ next_sequence previous + length files
unfolding load_events
load_events-number h u s none [] l loads = cc
load_events-number h u s (some p) [] l loads =
    let e = ap (λ x. x.event_sequence) (some_same p l (ok-injective loads)) in omega (arith, e)
load_events-number h u s previous (file ∷ files) l loads =
    let (next, is_next, rest) = >>=-eq-ok (load_event h u s previous file) _ loads in
    let (m, _, _, reads) = load_event-inv h u s previous file next is_next in
    let (e, is_loaded) = load_mapping-IsLoaded h u s previous m next reads in
    let n = is_loaded.sequence_named in
    omega (arith, n, load_events-number h u s (some next) files l rest)

pub paths_bounded :
    (u : Unicode) (minimum maximum : ℕ) (paths : List (List ℕ))
    → are_paths u minimum maximum paths ≡ true
    → (minimum ≤ length paths) × (length paths ≤ maximum)
unfolding are_paths canonical_repository_paths
paths_bounded u minimum maximum paths h =
    let (a, b) =
      (and_iff (leb minimum (length paths)) (leb (length paths) maximum)).0 (count _ _ h) in
    ((leb_iff _ _).0 a, (leb_iff _ _).0 b)
  where
    count :
        (b : Bool) (rest : Outcome PathError (List (List ℕ)))
        → elim (require b outside_count >> rest) [ ok paths ↦ true | err raised ↦ false ] ≡ true
        → b ≡ true
    count true rest h = refl
    count false rest h = cc

abbrev pub Within : ℕ → ℕ → ℕ → Type 0
Within minimum maximum n = (minimum ≤ n) × (n ≤ maximum)

-- The bounds of what a session holds.
pub record IsBounded (files : List EventFile) (l : LoadedState) : Type 0 where
  pub numbered : l.event_sequence + 1 ≡ length files
  pub in_time : l.snapshot.created_at_us ≤ l.snapshot.updated_at_us
  pub targets : Within 1 16 l.snapshot.target_count
  pub allowed : Within 1 32 (length l.snapshot.allowed_paths)
  pub candidate_bounded :
      IfGiven
        (λ c.
          Within 1 32 (length c.changed_paths)
          × Within 1 10000 c.changed_line_count
          × (c.provider_attempt_count ≤ 3))
        l.snapshot.candidate
  pub validation_bounded :
      IfGiven
        (λ v. (length v.command_results ≤ 8) × (v.started_at_us ≤ v.finished_at_us))
        l.snapshot.validation

pub within :
    (minimum maximum n : ℕ) → is_bounded minimum maximum n ≡ true → Within minimum maximum n
within minimum maximum n h =
    let (a, b) = (and_iff (leb minimum n) (leb n maximum)).0 h in
    ((leb_iff _ _).0 a, (leb_iff _ _).0 b)

pub candidate_within :
    (u : Unicode) (c : RepairCandidate)
    → candidate_is_valid u c ≡ true
    → Within 1 32 (length c.changed_paths)
      × Within 1 10000 c.changed_line_count
      × (c.provider_attempt_count ≤ 3)
unfolding candidate_is_valid
candidate_within u c h =
    let (h1, a) = (and_iff _ (leb c.provider_attempt_count 3)).0 h in
    let (h2, l) = (and_iff _ (is_bounded 1 10000 c.changed_line_count)).0 h1 in
    let (_, p) = (and_iff _ (are_paths u 1 32 c.changed_paths)).0 h2 in
    (
      paths_bounded u 1 32 c.changed_paths p,
      within 1 10000 c.changed_line_count l,
      (leb_iff _ _).0 a,
    )

pub validation_within :
    (v : RepairValidation)
    → validation_is_valid v ≡ true
    → (length v.command_results ≤ 8) × (v.started_at_us ≤ v.finished_at_us)
unfolding validation_is_valid
validation_within v h =
    let (h1, _) = (and_iff _ (success_fits v.success v)).0 h in
    let (h2, _) = (and_iff _ (are_contiguous 0 v.command_results)).0 h1 in
    let (h3, n) = (and_iff _ (leb (length v.command_results) 8)).0 h2 in
    let (_, t) = (and_iff _ (leb v.started_at_us v.finished_at_us)).0 h3 in
    ((leb_iff _ _).0 n, (leb_iff _ _).0 t)

pub snapshot_within :
    (u : Unicode) (r : RepairSnapshot)
    → snapshot_is_valid u r ≡ true
    → (r.created_at_us ≤ r.updated_at_us)
      × Within 1 16 r.target_count
      × Within 1 32 (length r.allowed_paths)
unfolding snapshot_is_valid
snapshot_within u r h =
    let (h1, _) = (and_iff _ (has_valid_shape r)).0 h in
    let (h2, p) = (and_iff _ (are_paths u 1 32 r.allowed_paths)).0 h1 in
    let (h3, n) = (and_iff _ (is_bounded 1 16 r.target_count)).0 h2 in
    let (_, t) = (and_iff _ (leb r.created_at_us r.updated_at_us)).0 h3 in
    ((leb_iff _ _).0 t, within 1 16 r.target_count n, paths_bounded u 1 32 r.allowed_paths p)

-- A session that loads has as many event files as the number of its last event plus one, was
-- updated no earlier than created, and has 1 to 16 targets and 1 to 32 allowed paths; its candidate
-- changes 1 to 32 paths and 1 to 10000 lines and took 3 attempts at most; its validation has 8
-- command results at most and finished no earlier than it started.
pub load_event_chain-IsBounded :
    (h : Hashing) (u : Unicode) (s : List ℕ) (files : List EventFile) (l : LoadedState)
    → load_event_chain h u s files ≡ ok l
    → IsBounded files l
load_event_chain-IsBounded h u s files l loads =
    let built = (load_event_chain-IsSession h u s files l loads).built in
    let (t, n, p) = snapshot_within u l.snapshot built.is_built in
    let number =
      load_events-number h u s none files l (load_event_chain-events h u s files l loads) in
    record {
      numbered = omega (arith, number);
      in_time = t;
      targets = n;
      allowed = p;
      candidate_bounded =
          map-IfGiven l.snapshot.candidate (λ c i. candidate_within u c i.2) built.candidate_built;
      validation_bounded =
          map-IfGiven l.snapshot.validation (λ v i. validation_within v i.1) built.validation_built;
    }
