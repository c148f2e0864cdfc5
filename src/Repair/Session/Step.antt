-- ===== src/Repair/Session/Step.antt =====
-- One event of a session behind another.
use repo_guard.Base.{
  ℕ, ◌+◌, ◌≡◌, ◌≤◌, true, and_iff, ==_iff, leb_iff, Option, some, List, [], ◌∷◌, ◌==◌, leb, subst,
}
use repo_guard.Base.Outcome.{ok, >>=-eq-ok, ok-injective}
use repo_guard.Repair.Unicode.{Unicode}
use repo_guard.Repair.Session.{EventKind, event_state_pair_is_valid}
use repo_guard.Repair.Session.Updates.{
  snapshot_update_is_valid, validation_run_update_is_valid, candidate_preview_update_is_valid,
}
use repo_guard.Repair.Session.Digests.{Hashing}
use repo_guard.Repair.Session.Chain.{LoadedState, follows_previous, load_event, load_events}
use repo_guard.Repair.Session.Event.{EventFile}
use repo_guard.Repair.Session.Chain.Loaded.{load_event-inv, load_mapping-IsLoaded}

-- What is true of an event behind another one.
pub record IsStep (kind : EventKind) (p c : LoadedState) : Type 0 where
  pub moved : event_state_pair_is_valid kind p.snapshot.state c.snapshot.state ≡ true
  pub created_same : c.snapshot.created_at_us ≡ p.snapshot.created_at_us
  pub updated_later : p.snapshot.updated_at_us ≤ c.snapshot.updated_at_us
  pub run_updated :
      validation_run_update_is_valid kind p.snapshot c.snapshot p.validation_run c.validation_run
      ≡ true
  pub preview_updated :
      candidate_preview_update_is_valid kind p.snapshot c.snapshot p.preview_sha256 c.preview_sha256
      ≡ true
  pub snapshot_updated : snapshot_update_is_valid kind p.snapshot c.snapshot ≡ true
  pub numbered : c.event_sequence ≡ p.event_sequence + 1

pub follows_previous-IsStep :
    (kind : EventKind) (p c : LoadedState)
    → follows_previous (some p) kind c.snapshot c.preview_sha256 c.validation_run ≡ true
    → c.event_sequence ≡ p.event_sequence + 1
    → IsStep kind p c
unfolding follows_previous
follows_previous-IsStep kind p c h n =
    let (h1, u) = (and_iff _ (snapshot_update_is_valid kind p.snapshot c.snapshot)).0 h in
    let (h2, v) =
      (and_iff _ (
          candidate_preview_update_is_valid kind p.snapshot c.snapshot p.preview_sha256
            c.preview_sha256)).0
        h1 in
    let (h3, r) =
      (and_iff _ (
          validation_run_update_is_valid kind p.snapshot c.snapshot p.validation_run
            c.validation_run)).0
        h2 in
    let (h4, l) = (and_iff _ (leb p.snapshot.updated_at_us c.snapshot.updated_at_us)).0 h3 in
    let (m, s) = (and_iff _ (c.snapshot.created_at_us == p.snapshot.created_at_us)).0 h4 in
    record {
      moved = m;
      created_same = (==_iff _ _).0 s;
      updated_later = (leb_iff _ _).0 l;
      run_updated = r;
      preview_updated = v;
      snapshot_updated = u;
      numbered = n;
    }

pub load_event-IsStep :
    (h : Hashing) (u : Unicode) (s : List ℕ) (p : LoadedState) (file : EventFile) (c : LoadedState)
    → load_event h u s (some p) file ≡ ok c
    → (kind : EventKind) × IsStep kind p c
load_event-IsStep h u s p file c returns =
    let (m, _, _, loads) = load_event-inv h u s (some p) file c returns in
    let (e, loaded) = load_mapping-IsLoaded h u s (some p) m c loads in
    (e.kind, follows_previous-IsStep e.kind p c loaded.follows loaded.sequence_named)

pub some_same : (a b : LoadedState) → ◌≡◌ {A = Option LoadedState} (some a) (some b) → a ≡ b
some_same a b h = cc

-- What every step keeps holds between any two states of a chain.
pub load_events-between :
    (R : LoadedState → LoadedState → Type 0)
    → ((l : LoadedState) → R l l)
    → ((kind : EventKind) (a b c : LoadedState) → R a b → IsStep kind b c → R a c)
    → (h : Hashing) (u : Unicode) (s : List ℕ) (a b : LoadedState) (files : List EventFile)
      (c : LoadedState)
    → R a b
    → load_events h u s (some b) files ≡ ok (some c)
    → R a c
unfolding load_events
load_events-between R start step h u s a b [] c r returns =
    subst (R a) (some_same b c (ok-injective returns)) r
load_events-between R start step h u s a b (file ∷ files) c r returns =
    let (next, loads, rest) = >>=-eq-ok (load_event h u s (some b) file) _ returns in
    let (kind, is_step) = load_event-IsStep h u s b file next loads in
    load_events-between R start step h u s a next files c (step kind a b next r is_step) rest
