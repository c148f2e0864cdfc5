-- ===== src/Repair/Session/Chain.antt =====
-- The chain of event files in src/repoguard/_repair_store.py: the mapping of an event and
-- `_load_event_chain`.
pub mod Loaded
use repo_guard.Base.{
  ℕ, zero, suc, ◌+◌, ◌/◌, ◌%◌, Bool, true, false, not, ◌&&◌, ◌||◌, Option, none, some, List, [],
  ◌∷◌, ◌++◌, leb, ◌==◌,
}
use repo_guard.Base.Outcome.{Outcome, ok, err, ◌>>=◌, ◌>>◌, require}
use repo_guard.Text.{codes, text_eq}
use repo_guard.Agent.Json.{Json, json_object, json_int, json_text, json_null, Fields, has_exactly}
use repo_guard.Repair.Unicode.{Unicode}
use repo_guard.Repair.Codes.{RepairErrorCode, session_corrupt, RepairStage, persistence}
use repo_guard.Repair.Records.{RepairState, created, RepairSnapshot, state_text}
use repo_guard.Repair.Records.Shape.{exists, state_eq}
use repo_guard.Repair.Records.Checks.{is_sha256, if_given}
use repo_guard.Repair.Records.Exact.{
  Read, invalid_record, exact_str, exact_int, exact_object, optional, member, field,
}
use repo_guard.Repair.Records.Write.{or_null, repair_snapshot_to_dict, dict}
use repo_guard.Repair.Records.Read.{repair_snapshot_from_dict}
use repo_guard.Repair.Session.{
  EventKind, kind_created, kind_text, event_kinds, event_state_pair_is_valid,
}
use repo_guard.Repair.Session.Lease.{
  ValidationRunLease, optional_lease_from_dict, optional_lease_to_dict,
}
use repo_guard.Repair.Session.Updates.{
  snapshot_update_is_valid, validation_run_update_is_valid, candidate_preview_update_is_valid,
}
use repo_guard.Repair.Session.Digests.{Hashing, domain_digest, snapshot_record_digests_are_valid}
use repo_guard.Repair.Session.Event.{
  StoreError, Stored, corrupt, or_corrupt, EventFile, digits, event_name, event_mapping,
  EventRecord, event_keys, any_value, a_kind, a_mapping, header_fits, read_event,
  validate_event_mapping, repair_error, invalid_update,
}

-- _LoadedState
pub record LoadedState : Type 0 where
  pub snapshot : RepairSnapshot
  pub event_sequence : ℕ
  pub event_sha256 : List ℕ
  pub event_timestamp_us : ℕ
  pub preview_sha256 : Option (List ℕ)
  pub validation_run : Option ValidationRunLease

abbrev pub next_sequence : Option LoadedState → ℕ
next_sequence none = 0
next_sequence (some loaded) = loaded.event_sequence + 1

-- "0" * 64
abbrev pub zeros : ℕ → List ℕ
zeros zero = []
zeros (suc n) = b'0' ∷ zeros n

abbrev pub previous_sha256 : Option LoadedState → List ℕ
previous_sha256 none = zeros 64
previous_sha256 (some loaded) = loaded.event_sha256

-- The checks of an event against what stood before it.
unfoldable pub follows_previous :
    Option LoadedState
    → EventKind
    → RepairSnapshot
    → Option (List ℕ)
    → Option ValidationRunLease
    → Bool
follows_previous none kind snapshot preview run =
    state_eq snapshot.state created
    && text_eq (kind_text kind) (kind_text kind_created)
    && not (exists preview)
    && not (exists run)
follows_previous (some l) kind snapshot preview run =
    event_state_pair_is_valid kind l.snapshot.state snapshot.state
    && (snapshot.created_at_us == l.snapshot.created_at_us)
    && leb l.snapshot.updated_at_us snapshot.updated_at_us
    && validation_run_update_is_valid kind l.snapshot snapshot l.validation_run run
    && candidate_preview_update_is_valid kind l.snapshot snapshot l.preview_sha256 preview
    && snapshot_update_is_valid kind l.snapshot snapshot

-- The body of the loop of _load_event_chain behind the reading of the file.
unfoldable pub load_mapping :
    Hashing → Unicode → List ℕ → Option LoadedState → Fields → Stored LoadedState
unfolding validate_event_mapping
load_mapping h u session_id previous mapping = do
  event ←
      validate_event_mapping mapping (next_sequence previous) (previous_sha256 previous) session_id
  snapshot ← or_corrupt session_id (repair_snapshot_from_dict u event.snapshot)
  require (snapshot_record_digests_are_valid h snapshot) (corrupt session_id)
  run ← or_corrupt session_id (optional_lease_from_dict event.validation_run)
  require
      (text_eq snapshot.session_id session_id && text_eq (state_text snapshot.state) event.state)
      (corrupt session_id)
  require (follows_previous previous event.kind snapshot event.preview_sha256 run)
      (corrupt session_id)
  require (event.timestamp_us == snapshot.updated_at_us) (corrupt session_id)
  ok record {
    snapshot = snapshot;
    event_sequence = next_sequence previous;
    event_sha256 = domain_digest h (codes "event") (json_object mapping);
    event_timestamp_us = event.timestamp_us;
    preview_sha256 = event.preview_sha256;
    validation_run = run;
  }

abbrev pub or_unreadable : List ℕ → Option Fields → Stored Fields
or_unreadable session_id none = err (corrupt session_id)
or_unreadable session_id (some mapping) = ok mapping

-- The body of the loop of _load_event_chain.
unfoldable pub load_event :
    Hashing → Unicode → List ℕ → Option LoadedState → EventFile → Stored LoadedState
unfolding load_mapping event_name
load_event h u session_id previous file = do
  require (text_eq file.name (event_name (next_sequence previous))) (corrupt session_id)
  mapping ← or_unreadable session_id file.content
  load_mapping h u session_id previous mapping

-- The loop of _load_event_chain.
unfoldable pub load_events :
    Hashing → Unicode → List ℕ → Option LoadedState → List EventFile → Stored (Option LoadedState)
unfolding load_event
load_events h u session_id previous [] = ok previous
load_events h u session_id previous (file ∷ files) =
    load_event h u session_id previous file >>= λ loaded.
    load_events h u session_id (some loaded) files

abbrev pub or_missing : List ℕ → Option LoadedState → Stored LoadedState
or_missing session_id none = err (corrupt session_id)
or_missing session_id (some loaded) = ok loaded

-- _load_event_chain, over the files in the order of their names
unfoldable pub load_event_chain : Hashing → Unicode → List ℕ → List EventFile → Stored LoadedState
unfolding load_events
load_event_chain h u session_id files =
    load_events h u session_id none files >>= or_missing session_id
