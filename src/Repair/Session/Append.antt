-- ===== src/Repair/Session/Append.antt =====
-- `append` of src/repoguard/_repair_store.py: the checks of an event and the file that it writes.
use repo_guard.Base.{
  ℕ, ◌+◌, Bool, true, false, not, ◌&&◌, Option, none, some, List, [], ◌∷◌, ◌++◌, leb, ◌==◌,
}
use repo_guard.Base.Outcome.{ok, err, ◌>>=◌, ◌>>◌, require}
use repo_guard.Text.{codes, text_eq}
use repo_guard.Agent.Json.{Json, json_object, Fields}
use repo_guard.Repair.Unicode.{Unicode}
use repo_guard.Repair.Codes.{invalid_state, persistence}
use repo_guard.Repair.Records.{RepairState, validating, RepairSnapshot}
use repo_guard.Repair.Records.Shape.{exists, state_eq}
use repo_guard.Repair.Session.{
  EventKind, kind_candidate, kind_validation_intent, kind_validation_run, event_state_pair_is_valid,
  carries_lease,
}
use repo_guard.Repair.Session.Lease.{ValidationRunLease}
use repo_guard.Repair.Session.Updates.{
  snapshot_update_is_valid, validation_run_update_is_valid, candidate_preview_update_is_valid,
}
use repo_guard.Repair.Session.Digests.{Hashing, domain_digest, snapshot_record_digests_are_valid}
use repo_guard.Repair.Session.Chain.{LoadedState, load_event_chain}
use repo_guard.Repair.Session.Event.{
  repair_error, invalid_update, Stored, EventFile, event_name, event_mapping,
}

-- The directory of a session as far as `append` uses it: the event files in the order of their
-- names, and the preview if its file can be read.
pub record SessionFiles : Type 0 where
  pub events : List EventFile
  pub preview : Option Json

-- The arguments of `append`.
pub record Update : Type 0 where
  pub kind : EventKind
  pub snapshot : RepairSnapshot
  pub validation_run : Option ValidationRunLease
  pub clear_validation_run : Bool

abbrev pub registers : EventKind → RepairState → Bool
registers kind_validation_intent state = state_eq state validating
registers kind_validation_run state = carries_lease state
registers _ state = false

-- kind in {"validation_intent", "validation_run"}
abbrev pub wants_lease : EventKind → Bool
wants_lease kind_validation_intent = true
wants_lease kind_validation_run = true
wants_lease _ = false

abbrev pub clear_lease : Bool → Option ValidationRunLease → Stored (Option ValidationRunLease)
clear_lease false run = ok run
clear_lease true none = err invalid_update
clear_lease true (some run) = ok none

-- next_validation_run
unfoldable pub next_validation_run :
    Update → Option ValidationRunLease → Stored (Option ValidationRunLease)
next_validation_run x current = elim x.validation_run [
  | some run ↦ require (registers x.kind x.snapshot.state) invalid_update >> ok (some run)
  | none ↦
      require (not (wants_lease x.kind)) invalid_update
      >> clear_lease x.clear_validation_run current
]

abbrev pub read_preview : Hashing → Option Json → Stored (Option (List ℕ))
read_preview h none = err invalid_update
read_preview h (some preview) = ok (some (domain_digest h (codes "preview") preview))

-- next_preview_sha256
unfoldable pub next_preview :
    Hashing → EventKind → Option Json → Option (List ℕ) → Stored (Option (List ℕ))
next_preview h kind preview (some digest) = ok (some digest)
next_preview h kind_candidate preview none = read_preview h preview
next_preview h kind preview none = ok none

-- The checks of `append` on the update as a whole.
unfoldable pub check_update :
    Hashing
    → List ℕ
    → LoadedState
    → Update
    → Option ValidationRunLease
    → Option Json
    → Stored (Option (List ℕ))
unfolding next_preview
check_update h session_id current x run preview = do
  require
      ((x.snapshot.created_at_us == current.snapshot.created_at_us)
        && leb current.snapshot.updated_at_us x.snapshot.updated_at_us)
      invalid_update
  require (event_state_pair_is_valid x.kind current.snapshot.state x.snapshot.state)
      (repair_error invalid_state persistence (some current.snapshot.state) session_id)
  require
      (validation_run_update_is_valid x.kind current.snapshot x.snapshot current.validation_run run)
      invalid_update
  next ← next_preview h x.kind preview current.preview_sha256
  require
      (candidate_preview_update_is_valid x.kind current.snapshot x.snapshot current.preview_sha256
        next)
      invalid_update
  require (snapshot_update_is_valid x.kind current.snapshot x.snapshot) invalid_update
  require (snapshot_record_digests_are_valid h x.snapshot) invalid_update
  ok next

abbrev pub content_of : Json → Option Fields
content_of (json_object fields) = some fields
content_of _ = none

-- The event that `append` writes behind the current one.
unfoldable pub next_event :
    LoadedState → Update → Option ValidationRunLease → Option (List ℕ) → Json
unfolding event_mapping
next_event current x run preview =
    event_mapping (current.event_sequence + 1) current.event_sha256 x.kind x.snapshot.updated_at_us
      x.snapshot preview run

abbrev pub event_file : ℕ → Json → EventFile
event_file sequence event = record { name = event_name sequence; content = content_of event }

abbrev pub loaded_behind :
    Hashing → LoadedState → Update → Option ValidationRunLease → Option (List ℕ) → LoadedState
loaded_behind h current x run preview = record {
  snapshot = x.snapshot;
  event_sequence = current.event_sequence + 1;
  event_sha256 = domain_digest h (codes "event") (next_event current x run preview);
  event_timestamp_us = x.snapshot.updated_at_us;
  preview_sha256 = preview;
  validation_run = run;
}

-- append, with the files that it leaves
unfoldable pub append :
    Hashing → Unicode → List ℕ → Update → SessionFiles → Stored (SessionFiles × LoadedState)
unfolding next_validation_run check_update
append h u session_id x files = do
  require (text_eq x.snapshot.session_id session_id) invalid_update
  require (not (exists x.validation_run && x.clear_validation_run)) invalid_update
  current ← load_event_chain h u session_id files.events
  run ← next_validation_run x current.validation_run
  preview ← check_update h session_id current x run files.preview
  let file = event_file (current.event_sequence + 1) (next_event current x run preview) in
      ok
        (record files { events = files.events ++ file ∷ [] }, loaded_behind h current x run preview)
