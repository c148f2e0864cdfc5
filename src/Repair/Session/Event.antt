-- ===== src/Repair/Session/Event.antt =====
-- The mapping of an event in src/repoguard/_repair_store.py and its checks.
use repo_guard.Base.{
  ℕ, zero, suc, ◌+◌, ◌/◌, ◌%◌, Bool, ◌&&◌, Option, none, List, [], ◌∷◌, ◌++◌, ◌==◌,
}
use repo_guard.Base.Outcome.{Outcome, ok, err, ◌>>=◌, ◌>>◌, require}
use repo_guard.Text.{codes, text_eq}
use repo_guard.Agent.Json.{Json, json_int, json_text, Fields, has_exactly}
use repo_guard.Repair.Codes.{RepairErrorCode, session_corrupt, RepairStage, persistence}
use repo_guard.Repair.Records.{RepairState, RepairSnapshot, state_text}
use repo_guard.Repair.Records.Checks.{is_sha256, if_given}
use repo_guard.Repair.Records.Exact.{
  Read, exact_str, exact_int, exact_object, optional, member, field,
}
use repo_guard.Repair.Records.Write.{or_null, repair_snapshot_to_dict, dict}
use repo_guard.Repair.Session.{EventKind, kind_text, event_kinds}
use repo_guard.Repair.Session.Lease.{ValidationRunLease, optional_lease_to_dict}

-- A RepairError, or a ValueError of a call of `append`.
pub data StoreError : Type 0 where
  repair_error : RepairErrorCode → RepairStage → Option RepairState → List ℕ → StoreError
  invalid_update : StoreError

abbrev pub Stored : Type 0 → Type 0
Stored A = Outcome StoreError A

-- _raise_corrupt
abbrev pub corrupt : List ℕ → StoreError
corrupt session_id = repair_error session_corrupt persistence none session_id

-- A TypeError or a ValueError, which `load` turns into a corrupt session.
abbrev pub or_corrupt : {A : Type 0} → List ℕ → Read A → Stored A
or_corrupt session_id (ok a) = ok a
or_corrupt session_id (err e) = err (corrupt session_id)

-- A file of the directory of events, with its mapping if `_read_canonical_mapping` returns one.
pub record EventFile : Type 0 where
  pub name : List ℕ
  pub content : Option Fields

-- The last `width` decimal digits of a number.
abbrev pub digits : ℕ → ℕ → List ℕ
digits zero n = []
digits (suc width) n = digits width (n / 10) ++ (48 + n % 10) ∷ []

-- _event_name, for sequences below 10^16
unfoldable pub event_name : ℕ → List ℕ
event_name sequence = digits 16 sequence ++ codes ".json"

-- _event_mapping
unfoldable pub event_mapping :
    ℕ → List ℕ → EventKind → ℕ → RepairSnapshot → Option (List ℕ) → Option ValidationRunLease → Json
event_mapping sequence previous_sha256 kind timestamp_us snapshot preview_sha256 validation_run =
    dict (
      ("schema_version", json_int 1)
      ∷ ("sequence", json_int sequence)
      ∷ ("previous_sha256", json_text previous_sha256)
      ∷ ("kind", json_text (kind_text kind))
      ∷ ("state", json_text (state_text snapshot.state))
      ∷ ("timestamp_us", json_int timestamp_us)
      ∷ ("snapshot", repair_snapshot_to_dict snapshot)
      ∷ ("preview_sha256", or_null json_text preview_sha256)
      ∷ ("validation_run", optional_lease_to_dict validation_run)
      ∷ [])

-- What `_validate_event_mapping` has found well-typed in a mapping.
pub record EventRecord : Type 0 where
  pub kind : EventKind
  pub state : List ℕ
  pub timestamp_us : ℕ
  pub snapshot : Json
  pub preview_sha256 : Option (List ℕ)
  pub validation_run : Json

abbrev pub event_keys : List (List ℕ)
event_keys =
    codes "schema_version"
    ∷ codes "sequence"
    ∷ codes "previous_sha256"
    ∷ codes "kind"
    ∷ codes "state"
    ∷ codes "timestamp_us"
    ∷ codes "snapshot"
    ∷ codes "preview_sha256"
    ∷ codes "validation_run"
    ∷ []

abbrev pub any_value : Json → Read Json
any_value value = ok value

abbrev pub a_kind : Json → Read EventKind
a_kind value = exact_str value >>= member kind_text event_kinds

abbrev pub a_mapping : Json → Read Json
a_mapping value = exact_object value >>= λ fields. ok value

abbrev pub header_fits : Fields → ℕ → List ℕ → Read Bool
header_fits mapping sequence previous_digest = do
  version ← field mapping "schema_version" exact_int
  number ← field mapping "sequence" exact_int
  digest ← field mapping "previous_sha256" exact_str
  ok ((version == 1) && (number == sequence) && text_eq digest previous_digest)

abbrev pub read_event : Fields → Read EventRecord
read_event mapping = do
  kind ← field mapping "kind" a_kind
  state ← field mapping "state" exact_str
  timestamp_us ← field mapping "timestamp_us" exact_int
  snapshot ← field mapping "snapshot" a_mapping
  preview_sha256 ← field mapping "preview_sha256" (optional exact_str)
  validation_run ← field mapping "validation_run" any_value
  ok record {
    kind = kind;
    state = state;
    timestamp_us = timestamp_us;
    snapshot = snapshot;
    preview_sha256 = preview_sha256;
    validation_run = validation_run;
  }

-- _validate_event_mapping
unfoldable pub validate_event_mapping : Fields → ℕ → List ℕ → List ℕ → Stored EventRecord
unfolding has_exactly
validate_event_mapping mapping sequence previous_digest session_id = do
  require (has_exactly event_keys mapping) (corrupt session_id)
  fits ← or_corrupt session_id (header_fits mapping sequence previous_digest)
  require fits (corrupt session_id)
  event ← or_corrupt session_id (read_event mapping)
  require (if_given is_sha256 event.preview_sha256) (corrupt session_id)
  ok event
