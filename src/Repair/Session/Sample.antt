-- ===== src/Repair/Session/Sample.antt =====
-- A session from its creation to the published repair.
use repo_guard.Base.{
  ℕ, true, false, Option, none, some, List, [], ◌∷◌, ◌++◌, ltb, ◌==◌, ◌||◌, if◌then◌else◌,
}
use repo_guard.Text.{codes}
use repo_guard.Agent.Json.{Json, json_null, json_object, Fields}
use repo_guard.Base.Outcome.{ok, err}
use repo_guard.Repair.Records.Exact.{field, exact_int}
use repo_guard.Repair.Unicode.{Unicode}
use repo_guard.Repair.Records.{
  created, generating, validating, validated, approved, applying, applied, not_requested,
  RepairPromptIdentity, RepairContextSummary, RepairCandidate, ValidationCommandResult,
  RepairValidation, RepairApproval, RepairApplication, RepairSnapshot,
}
use repo_guard.Repair.Records.Shape.{repair_ref}
use repo_guard.Repair.Records.Checks.{approval_confirmation}
use repo_guard.Repair.Session.{
  EventKind, kind_created, kind_generating, kind_candidate, kind_validating, kind_validation_intent,
  kind_validation_run, kind_validation_result, kind_validated, kind_approved, kind_applying,
  kind_applied, kind_cleanup_complete,
}
use repo_guard.Repair.Session.Lease.{ValidationRunLease}
use repo_guard.Repair.Session.Digests.{Hashing}
use repo_guard.Repair.Session.Chain.{LoadedState, zeros}
use repo_guard.Repair.Session.Event.{EventFile, event_mapping}
use repo_guard.Repair.Session.Append.{event_file, next_event, SessionFiles, Update}

abbrev pub ascii : Unicode
ascii = record { is_other = λ c. ltb c 32 || (c == 127); casefold = λ s. s }

abbrev pub digest : List ℕ
digest = zeros 64

-- Hashing to one digest.
abbrev pub hashing : Hashing
hashing = record { sha256 = λ v. digest; canonical_bytes = λ v. [] }

abbrev pub prompt : RepairPromptIdentity
prompt = record {
  name = codes "repair";
  version = 1;
  system_sha256 = digest;
  response_schema_sha256 = digest;
  combined_sha256 = digest;
}

abbrev pub no_context : RepairContextSummary
no_context = record {
  outcome = not_requested;
  index_identity_sha256 = none;
  query_sha256 = none;
  query_count = 0;
  candidate_count = 0;
  selected_hit_count = 0;
  hit_identity_sha256 = none;
  degradation_code = none;
}

abbrev pub fix : RepairCandidate
fix = record {
  schema_version = 1;
  candidate_id = digest;
  request_sha256 = digest;
  prompt = prompt;
  context = no_context;
  diff_sha256 = digest;
  tree_oid = zeros 40;
  commit_oid = zeros 40;
  changed_paths = codes "a.py" ∷ [];
  changed_line_count = 2;
  provider_attempt_count = 1;
  input_tokens = 10;
  output_tokens = 5;
}

abbrev pub passed : ValidationCommandResult
passed = record {
  command_index = 0;
  exit_code = some 0;
  signal = none;
  timed_out = false;
  duration_us = 7;
  stdout_sha256 = digest;
  stdout_bytes = 0;
  stdout_truncated = false;
  stderr_sha256 = digest;
  stderr_bytes = 0;
  stderr_truncated = false;
}

abbrev pub success : RepairValidation
success = record {
  schema_version = 1;
  validation_sha256 = digest;
  candidate_id = digest;
  policy_sha256 = digest;
  sandbox_manifest_sha256 = digest;
  image_id = codes "sha256:" ++ digest;
  started_at_us = 4;
  finished_at_us = 6;
  success = true;
  failure_kind = none;
  command_results = passed ∷ [];
  peak_memory_bytes = 1;
  oom_killed = false;
  residual_process_count = 0;
  workspace_entry_count = 1;
  workspace_inode_count = 1;
  tracked_tree_clean = true;
}

abbrev pub consent : RepairApproval
consent = record {
  schema_version = 1;
  approval_sha256 = digest;
  candidate_id = digest;
  validation_sha256 = digest;
  subject = codes "ann";
  confirmation = approval_confirmation;
  approved_at_us = 8;
}

abbrev pub publication : RepairApplication
publication = record {
  schema_version = 1;
  application_sha256 = digest;
  approval_sha256 = digest;
  ref = repair_ref digest;
  commit_oid = zeros 40;
  applied_at_us = 10;
}

abbrev pub at_start : RepairSnapshot
at_start = record {
  schema_version = 1;
  session_id = digest;
  state = created;
  request_sha256 = digest;
  created_at_us = 1;
  updated_at_us = 1;
  target_count = 1;
  allowed_paths = codes "a.py" ∷ [];
  candidate = none;
  validation = none;
  approval = none;
  application = none;
  decision = none;
  failure = none;
  cleanup_pending = false;
}

abbrev pub at_generating : RepairSnapshot
at_generating = record at_start { state = generating; updated_at_us = 2 }

abbrev pub at_candidate : RepairSnapshot
at_candidate = record at_generating { candidate = some fix; updated_at_us = 3 }

abbrev pub at_validating : RepairSnapshot
at_validating = record at_candidate { state = validating }

abbrev pub at_result : RepairSnapshot
at_result = record at_validating { validation = some success; updated_at_us = 6 }

abbrev pub at_validated : RepairSnapshot
at_validated = record at_result { state = validated }

abbrev pub at_approved : RepairSnapshot
at_approved = record at_validated { state = approved; approval = some consent; updated_at_us = 8 }

abbrev pub at_applying : RepairSnapshot
at_applying = record at_approved { state = applying }

abbrev pub at_applied : RepairSnapshot
at_applied = record at_applying {
  state = applied;
  application = some publication;
  cleanup_pending = true;
  updated_at_us = 10;
}

abbrev pub intent : ValidationRunLease
intent = record {
  container_id = none;
  container_name = codes "repair-1";
  labels =
      (codes "com.repoguard.candidate", digest)
      ∷ (codes "com.repoguard.component", codes "safe-repair-validation")
      ∷ (codes "com.repoguard.run-token-sha256", digest)
      ∷ (codes "com.repoguard.session", digest)
      ∷ [];
  session_id = digest;
  candidate_id = digest;
  run_token_sha256 = digest;
}

abbrev pub container : ValidationRunLease
container = record intent { container_id = some digest }

abbrev pub file :
    ℕ → EventKind → RepairSnapshot → Option (List ℕ) → Option ValidationRunLease → EventFile
file n kind s preview run = event_file n (event_mapping n digest kind s.updated_at_us s preview run)

abbrev pub first_files : List EventFile
first_files =
    file 0 kind_created at_start none none
    ∷ file 1 kind_generating at_generating none none
    ∷ file 2 kind_candidate at_candidate (some digest) none
    ∷ file 3 kind_validating at_validating (some digest) none
    ∷ file 4 kind_validation_intent at_validating (some digest) (some intent)
    ∷ file 5 kind_validation_run at_validating (some digest) (some container)
    ∷ []

abbrev pub last_files : List EventFile
last_files =
    file 6 kind_validation_result at_result (some digest) (some container)
    ∷ file 7 kind_validated at_validated (some digest) none
    ∷ file 8 kind_approved at_approved (some digest) none
    ∷ file 9 kind_applying at_applying (some digest) none
    ∷ file 10 kind_applied at_applied (some digest) none
    ∷ []

-- Hashing to one digest, where the canonical bytes of an event are its time.
abbrev pub time_bytes : Json → List ℕ
time_bytes (json_object event) = elim (field event "timestamp_us" exact_int) [
  | ok n ↦ n ∷ []
  | err e ↦ []
]
time_bytes value = []

abbrev pub colliding : Hashing
colliding = record { sha256 = λ v. digest; canonical_bytes = time_bytes }

abbrev pub at_generating_later : RepairSnapshot
at_generating_later = record at_generating { updated_at_us = 3 }

abbrev pub start_file : EventFile
start_file = file 0 kind_created at_start none none

abbrev pub early_file : EventFile
early_file = file 1 kind_generating at_generating none none

abbrev pub late_file : EventFile
late_file = file 1 kind_generating at_generating_later none none

abbrev nothing_else : ℕ → Option Fields
nothing_else n = if n == 3 then late_file.content else none

-- What is read from the time of one of the three events.
abbrev pub loads_time : List ℕ → Option Fields
loads_time [] = none
loads_time (n ∷ ns) =
    if n == 1 then start_file.content else if n == 2 then early_file.content else nothing_else n

abbrev pub early_files : List EventFile
early_files = start_file ∷ early_file ∷ []

abbrev pub late_files : List EventFile
late_files = start_file ∷ late_file ∷ []

abbrev pub loaded_at :
    ℕ → RepairSnapshot → Option (List ℕ) → Option ValidationRunLease → LoadedState
loaded_at n s preview run = record {
  snapshot = s;
  event_sequence = n;
  event_sha256 = digest;
  event_timestamp_us = s.updated_at_us;
  preview_sha256 = preview;
  validation_run = run;
}

abbrev pub mid : LoadedState
mid = loaded_at 5 at_validating (some digest) (some container)

abbrev pub end : LoadedState
end = loaded_at 10 at_applied (some digest) none

abbrev pub mid_files : SessionFiles
mid_files = record { events = first_files; preview = some json_null }

abbrev pub end_files : SessionFiles
end_files = record { events = first_files ++ last_files; preview = some json_null }

abbrev pub result : Update
result = record {
  kind = kind_validation_result;
  snapshot = at_result;
  validation_run = none;
  clear_validation_run = false;
}

abbrev pub early_approval : Update
early_approval = record {
  kind = kind_approved;
  snapshot = at_approved;
  validation_run = none;
  clear_validation_run = false;
}

abbrev pub cleanup : Update
cleanup = record {
  kind = kind_cleanup_complete;
  snapshot = record at_applied { cleanup_pending = false };
  validation_run = none;
  clear_validation_run = false;
}

abbrev pub result_event : EventFile
result_event = event_file 6 (next_event mid result (some container) (some digest))

abbrev pub cleanup_event : EventFile
cleanup_event = event_file 11 (next_event end cleanup none (some digest))

abbrev pub result_files : SessionFiles
result_files = record mid_files { events = first_files ++ result_event ∷ [] }

abbrev pub clean_files : SessionFiles
clean_files = record end_files { events = (first_files ++ last_files) ++ cleanup_event ∷ [] }

abbrev pub result_loaded : LoadedState
result_loaded = loaded_at 6 at_result (some digest) (some container)

abbrev pub clean_loaded : LoadedState
clean_loaded = loaded_at 11 cleanup.snapshot (some digest) none
