-- ===== src/Repair/Session/Tests.antt =====
-- A session from its creation to the published repair, and the theorems there.
use repo_guard.Base.{
  ℕ_discrete, ◌⊎◌, ◌↔◌, ◌+◌, ◌≡◌, refl, sym, subst, ◌∙◌, All, Option, none, some, ◌++◌,
}
use repo_guard.Base.Outcome.{ok}
use repo_guard.Base.Order.Sort.{sorted}
use repo_guard.Text.{encode_utf8}
use repo_guard.Agent.Json.{json_null, has_exactly}
use repo_guard.Review.Validate.{is_hex_text, is_lowercase_hex}
use repo_guard.Repair.Paths.{
  canonical_repository_paths, validate_repository_path, require_utf8, strip_spaces, split_on,
  is_unsafe_component, distinct_count,
}
use repo_guard.Repair.Records.{RepairCandidate, RepairValidation, RepairApproval, RepairApplication}
use repo_guard.Repair.Session.{kind_cleanup_complete}
use repo_guard.Repair.Session.Chain.{load_event_chain}
use repo_guard.Repair.Session.Event.{event_name, event_mapping}
use repo_guard.Repair.Session.Append.{
  event_file, next_event, append, next_validation_run, check_update, next_preview, loaded_behind,
}
use repo_guard.Repair.Records.Shape.Parts.{IsRepaired}
use repo_guard.Repair.Session.RoundTrip.{append_then_load}
use repo_guard.Repair.Session.Written.{MakesDigests}
use repo_guard.Repair.Session.History.{
  IsNamed, AllPassed, applied_session, load_event_chain-IsLater,
}
use repo_guard.Repair.Session.Bounds.{IsBounded, load_event_chain-IsBounded}
use repo_guard.Repair.Session.Later.{IsLater}
use repo_guard.Repair.Session.Invariant.{IsSession, load_event_chain-IsSession}
use repo_guard.Repair.Session.Tamper.{IsCanonical, Collision, event_sha256_fixes_chain}
use repo_guard.Repair.Session.Ended.{IsCleanup, HasSameRecords, append_behind_end}
use repo_guard.Repair.Session.Accepts.{check_update_iff}
use repo_guard.Repair.Session.Lease.RoundTrip.{IsLease}
use repo_guard.Repair.Records.RoundTrip.{IsSnapshot, snapshot_round_trip}
use repo_guard.Repair.Session.Chain.{load_events, load_event, load_mapping, follows_previous}
use repo_guard.Repair.Session.Event.{validate_event_mapping}
use repo_guard.Repair.Records.Exact.{exact_mapping}
use repo_guard.Repair.Records.Write.{
  repair_snapshot_to_dict, repair_candidate_to_dict, repair_prompt_identity_to_dict,
  repair_context_summary_to_dict, repair_validation_to_dict, validation_command_result_to_dict,
  repair_approval_to_dict, repair_application_to_dict,
}
use repo_guard.Repair.Records.Read.{repair_snapshot_from_dict}
use repo_guard.Repair.Records.Read.Decision.{
  repair_approval_from_dict, repair_application_from_dict,
}
use repo_guard.Repair.Records.Read.Validation.{
  repair_validation_from_dict, validation_command_result_from_dict,
}
use repo_guard.Repair.Records.Read.Candidate.{
  repair_candidate_from_dict, repair_prompt_identity_from_dict, repair_context_summary_from_dict,
}
use repo_guard.Repair.Records.Checks.{
  snapshot_is_valid, candidate_is_valid, prompt_identity_is_valid, context_summary_is_valid,
  validation_is_valid, command_result_is_valid, approval_is_valid, application_is_valid, is_text,
  are_paths,
}
use repo_guard.Repair.Records.Shape.{has_valid_shape, has_what_state_requires}
use repo_guard.Repair.Records.{
  RepairState-discrete, RepairCandidate-discrete, RepairValidation-discrete,
  RepairApproval-discrete, RepairApplication-discrete,
}
use repo_guard.Repair.Session.Digests.{
  snapshot_record_digests_are_valid, domain_digest, candidate_digest, validation_digest,
  approval_digest, application_digest, without,
}
use repo_guard.Repair.Session.Lease.{
  optional_lease_from_dict, optional_lease_to_dict, lease_to_dict, lease_from_dict, lease_is_valid,
  is_container_name, ValidationRunLease-discrete,
}
use repo_guard.Repair.Session.{event_state_pair_is_valid, can_transition_or_same, can_transition}
use repo_guard.Repair.Session.Updates.{
  validation_run_update_is_valid, validation_run_matches_snapshot, lease_update_is_valid,
  lease_is_carried, same_validation_intent, candidate_preview_update_is_valid,
  snapshot_update_is_valid, same_identity, mutable_update_is_valid, changes_exactly,
  SnapshotField-discrete,
}
use repo_guard.Repair.Session.Sample.{
  ascii, digest, hashing, at_result, at_applied, container, first_files, last_files, mid, end,
  mid_files, end_files, result, cleanup, result_files, clean_files, result_loaded, clean_loaded,
  loads_time, colliding, start_file, early_file, late_file, early_files, late_files, loaded_at,
  at_generating, at_generating_later,
}
use repo_guard.Repair.Session.Event.{EventFile}
use repo_guard.Agent.Json.{Fields, json_object}

-- What the code does with these files and updates.
record Runs : Type 0 where
  mid_loads : load_event_chain hashing ascii digest first_files ≡ ok mid
  end_loads : load_event_chain hashing ascii digest (first_files ++ last_files) ≡ ok end
  result_appends : append hashing ascii digest result mid_files ≡ ok (result_files, result_loaded)
  cleanup_appends : append hashing ascii digest cleanup end_files ≡ ok (clean_files, clean_loaded)
  result_checked :
      check_update hashing digest mid result (some container) (some json_null) ≡ ok (some digest)
  digests_made : MakesDigests hashing
  result_built : IsSnapshot ascii at_result
  container_built : IsLease container
  early_loads :
      load_event_chain colliding ascii digest early_files ≡ ok (loaded_at 1 at_generating none none)
  late_loads :
      load_event_chain colliding ascii digest late_files
      ≡ ok (loaded_at 1 at_generating_later none none)

runs : Runs
unfolding load_event_chain load_events load_event load_mapping validate_event_mapping event_name
    event_mapping follows_previous has_exactly exact_mapping repair_snapshot_to_dict
    repair_candidate_to_dict repair_prompt_identity_to_dict repair_context_summary_to_dict
    repair_validation_to_dict validation_command_result_to_dict repair_approval_to_dict
    repair_application_to_dict repair_snapshot_from_dict repair_candidate_from_dict
    repair_prompt_identity_from_dict repair_context_summary_from_dict repair_validation_from_dict
    validation_command_result_from_dict repair_approval_from_dict repair_application_from_dict
    snapshot_is_valid candidate_is_valid prompt_identity_is_valid context_summary_is_valid
    validation_is_valid command_result_is_valid approval_is_valid application_is_valid is_text
    are_paths has_valid_shape has_what_state_requires canonical_repository_paths
    validate_repository_path require_utf8 encode_utf8 strip_spaces split_on is_unsafe_component
    sorted distinct_count is_hex_text is_lowercase_hex RepairState-discrete
    snapshot_record_digests_are_valid domain_digest candidate_digest validation_digest
    approval_digest application_digest optional_lease_from_dict optional_lease_to_dict lease_to_dict
    lease_from_dict lease_is_valid is_container_name event_state_pair_is_valid
    can_transition_or_same can_transition validation_run_update_is_valid
    validation_run_matches_snapshot lease_update_is_valid lease_is_carried same_validation_intent
    candidate_preview_update_is_valid snapshot_update_is_valid same_identity mutable_update_is_valid
    changes_exactly SnapshotField-discrete RepairCandidate-discrete RepairValidation-discrete
    RepairApproval-discrete RepairApplication-discrete ValidationRunLease-discrete without append
    next_validation_run check_update next_event next_preview ℕ_discrete
runs = record {
  mid_loads = refl;
  end_loads = refl;
  result_appends = refl;
  cleanup_appends = refl;
  result_checked = refl;
  digests_made = λ v. refl;
  result_built = record {
    candidate_built = (refl, refl, refl);
    validation_built = ((refl, tt), refl);
    approval_built = tt;
    application_built = tt;
    decision_built = tt;
    failure_built = tt;
    is_built = refl;
  };
  container_built = refl;
  early_loads = refl;
  late_loads = refl;
}

append_then_load_example :
    load_event_chain hashing ascii digest result_files.events ≡ ok result_loaded
append_then_load_example =
    append_then_load hashing ascii digest result mid_files result_files result_loaded
      runs.digests_made runs.result_built tt runs.result_appends

applied_session_example :
    (c : RepairCandidate) × (v : RepairValidation) × (a : RepairApproval) × (p : RepairApplication)
    × IsRepaired at_applied c v a p
    × IsNamed hashing c v a p
    × AllPassed v
applied_session_example =
    applied_session hashing ascii digest (first_files ++ last_files) end runs.end_loads refl

load_event_chain-IsLater_example : IsLater mid end
load_event_chain-IsLater_example =
    load_event_chain-IsLater hashing ascii digest first_files last_files mid end runs.mid_loads
      runs.end_loads

load_event_chain-IsSession_example : IsSession hashing ascii digest mid
load_event_chain-IsSession_example =
    load_event_chain-IsSession hashing ascii digest first_files mid runs.mid_loads

load_event_chain-IsBounded_example : IsBounded (first_files ++ last_files) end
load_event_chain-IsBounded_example =
    load_event_chain-IsBounded hashing ascii digest (first_files ++ last_files) end runs.end_loads

content-IsCanonical :
    (file : EventFile) (m : Fields)
    → file.content ≡ some m
    → loads_time (colliding.canonical_bytes (json_object m)) ≡ some m
    → IsCanonical loads_time colliding file
content-IsCanonical file m is_m reads n is_n =
    subst (λ x. loads_time (colliding.canonical_bytes (json_object x)) ≡ some x)
      (some_injective (sym is_m ∙ is_n)) reads
  where
    some_injective : ◌≡◌ {A = Option Fields} (some m) (some n) → m ≡ n
    some_injective e = cc

early-IsCanonical : All (IsCanonical loads_time colliding) early_files
unfolding event_mapping
early-IsCanonical =
    (content-IsCanonical start_file _ refl refl, (content-IsCanonical early_file _ refl refl, tt))

late-IsCanonical : All (IsCanonical loads_time colliding) late_files
unfolding event_mapping
late-IsCanonical =
    (content-IsCanonical start_file _ refl refl, (content-IsCanonical late_file _ refl refl, tt))

-- The second events of the two chains differ, and hashing makes one digest of them.
event_sha256_fixes_chain_example :
    (early_files ≡ late_files) ⊎ Collision colliding early_files late_files
event_sha256_fixes_chain_example =
    event_sha256_fixes_chain loads_time colliding ascii digest early_files late_files
      (loaded_at 1 at_generating none none) (loaded_at 1 at_generating_later none none)
      early-IsCanonical late-IsCanonical runs.early_loads runs.late_loads refl

append_behind_end_example :
    IsCleanup kind_cleanup_complete × HasSameRecords at_applied cleanup.snapshot
append_behind_end_example =
    append_behind_end hashing ascii digest cleanup end_files clean_files end clean_loaded
      runs.end_loads refl runs.cleanup_appends

check_update_iff_example :
    (check_update hashing digest mid result (some container) (some json_null) ≡ ok (some digest))
    ↔ (load_event hashing ascii digest (some mid) (
          event_file
            (mid.event_sequence + 1)
            (next_event mid result (some container) (some digest)))
        ≡ ok (loaded_behind hashing mid result (some container) (some digest)))
unfolding next_preview is_hex_text is_lowercase_hex
check_update_iff_example =
    check_update_iff hashing ascii digest mid result (some container) (some json_null) (some digest)
      refl runs.result_built runs.container_built refl refl

snapshot_round_trip_example :
    repair_snapshot_from_dict ascii (repair_snapshot_to_dict at_result) ≡ ok at_result
snapshot_round_trip_example = snapshot_round_trip ascii at_result runs.result_built
