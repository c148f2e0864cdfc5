-- ===== src/Repair/Records/Built/Validation.antt =====
-- What the reader of a validation returns has been built.
use repo_guard.Base.{ℕ, ◌≡◌, sym, ap, Bool, true, Option, List, All}
use repo_guard.Base.Outcome.{ok, err, ◌>>=◌, >>=-eq-ok}
use repo_guard.Repair.Records.{
  ValidationFailureKind, failure_text, all_failures, ValidationCommandResult, RepairValidation,
}
use repo_guard.Repair.Records.Checks.{command_result_is_valid, validation_is_valid}
use repo_guard.Repair.Records.Exact.{
  Read, exact_str, exact_int, exact_bool, enum_value, optional, exact_list, field, ◌⊛◌, construct,
  exact_mapping,
}
use repo_guard.Repair.Records.Read.Validation.{
  build_validation_command_result, validation_command_result_keys, build_repair_validation,
  repair_validation_keys, validation_command_result_from_dict, repair_validation_from_dict,
}
use repo_guard.Repair.Records.RoundTrip.{IsValidation}
use repo_guard.Repair.Records.Yields.{Yields, field_yields, construct_yields, list_yields}

pub command_result_parts :
    (a0 : Read (ℕ)) (a1 : Read (Option ℕ)) (a2 : Read (Option ℕ)) (a3 : Read (Bool)) (a4 : Read (ℕ))
    (a5 : Read (List ℕ)) (a6 : Read (ℕ)) (a7 : Read (Bool)) (a8 : Read (List ℕ)) (a9 : Read (ℕ))
    (a10 : Read (Bool)) (r : ValidationCommandResult)
    → (ok build_validation_command_result
        ⊛ a0
        ⊛ a1
        ⊛ a2
        ⊛ a3
        ⊛ a4
        ⊛ a5
        ⊛ a6
        ⊛ a7
        ⊛ a8
        ⊛ a9
        ⊛ a10
        >>= construct (command_result_is_valid))
      ≡ ok r
    → (command_result_is_valid r ≡ true)
command_result_parts (ok x0) (ok x1) (ok x2) (ok x3) (ok x4) (ok x5) (ok x6) (ok x7) (ok x8) (ok x9)
      (ok x10) r h =
    let (valid, q) = construct_yields (command_result_is_valid) _ r h in valid
command_result_parts (err e) a1 a2 a3 a4 a5 a6 a7 a8 a9 a10 r h = cc
command_result_parts (ok x0) (err e) a2 a3 a4 a5 a6 a7 a8 a9 a10 r h = cc
command_result_parts (ok x0) (ok x1) (err e) a3 a4 a5 a6 a7 a8 a9 a10 r h = cc
command_result_parts (ok x0) (ok x1) (ok x2) (err e) a4 a5 a6 a7 a8 a9 a10 r h = cc
command_result_parts (ok x0) (ok x1) (ok x2) (ok x3) (err e) a5 a6 a7 a8 a9 a10 r h = cc
command_result_parts (ok x0) (ok x1) (ok x2) (ok x3) (ok x4) (err e) a6 a7 a8 a9 a10 r h = cc
command_result_parts (ok x0) (ok x1) (ok x2) (ok x3) (ok x4) (ok x5) (err e) a7 a8 a9 a10 r h = cc
command_result_parts (ok x0) (ok x1) (ok x2) (ok x3) (ok x4) (ok x5) (ok x6) (err e) a8 a9 a10 r h =
    cc
command_result_parts (ok x0) (ok x1) (ok x2) (ok x3) (ok x4) (ok x5) (ok x6) (ok x7) (err e) a9 a10
      r h =
    cc
command_result_parts (ok x0) (ok x1) (ok x2) (ok x3) (ok x4) (ok x5) (ok x6) (ok x7) (ok x8) (err e)
      a10 r h =
    cc
command_result_parts (ok x0) (ok x1) (ok x2) (ok x3) (ok x4) (ok x5) (ok x6) (ok x7) (ok x8) (ok x9)
      (err e) r h =
    cc

pub command_result_built :
    Yields (validation_command_result_from_dict) (λ r. command_result_is_valid r ≡ true)
unfolding validation_command_result_from_dict
command_result_built v r h =
    let (m, _, h1) = >>=-eq-ok (exact_mapping validation_command_result_keys v) _ h in
    let valid =
      command_result_parts (field m "command_index" exact_int)
        (field m "exit_code" (optional exact_int)) (field m "signal" (optional exact_int))
        (field m "timed_out" exact_bool) (field m "duration_us" exact_int)
        (field m "stdout_sha256" exact_str) (field m "stdout_bytes" exact_int)
        (field m "stdout_truncated" exact_bool) (field m "stderr_sha256" exact_str)
        (field m "stderr_bytes" exact_int) (field m "stderr_truncated" exact_bool) r h1 in
    valid

pub validation_parts :
    (a0 : Read (ℕ)) (a1 : Read (List ℕ)) (a2 : Read (List ℕ)) (a3 : Read (List ℕ))
    (a4 : Read (List ℕ)) (a5 : Read (List ℕ)) (a6 : Read (ℕ)) (a7 : Read (ℕ)) (a8 : Read (Bool))
    (a9 : Read (Option ValidationFailureKind)) (a10 : Read (List ValidationCommandResult))
    (a11 : Read (ℕ)) (a12 : Read (Bool)) (a13 : Read (ℕ)) (a14 : Read (ℕ)) (a15 : Read (ℕ))
    (a16 : Read (Bool)) (r : RepairValidation)
    → (ok build_repair_validation
        ⊛ a0
        ⊛ a1
        ⊛ a2
        ⊛ a3
        ⊛ a4
        ⊛ a5
        ⊛ a6
        ⊛ a7
        ⊛ a8
        ⊛ a9
        ⊛ a10
        ⊛ a11
        ⊛ a12
        ⊛ a13
        ⊛ a14
        ⊛ a15
        ⊛ a16
        >>= construct (validation_is_valid))
      ≡ ok r
    → (a10 ≡ ok r.command_results) × (validation_is_valid r ≡ true)
validation_parts (ok x0) (ok x1) (ok x2) (ok x3) (ok x4) (ok x5) (ok x6) (ok x7) (ok x8) (ok x9)
      (ok x10) (ok x11) (ok x12) (ok x13) (ok x14) (ok x15) (ok x16) r h =
    let (valid, q) = construct_yields (validation_is_valid) _ r h in
    (ap (λ s. ok s.command_results) (sym q), valid)
validation_parts (err e) a1 a2 a3 a4 a5 a6 a7 a8 a9 a10 a11 a12 a13 a14 a15 a16 r h = cc
validation_parts (ok x0) (err e) a2 a3 a4 a5 a6 a7 a8 a9 a10 a11 a12 a13 a14 a15 a16 r h = cc
validation_parts (ok x0) (ok x1) (err e) a3 a4 a5 a6 a7 a8 a9 a10 a11 a12 a13 a14 a15 a16 r h = cc
validation_parts (ok x0) (ok x1) (ok x2) (err e) a4 a5 a6 a7 a8 a9 a10 a11 a12 a13 a14 a15 a16 r h =
    cc
validation_parts (ok x0) (ok x1) (ok x2) (ok x3) (err e) a5 a6 a7 a8 a9 a10 a11 a12 a13 a14 a15 a16
      r h =
    cc
validation_parts (ok x0) (ok x1) (ok x2) (ok x3) (ok x4) (err e) a6 a7 a8 a9 a10 a11 a12 a13 a14 a15
      a16 r h =
    cc
validation_parts (ok x0) (ok x1) (ok x2) (ok x3) (ok x4) (ok x5) (err e) a7 a8 a9 a10 a11 a12 a13
      a14 a15 a16 r h =
    cc
validation_parts (ok x0) (ok x1) (ok x2) (ok x3) (ok x4) (ok x5) (ok x6) (err e) a8 a9 a10 a11 a12
      a13 a14 a15 a16 r h =
    cc
validation_parts (ok x0) (ok x1) (ok x2) (ok x3) (ok x4) (ok x5) (ok x6) (ok x7) (err e) a9 a10 a11
      a12 a13 a14 a15 a16 r h =
    cc
validation_parts (ok x0) (ok x1) (ok x2) (ok x3) (ok x4) (ok x5) (ok x6) (ok x7) (ok x8) (err e) a10
      a11 a12 a13 a14 a15 a16 r h =
    cc
validation_parts (ok x0) (ok x1) (ok x2) (ok x3) (ok x4) (ok x5) (ok x6) (ok x7) (ok x8) (ok x9)
      (err e) a11 a12 a13 a14 a15 a16 r h =
    cc
validation_parts (ok x0) (ok x1) (ok x2) (ok x3) (ok x4) (ok x5) (ok x6) (ok x7) (ok x8) (ok x9)
      (ok x10) (err e) a12 a13 a14 a15 a16 r h =
    cc
validation_parts (ok x0) (ok x1) (ok x2) (ok x3) (ok x4) (ok x5) (ok x6) (ok x7) (ok x8) (ok x9)
      (ok x10) (ok x11) (err e) a13 a14 a15 a16 r h =
    cc
validation_parts (ok x0) (ok x1) (ok x2) (ok x3) (ok x4) (ok x5) (ok x6) (ok x7) (ok x8) (ok x9)
      (ok x10) (ok x11) (ok x12) (err e) a14 a15 a16 r h =
    cc
validation_parts (ok x0) (ok x1) (ok x2) (ok x3) (ok x4) (ok x5) (ok x6) (ok x7) (ok x8) (ok x9)
      (ok x10) (ok x11) (ok x12) (ok x13) (err e) a15 a16 r h =
    cc
validation_parts (ok x0) (ok x1) (ok x2) (ok x3) (ok x4) (ok x5) (ok x6) (ok x7) (ok x8) (ok x9)
      (ok x10) (ok x11) (ok x12) (ok x13) (ok x14) (err e) a16 r h =
    cc
validation_parts (ok x0) (ok x1) (ok x2) (ok x3) (ok x4) (ok x5) (ok x6) (ok x7) (ok x8) (ok x9)
      (ok x10) (ok x11) (ok x12) (ok x13) (ok x14) (ok x15) (err e) r h =
    cc

pub from_dict-IsValidation : Yields (repair_validation_from_dict) (IsValidation)
unfolding repair_validation_from_dict
from_dict-IsValidation v r h =
    let (m, _, h1) = >>=-eq-ok (exact_mapping repair_validation_keys v) _ h in
    let (q0, valid) =
      validation_parts (field m "schema_version" exact_int) (field m "validation_sha256" exact_str)
        (field m "candidate_id" exact_str) (field m "policy_sha256" exact_str)
        (field m "sandbox_manifest_sha256" exact_str) (field m "image_id" exact_str)
        (field m "started_at_us" exact_int) (field m "finished_at_us" exact_int)
        (field m "success" exact_bool)
        (field m "failure_kind" (optional (enum_value failure_text all_failures)))
        (field m "command_results" (exact_list validation_command_result_from_dict))
        (field m "peak_memory_bytes" exact_int) (field m "oom_killed" exact_bool)
        (field m "residual_process_count" exact_int) (field m "workspace_entry_count" exact_int)
        (field m "workspace_inode_count" exact_int) (field m "tracked_tree_clean" exact_bool) r
        h1 in
    (
      field_yields (exact_list validation_command_result_from_dict)
          (All (λ c. command_result_is_valid c ≡ true)) m "command_results"
          (list_yields validation_command_result_from_dict (λ c. command_result_is_valid c ≡ true)
            command_result_built)
          q0,
      valid,
    )
