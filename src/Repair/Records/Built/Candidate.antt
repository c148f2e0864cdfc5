-- ===== src/Repair/Records/Built/Candidate.antt =====
-- What the reader of a candidate returns has been built.
use repo_guard.Base.{ℕ, ◌≡◌, sym, ap, true, Option, List}
use repo_guard.Base.Outcome.{ok, err, ◌>>=◌, >>=-eq-ok}
use repo_guard.Repair.Unicode.{Unicode}
use repo_guard.Repair.Records.{
  RepairContextOutcome, outcome_text, all_outcomes, RepairPromptIdentity, RepairContextSummary,
  RepairCandidate,
}
use repo_guard.Repair.Records.Checks.{
  prompt_identity_is_valid, context_summary_is_valid, candidate_is_valid,
}
use repo_guard.Repair.Records.Exact.{
  Read, exact_str, exact_int, enum_value, optional, exact_list, field, ◌⊛◌, construct,
  exact_mapping,
}
use repo_guard.Repair.Records.Read.Candidate.{
  build_repair_prompt_identity, repair_prompt_identity_keys, build_repair_context_summary,
  repair_context_summary_keys, build_repair_candidate, repair_candidate_keys,
  repair_prompt_identity_from_dict, repair_context_summary_from_dict, repair_candidate_from_dict,
}
use repo_guard.Repair.Records.RoundTrip.{IsCandidate}
use repo_guard.Repair.Records.Yields.{Yields, field_yields, construct_yields}

pub prompt_identity_parts :
    (u : Unicode) (a0 : Read (List ℕ)) (a1 : Read (ℕ)) (a2 : Read (List ℕ)) (a3 : Read (List ℕ))
    (a4 : Read (List ℕ)) (r : RepairPromptIdentity)
    → (ok build_repair_prompt_identity
        ⊛ a0
        ⊛ a1
        ⊛ a2
        ⊛ a3
        ⊛ a4
        >>= construct (prompt_identity_is_valid u))
      ≡ ok r
    → (prompt_identity_is_valid u r ≡ true)
prompt_identity_parts u (ok x0) (ok x1) (ok x2) (ok x3) (ok x4) r h =
    let (valid, q) = construct_yields (prompt_identity_is_valid u) _ r h in valid
prompt_identity_parts u (err e) a1 a2 a3 a4 r h = cc
prompt_identity_parts u (ok x0) (err e) a2 a3 a4 r h = cc
prompt_identity_parts u (ok x0) (ok x1) (err e) a3 a4 r h = cc
prompt_identity_parts u (ok x0) (ok x1) (ok x2) (err e) a4 r h = cc
prompt_identity_parts u (ok x0) (ok x1) (ok x2) (ok x3) (err e) r h = cc

pub prompt_identity_built :
    (u : Unicode)
    → Yields (repair_prompt_identity_from_dict u) (λ r. prompt_identity_is_valid u r ≡ true)
unfolding repair_prompt_identity_from_dict
prompt_identity_built u v r h =
    let (m, _, h1) = >>=-eq-ok (exact_mapping repair_prompt_identity_keys v) _ h in
    let valid =
      prompt_identity_parts u (field m "name" exact_str) (field m "version" exact_int)
        (field m "system_sha256" exact_str) (field m "response_schema_sha256" exact_str)
        (field m "combined_sha256" exact_str) r h1 in
    valid

pub context_summary_parts :
    (a0 : Read (RepairContextOutcome)) (a1 : Read (Option (List ℕ))) (a2 : Read (Option (List ℕ)))
    (a3 : Read (ℕ)) (a4 : Read (ℕ)) (a5 : Read (ℕ)) (a6 : Read (Option (List ℕ)))
    (a7 : Read (Option (List ℕ))) (r : RepairContextSummary)
    → (ok build_repair_context_summary
        ⊛ a0
        ⊛ a1
        ⊛ a2
        ⊛ a3
        ⊛ a4
        ⊛ a5
        ⊛ a6
        ⊛ a7
        >>= construct (context_summary_is_valid))
      ≡ ok r
    → (context_summary_is_valid r ≡ true)
context_summary_parts (ok x0) (ok x1) (ok x2) (ok x3) (ok x4) (ok x5) (ok x6) (ok x7) r h =
    let (valid, q) = construct_yields (context_summary_is_valid) _ r h in valid
context_summary_parts (err e) a1 a2 a3 a4 a5 a6 a7 r h = cc
context_summary_parts (ok x0) (err e) a2 a3 a4 a5 a6 a7 r h = cc
context_summary_parts (ok x0) (ok x1) (err e) a3 a4 a5 a6 a7 r h = cc
context_summary_parts (ok x0) (ok x1) (ok x2) (err e) a4 a5 a6 a7 r h = cc
context_summary_parts (ok x0) (ok x1) (ok x2) (ok x3) (err e) a5 a6 a7 r h = cc
context_summary_parts (ok x0) (ok x1) (ok x2) (ok x3) (ok x4) (err e) a6 a7 r h = cc
context_summary_parts (ok x0) (ok x1) (ok x2) (ok x3) (ok x4) (ok x5) (err e) a7 r h = cc
context_summary_parts (ok x0) (ok x1) (ok x2) (ok x3) (ok x4) (ok x5) (ok x6) (err e) r h = cc

pub context_summary_built :
    Yields (repair_context_summary_from_dict) (λ r. context_summary_is_valid r ≡ true)
unfolding repair_context_summary_from_dict
context_summary_built v r h =
    let (m, _, h1) = >>=-eq-ok (exact_mapping repair_context_summary_keys v) _ h in
    let valid =
      context_summary_parts (field m "outcome" (enum_value outcome_text all_outcomes))
        (field m "index_identity_sha256" (optional exact_str))
        (field m "query_sha256" (optional exact_str)) (field m "query_count" exact_int)
        (field m "candidate_count" exact_int) (field m "selected_hit_count" exact_int)
        (field m "hit_identity_sha256" (optional exact_str))
        (field m "degradation_code" (optional exact_str)) r h1 in
    valid

pub candidate_parts :
    (u : Unicode) (a0 : Read (ℕ)) (a1 : Read (List ℕ)) (a2 : Read (List ℕ))
    (a3 : Read (RepairPromptIdentity)) (a4 : Read (RepairContextSummary)) (a5 : Read (List ℕ))
    (a6 : Read (List ℕ)) (a7 : Read (List ℕ)) (a8 : Read (List (List ℕ))) (a9 : Read (ℕ))
    (a10 : Read (ℕ)) (a11 : Read (ℕ)) (a12 : Read (ℕ)) (r : RepairCandidate)
    → (ok build_repair_candidate
        ⊛ a0
        ⊛ a1
        ⊛ a2
        ⊛ a3
        ⊛ a4
        ⊛ a5
        ⊛ a6
        ⊛ a7
        ⊛ a8
        ⊛ a9
        ⊛ a10
        ⊛ a11
        ⊛ a12
        >>= construct (candidate_is_valid u))
      ≡ ok r
    → (a3 ≡ ok r.prompt) × (a4 ≡ ok r.context) × (candidate_is_valid u r ≡ true)
candidate_parts u (ok x0) (ok x1) (ok x2) (ok x3) (ok x4) (ok x5) (ok x6) (ok x7) (ok x8) (ok x9)
      (ok x10) (ok x11) (ok x12) r h =
    let (valid, q) = construct_yields (candidate_is_valid u) _ r h in
    (ap (λ s. ok s.prompt) (sym q), ap (λ s. ok s.context) (sym q), valid)
candidate_parts u (err e) a1 a2 a3 a4 a5 a6 a7 a8 a9 a10 a11 a12 r h = cc
candidate_parts u (ok x0) (err e) a2 a3 a4 a5 a6 a7 a8 a9 a10 a11 a12 r h = cc
candidate_parts u (ok x0) (ok x1) (err e) a3 a4 a5 a6 a7 a8 a9 a10 a11 a12 r h = cc
candidate_parts u (ok x0) (ok x1) (ok x2) (err e) a4 a5 a6 a7 a8 a9 a10 a11 a12 r h = cc
candidate_parts u (ok x0) (ok x1) (ok x2) (ok x3) (err e) a5 a6 a7 a8 a9 a10 a11 a12 r h = cc
candidate_parts u (ok x0) (ok x1) (ok x2) (ok x3) (ok x4) (err e) a6 a7 a8 a9 a10 a11 a12 r h = cc
candidate_parts u (ok x0) (ok x1) (ok x2) (ok x3) (ok x4) (ok x5) (err e) a7 a8 a9 a10 a11 a12 r h =
    cc
candidate_parts u (ok x0) (ok x1) (ok x2) (ok x3) (ok x4) (ok x5) (ok x6) (err e) a8 a9 a10 a11 a12
      r h =
    cc
candidate_parts u (ok x0) (ok x1) (ok x2) (ok x3) (ok x4) (ok x5) (ok x6) (ok x7) (err e) a9 a10 a11
      a12 r h =
    cc
candidate_parts u (ok x0) (ok x1) (ok x2) (ok x3) (ok x4) (ok x5) (ok x6) (ok x7) (ok x8) (err e)
      a10 a11 a12 r h =
    cc
candidate_parts u (ok x0) (ok x1) (ok x2) (ok x3) (ok x4) (ok x5) (ok x6) (ok x7) (ok x8) (ok x9)
      (err e) a11 a12 r h =
    cc
candidate_parts u (ok x0) (ok x1) (ok x2) (ok x3) (ok x4) (ok x5) (ok x6) (ok x7) (ok x8) (ok x9)
      (ok x10) (err e) a12 r h =
    cc
candidate_parts u (ok x0) (ok x1) (ok x2) (ok x3) (ok x4) (ok x5) (ok x6) (ok x7) (ok x8) (ok x9)
      (ok x10) (ok x11) (err e) r h =
    cc

pub from_dict-IsCandidate : (u : Unicode) → Yields (repair_candidate_from_dict u) (IsCandidate u)
unfolding repair_candidate_from_dict
from_dict-IsCandidate u v r h =
    let (m, _, h1) = >>=-eq-ok (exact_mapping repair_candidate_keys v) _ h in
    let (q0, q1, valid) =
      candidate_parts u (field m "schema_version" exact_int) (field m "candidate_id" exact_str)
        (field m "request_sha256" exact_str) (field m "prompt" (repair_prompt_identity_from_dict u))
        (field m "context" repair_context_summary_from_dict) (field m "diff_sha256" exact_str)
        (field m "tree_oid" exact_str) (field m "commit_oid" exact_str)
        (field m "changed_paths" (exact_list exact_str)) (field m "changed_line_count" exact_int)
        (field m "provider_attempt_count" exact_int) (field m "input_tokens" exact_int)
        (field m "output_tokens" exact_int) r h1 in
    (
      field_yields (repair_prompt_identity_from_dict u) (λ r. prompt_identity_is_valid u r ≡ true) m
          "prompt" (prompt_identity_built u) q0,
      field_yields repair_context_summary_from_dict (λ r. context_summary_is_valid r ≡ true) m
          "context" context_summary_built q1,
      valid,
    )
