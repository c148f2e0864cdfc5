-- ===== src/Repair/Records/Read/Candidate.antt =====
-- `_repair_candidate_from_dict` of src/repoguard/_repair_models.py, and its parts.
use repo_guard.Base.{ℕ, Option, List, [], ◌∷◌}
use repo_guard.Base.Outcome.{ok, ◌>>=◌}
use repo_guard.Text.{codes}
use repo_guard.Agent.Json.{Json}
use repo_guard.Repair.Unicode.{Unicode}
use repo_guard.Repair.Records.{
  RepairContextOutcome, RepairPromptIdentity, RepairContextSummary, RepairCandidate, outcome_text,
  all_outcomes,
}
use repo_guard.Repair.Records.Checks.{
  prompt_identity_is_valid, context_summary_is_valid, candidate_is_valid,
}
use repo_guard.Repair.Records.Exact.{
  Read, exact_str, exact_int, optional, exact_list, enum_value, exact_mapping, field, ◌⊛◌,
  construct,
}

abbrev pub repair_prompt_identity_keys : List (List ℕ)
repair_prompt_identity_keys =
    codes "name"
    ∷ codes "version"
    ∷ codes "system_sha256"
    ∷ codes "response_schema_sha256"
    ∷ codes "combined_sha256"
    ∷ []

abbrev pub build_repair_prompt_identity :
    List ℕ → ℕ → List ℕ → List ℕ → List ℕ → RepairPromptIdentity
build_repair_prompt_identity v0 v1 v2 v3 v4 = record {
  name = v0;
  version = v1;
  system_sha256 = v2;
  response_schema_sha256 = v3;
  combined_sha256 = v4;
}

unfoldable pub repair_prompt_identity_from_dict : Unicode → Json → Read RepairPromptIdentity
unfolding exact_mapping
repair_prompt_identity_from_dict u value = do
  mapping ← exact_mapping repair_prompt_identity_keys value
  built ←
      ok build_repair_prompt_identity
      ⊛ field mapping "name" exact_str
      ⊛ field mapping "version" exact_int
      ⊛ field mapping "system_sha256" exact_str
      ⊛ field mapping "response_schema_sha256" exact_str
      ⊛ field mapping "combined_sha256" exact_str
  construct (prompt_identity_is_valid u) built

abbrev pub repair_context_summary_keys : List (List ℕ)
repair_context_summary_keys =
    codes "outcome"
    ∷ codes "index_identity_sha256"
    ∷ codes "query_sha256"
    ∷ codes "query_count"
    ∷ codes "candidate_count"
    ∷ codes "selected_hit_count"
    ∷ codes "hit_identity_sha256"
    ∷ codes "degradation_code"
    ∷ []

abbrev pub build_repair_context_summary :
    RepairContextOutcome
    → Option (List ℕ)
    → Option (List ℕ)
    → ℕ
    → ℕ
    → ℕ
    → Option (List ℕ)
    → Option (List ℕ)
    → RepairContextSummary
build_repair_context_summary v0 v1 v2 v3 v4 v5 v6 v7 = record {
  outcome = v0;
  index_identity_sha256 = v1;
  query_sha256 = v2;
  query_count = v3;
  candidate_count = v4;
  selected_hit_count = v5;
  hit_identity_sha256 = v6;
  degradation_code = v7;
}

unfoldable pub repair_context_summary_from_dict : Json → Read RepairContextSummary
unfolding exact_mapping
repair_context_summary_from_dict value = do
  mapping ← exact_mapping repair_context_summary_keys value
  built ←
      ok build_repair_context_summary
      ⊛ field mapping "outcome" (enum_value outcome_text all_outcomes)
      ⊛ field mapping "index_identity_sha256" (optional exact_str)
      ⊛ field mapping "query_sha256" (optional exact_str)
      ⊛ field mapping "query_count" exact_int
      ⊛ field mapping "candidate_count" exact_int
      ⊛ field mapping "selected_hit_count" exact_int
      ⊛ field mapping "hit_identity_sha256" (optional exact_str)
      ⊛ field mapping "degradation_code" (optional exact_str)
  construct context_summary_is_valid built

abbrev pub repair_candidate_keys : List (List ℕ)
repair_candidate_keys =
    codes "schema_version"
    ∷ codes "candidate_id"
    ∷ codes "request_sha256"
    ∷ codes "prompt"
    ∷ codes "context"
    ∷ codes "diff_sha256"
    ∷ codes "tree_oid"
    ∷ codes "commit_oid"
    ∷ codes "changed_paths"
    ∷ codes "changed_line_count"
    ∷ codes "provider_attempt_count"
    ∷ codes "input_tokens"
    ∷ codes "output_tokens"
    ∷ []

abbrev pub build_repair_candidate :
    ℕ
    → List ℕ
    → List ℕ
    → RepairPromptIdentity
    → RepairContextSummary
    → List ℕ
    → List ℕ
    → List ℕ
    → List (List ℕ)
    → ℕ
    → ℕ
    → ℕ
    → ℕ
    → RepairCandidate
build_repair_candidate v0 v1 v2 v3 v4 v5 v6 v7 v8 v9 v10 v11 v12 = record {
  schema_version = v0;
  candidate_id = v1;
  request_sha256 = v2;
  prompt = v3;
  context = v4;
  diff_sha256 = v5;
  tree_oid = v6;
  commit_oid = v7;
  changed_paths = v8;
  changed_line_count = v9;
  provider_attempt_count = v10;
  input_tokens = v11;
  output_tokens = v12;
}

unfoldable pub repair_candidate_from_dict : Unicode → Json → Read RepairCandidate
unfolding exact_mapping repair_prompt_identity_from_dict repair_context_summary_from_dict
repair_candidate_from_dict u value = do
  mapping ← exact_mapping repair_candidate_keys value
  built ←
      ok build_repair_candidate
      ⊛ field mapping "schema_version" exact_int
      ⊛ field mapping "candidate_id" exact_str
      ⊛ field mapping "request_sha256" exact_str
      ⊛ field mapping "prompt" (repair_prompt_identity_from_dict u)
      ⊛ field mapping "context" repair_context_summary_from_dict
      ⊛ field mapping "diff_sha256" exact_str
      ⊛ field mapping "tree_oid" exact_str
      ⊛ field mapping "commit_oid" exact_str
      ⊛ field mapping "changed_paths" (exact_list exact_str)
      ⊛ field mapping "changed_line_count" exact_int
      ⊛ field mapping "provider_attempt_count" exact_int
      ⊛ field mapping "input_tokens" exact_int
      ⊛ field mapping "output_tokens" exact_int
  construct (candidate_is_valid u) built
