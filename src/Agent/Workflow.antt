-- ===== src/Agent/Workflow.antt =====
-- The nodes of the graph of src/repoguard/_agent.py around the attempts, and the graph.
pub mod Sound
use repo_guard.Base.{
  ℕ, zero, suc, ◌+◌, Bool, true, false, not, ◌&&◌, Option, none, some, List, [], ◌∷◌, ltb, leb, all,
  length,
}
use repo_guard.Base.Outcome.{Outcome, ok, err, ◌>>=◌, ◌>>◌, require}
use repo_guard.Text.{encodes, encode_utf8}
use repo_guard.Evidence.{RepositoryEvidence, RevisionEvidence, EvidenceBundle}
use repo_guard.Review.{ReviewResult, ReviewError, ReviewErrorCode}
use repo_guard.Review.Engine.{review_evidence}
use repo_guard.Agent.{
  Agent, AgentNode, deterministic_review, build_prompt, finalize, AgentReviewErrorCode,
  unsupported_evidence_schema, invalid_evidence, context_limit_exceeded, budget_exceeded,
  workflow_execution_failed, AgentReviewError, AgentReviewConfig,
}
use repo_guard.Agent.Provider.{
  LlmMessage, LlmRequest, LlmResponse, TokenUsage, Answer, validate_identifier,
  validate_configuration,
}
use repo_guard.Agent.Context.Changes.{validate_context_evidence}
use repo_guard.Agent.Json.{JsonLoads}
use repo_guard.Agent.Targets.{ReferenceTarget, reference_targets}
use repo_guard.Agent.Response.{AgentFinding, parse_model_findings}
use repo_guard.Agent.Reference.{bad_output}
use repo_guard.Agent.Attempts.{Attempts, Attempt, Failure, Setting, review_attempts}
use repo_guard.Agent.Merge.{merge_findings}
use repo_guard.Agent.Prompt.{PromptData, prompt_data}

-- What the workflow meets: the clock, the provider, json.loads, and how the data of the
-- prompt are written as messages.
pub record Surroundings : Type 0 where
  pub monotonic : ℕ → ℕ
  pub provider_name : List ℕ
  pub complete : ℕ → LlmRequest → Answer
  pub loads : JsonLoads
  pub messages : PromptData → List LlmMessage

pub record AgentReviewResult : Type 0 where
  pub repository : RepositoryEvidence
  pub revisions : RevisionEvidence
  pub provider : List ℕ
  pub model : List ℕ
  pub attempt_count : ℕ
  pub usage : Option TokenUsage
  pub prompt_bytes : ℕ
  pub response_bytes : ℕ
  pub findings : List AgentFinding

abbrev pub failure : {A : Type 0} → AgentReviewErrorCode → AgentNode → ℕ → Agent A
failure code node attempt_count =
    err (record { code = code; node = node; attempt_count = attempt_count })

-- _validate_node, which gives the deadline
unfoldable pub validate_node : Surroundings → AgentReviewConfig → EvidenceBundle → Agent ℕ
validate_node w config bundle = do
  validate_configuration config
  validate_identifier w.provider_name 64
  targets ← validate_context_evidence bundle
  ok (w.monotonic 0 + config.total_timeout)

abbrev pub review_error_code : ReviewErrorCode → AgentReviewErrorCode
review_error_code ReviewErrorCode.unsupported_evidence_schema = unsupported_evidence_schema
review_error_code ReviewErrorCode.invalid_evidence = invalid_evidence
review_error_code ReviewErrorCode.rule_execution_failed = workflow_execution_failed

-- _deterministic_review_node
unfoldable pub deterministic_review_node : EvidenceBundle → Agent ReviewResult
deterministic_review_node bundle = elim (review_evidence bundle) [
  | ok review ↦ ok review
  | err e ↦ failure (review_error_code e.code) deterministic_review 0
]

pub record RenderedPrompt : Type 0 where
  pub messages : List LlmMessage
  pub byte_count : ℕ
  pub targets : List ReferenceTarget

abbrev pub count_bytes : List LlmMessage → ℕ
count_bytes [] = 0
count_bytes (m ∷ ms) = length (encode_utf8 m.content) + count_bytes ms

-- The end of `_render_review_prompt`, where a UnicodeError or a ValueError is `none`.
unfoldable pub render_review_prompt : List LlmMessage → EvidenceBundle → Option RenderedPrompt
render_review_prompt messages bundle = elim (all (λ m. encodes m.content) messages) [
  | false ↦ none
  | true ↦ elim (reference_targets bundle.changes []) [
    | err e ↦ none
    | ok targets ↦
        some (record { messages = messages; byte_count = count_bytes messages; targets = targets })
  ]
]

-- _build_prompt_node
unfoldable pub build_prompt_node :
    Surroundings → AgentReviewConfig → EvidenceBundle → ReviewResult → Agent RenderedPrompt
build_prompt_node w config bundle review =
    elim (render_review_prompt (w.messages (prompt_data bundle review)) bundle) [
      | none ↦ failure invalid_evidence build_prompt 0
      | some rendered ↦ elim (ltb config.max_prompt_bytes rendered.byte_count) [
        | true ↦ failure context_limit_exceeded build_prompt 0
        | false ↦ ok rendered
      ]
    ]

-- The attempts, without the log of a failure; LangGraph stops a cycle that does not end.
abbrev pub attempts_outcome : Option (Attempt Attempts) → Agent Attempts
attempts_outcome none = failure workflow_execution_failed finalize 0
attempts_outcome (some (err f)) = err f.error
attempts_outcome (some (ok s)) = ok s

abbrev pub the_response : Option LlmResponse → ℕ → Agent LlmResponse
the_response none n = failure workflow_execution_failed AgentNode.parse_response n
the_response (some response) n = ok response

-- _parse_response_node
unfoldable pub parse_response_node :
    Surroundings
    → AgentReviewConfig
    → List ReferenceTarget
    → ℕ
    → LlmResponse
    → Agent (List AgentFinding)
parse_response_node w config targets n response = do
  require (encodes response.output_text) (bad_output n)
  require (leb (length (encode_utf8 response.output_text)) config.max_response_bytes) (bad_output n)
  parse_model_findings w.loads n config targets response.output_text

-- _finalize_node
unfoldable pub finalize_node :
    Surroundings
    → AgentReviewConfig
    → EvidenceBundle
    → ℕ
    → RenderedPrompt
    → Attempts
    → LlmResponse
    → List AgentFinding
    → Agent AgentReviewResult
finalize_node w config bundle deadline rendered s response findings = do
  require (ltb (w.monotonic s.readings) deadline)
      (record { code = budget_exceeded; node = finalize; attempt_count = s.attempt_count })
  ok (record {
    repository = bundle.repository;
    revisions = bundle.revisions;
    provider = w.provider_name;
    model = config.model;
    attempt_count = s.attempt_count;
    usage = response.usage;
    prompt_bytes = rendered.byte_count;
    response_bytes = length (encode_utf8 response.output_text);
    findings = findings;
  })

abbrev pub setting_of : Surroundings → AgentReviewConfig → ℕ → List LlmMessage → Setting
setting_of w config deadline messages = record {
  monotonic = w.monotonic;
  complete = w.complete;
  config = config;
  messages = messages;
  deadline = deadline;
}

-- From the rendered prompt to the result.
unfoldable pub review_prompt :
    Surroundings
    → AgentReviewConfig
    → EvidenceBundle
    → ℕ
    → ReviewResult
    → RenderedPrompt
    → Agent AgentReviewResult
review_prompt w config bundle deadline review rendered = do
  s ← attempts_outcome (review_attempts (setting_of w config deadline rendered.messages))
  response ← the_response s.response s.attempt_count
  candidates ← parse_response_node w config rendered.targets s.attempt_count response
  finalize_node w config bundle deadline rendered s response
      (merge_findings review.findings candidates)

-- _review_with_agent
unfoldable pub review_with_agent :
    Surroundings → AgentReviewConfig → EvidenceBundle → Agent AgentReviewResult
review_with_agent w config bundle = do
  deadline ← validate_node w config bundle
  review ← deterministic_review_node bundle
  rendered ← build_prompt_node w config bundle review
  review_prompt w config bundle deadline review rendered
