-- ===== src/Agent/Workflow/Sound.antt =====
-- The results of `_review_with_agent` in src/repoguard/_agent.py.
use repo_guard.Base.{
  ℕ, ◌≤◌, ◌≡◌, refl, sym, ap, subst, ◌∙◌, true, Option, none, some, List, [], arith, length,
}
use repo_guard.Base.Outcome.{ok, err, >>=-eq-ok, bind-then, ok-injective}
use repo_guard.Text.{encode_utf8}
use repo_guard.Evidence.{EvidenceBundle}
use repo_guard.Review.{ReviewResult}
use repo_guard.Review.Engine.{review_evidence}
use repo_guard.Agent.{AgentReviewConfig}
use repo_guard.Agent.Provider.{
  LlmMessage, LlmRequest, LlmResponse, responds, validate_configuration, within_limits,
}
use repo_guard.Agent.Targets.{ReferenceTarget, reference_targets}
use repo_guard.Agent.Response.{AgentFinding, parse_model_findings}
use repo_guard.Agent.Response.Evidence.{AreCited, model_findings_cite_evidence}
use repo_guard.Agent.Attempts.{Attempts, Attempt, review_attempts}
use repo_guard.Agent.Attempts.Run.{IsEnd, review_attempts-IsEnd}
use repo_guard.Agent.Merge.Faithful.{IsMerged, merge_findings-IsMerged}
use repo_guard.Agent.Prompt.{prompt_data}
use repo_guard.Agent.Workflow.{
  Surroundings, AgentReviewResult, RenderedPrompt, validate_node, deterministic_review_node,
  render_review_prompt, build_prompt_node, attempts_outcome, the_response, parse_response_node,
  finalize_node, setting_of, review_prompt, review_with_agent,
}

validated_config :
    (w : Surroundings) (config : AgentReviewConfig) (bundle : EvidenceBundle) (deadline : ℕ)
    → validate_node w config bundle ≡ ok deadline
    → within_limits config ≡ true
unfolding validate_node validate_configuration
validated_config w config bundle deadline h = ground arith

positive_attempts :
    (config : AgentReviewConfig) → within_limits config ≡ true → 1 ≤ config.max_attempts
unfolding within_limits
positive_attempts config limits = ground arith

reviewed :
    (bundle : EvidenceBundle) (review : ReviewResult)
    → deterministic_review_node bundle ≡ ok review
    → review_evidence bundle ≡ ok review
unfolding deterministic_review_node
reviewed bundle review h = ground arith

-- A prompt within its limit, written from the data of the bundle with the keys redacted.
pub record IsPrompt (w : Surroundings) (config : AgentReviewConfig) (bundle : EvidenceBundle)
    (review : ReviewResult) (rendered : RenderedPrompt) : Type 0 where
  pub written : rendered.messages ≡ w.messages (prompt_data bundle review)
  pub short : rendered.byte_count ≤ config.max_prompt_bytes
  pub targets : reference_targets bundle.changes [] ≡ ok rendered.targets

build_prompt_node-IsPrompt :
    (w : Surroundings) (config : AgentReviewConfig) (bundle : EvidenceBundle)
    (review : ReviewResult) (rendered : RenderedPrompt)
    → build_prompt_node w config bundle review ≡ ok rendered
    → IsPrompt w config bundle review rendered
unfolding build_prompt_node render_review_prompt
build_prompt_node-IsPrompt w config bundle review rendered h = record {
  written = ground arith;
  short = ground arith;
  targets = ground arith;
}

-- The attempts that stand behind a result, and the request of these messages whose answer is the
-- response.
pub record IsAttempted (w : Surroundings) (config : AgentReviewConfig) (messages : List LlmMessage)
    (s : Attempts) (response : LlmResponse) : Type 0 where
  pub some_attempt : 1 ≤ s.attempt_count
  pub few : s.attempt_count ≤ 3
  pub allowed : s.attempt_count ≤ config.max_attempts
  pub request : LlmRequest
  pub asked_with : request.messages ≡ messages
  pub asked_model : request.model ≡ config.model
  pub answered : w.complete s.attempt_count request ≡ responds response

attempted :
    (w : Surroundings) (config : AgentReviewConfig) (deadline : ℕ) (rendered : RenderedPrompt)
    (s : Attempts) (response : LlmResponse)
    → 1 ≤ config.max_attempts
    → attempts_outcome (review_attempts (setting_of w config deadline rendered.messages)) ≡ ok s
    → the_response s.response s.attempt_count ≡ ok response
    → IsAttempted w config rendered.messages s response
attempted w config deadline rendered s response positive h kept =
    let e = setting_of w config deadline rendered.messages in
    let (o, ran, end) = review_attempts-IsEnd e positive in
    go o end (sym (ap attempts_outcome ran) ∙ h)
  where
    response_kept :
        (o : Option LlmResponse) → the_response o s.attempt_count ≡ ok response → o ≡ some response
    response_kept none h = cc
    response_kept (some r) h = ap (λ x. some x) (ok-injective h)

    some_same : (a b : LlmResponse) → ◌≡◌ {A = Option LlmResponse} (some a) (some b) → a ≡ b
    some_same a b h = cc

    go :
        (o : Attempt Attempts)
        → IsEnd (setting_of w config deadline rendered.messages) o
        → attempts_outcome (some o) ≡ ok s
        → IsAttempted w config rendered.messages s response
    go (err f) end k = cc
    go (ok t) end k =
        let same : t ≡ s = ok-injective k in
        record {
          some_attempt = omega (arith, end.called.counted, ap (λ x. x.attempt_count) same);
          few = omega (arith, end.called.few, ap (λ x. x.attempt_count) same);
          allowed = omega (arith, end.called.allowed, ap (λ x. x.attempt_count) same);
          request = end.last.request;
          asked_with = ap (λ q. q.messages) end.called.timely.0.0;
          asked_model = ap (λ q. q.model) end.called.timely.0.0;
          answered =
              subst (λ k. w.complete k end.last.request ≡ responds response)
                (sym end.called.counted ∙ ap (λ x. x.attempt_count) same)
                (end.answer
                  ∙ ap (λ r. responds r)
                      (some_same end.response response (
                        sym end.kept ∙ ap (λ x. x.response) same ∙ response_kept s.response kept)));
        }

-- The result of a review by the agent: the response is what the provider answered to the last
-- request, and the candidates are what is read from the text of that response.
pub record IsAgentReview (w : Surroundings) (config : AgentReviewConfig) (bundle : EvidenceBundle)
    (r : AgentReviewResult) : Type 0 where
  pub review : ReviewResult
  pub is_review : review_evidence bundle ≡ ok review
  pub targets : List ReferenceTarget
  pub targets_made : reference_targets bundle.changes [] ≡ ok targets
  pub request : LlmRequest
  pub asked_with : request.messages ≡ w.messages (prompt_data bundle review)
  pub asked_model : request.model ≡ config.model
  pub response : LlmResponse
  pub answered : w.complete r.attempt_count request ≡ responds response
  pub candidates : List AgentFinding
  pub parsed :
      parse_model_findings w.loads r.attempt_count config targets response.output_text
      ≡ ok candidates
  pub cited : AreCited config bundle targets candidates
  pub merged : IsMerged review.findings candidates r.findings
  pub some_attempt : 1 ≤ r.attempt_count
  pub few_attempts : r.attempt_count ≤ 3
  pub allowed_attempts : r.attempt_count ≤ config.max_attempts
  pub short_prompt : r.prompt_bytes ≤ config.max_prompt_bytes
  pub response_counted : r.response_bytes ≡ length (encode_utf8 response.output_text)
  pub short_response : r.response_bytes ≤ config.max_response_bytes
  pub usage_named : r.usage ≡ response.usage
  pub provider_named : r.provider ≡ w.provider_name
  pub model_named : r.model ≡ config.model
  pub same_repository : r.repository ≡ bundle.repository
  pub same_revisions : r.revisions ≡ bundle.revisions

response_parsed :
    (w : Surroundings) (config : AgentReviewConfig) (bundle : EvidenceBundle)
    (targets : List ReferenceTarget) (n : ℕ) (response : LlmResponse) (fs : List AgentFinding)
    → reference_targets bundle.changes [] ≡ ok targets
    → parse_response_node w config targets n response ≡ ok fs
    → AreCited config bundle targets fs
      × (parse_model_findings w.loads n config targets response.output_text ≡ ok fs)
      × (length (encode_utf8 response.output_text) ≤ config.max_response_bytes)
unfolding parse_response_node
response_parsed w config bundle targets n response fs made h = (
  model_findings_cite_evidence w.loads n config bundle targets response.output_text fs made
      (ground arith),
  (ground arith),
  (ground arith),
)

prompt_reviewed :
    (w : Surroundings) (config : AgentReviewConfig) (bundle : EvidenceBundle) (deadline : ℕ)
    (review : ReviewResult) (rendered : RenderedPrompt) (r : AgentReviewResult)
    → 1 ≤ config.max_attempts
    → review_evidence bundle ≡ ok review
    → IsPrompt w config bundle review rendered
    → review_prompt w config bundle deadline review rendered ≡ ok r
    → IsAgentReview w config bundle r
unfolding review_prompt finalize_node
prompt_reviewed w config bundle deadline review rendered r positive is_review prompt h =
    let e = setting_of w config deadline rendered.messages in
    let (s, ran, h1) = >>=-eq-ok (attempts_outcome (review_attempts e)) _ h in
    let (response, kept, h2) = >>=-eq-ok (the_response s.response s.attempt_count) _ h1 in
    let (fs, parsed, h3) =
      >>=-eq-ok (parse_response_node w config rendered.targets s.attempt_count response) _ h2 in
    let tries = attempted w config deadline rendered s response positive ran kept in
    let (cited, read, short) =
      response_parsed w config bundle rendered.targets s.attempt_count response fs prompt.targets
        parsed in
    let (_, made) = (bind-then _ _ r).0 h3 in
    subst (IsAgentReview w config bundle) (ok-injective made) (record {
      review = review;
      is_review = is_review;
      targets = rendered.targets;
      targets_made = prompt.targets;
      request = tries.request;
      asked_with = tries.asked_with ∙ prompt.written;
      asked_model = tries.asked_model;
      response = response;
      answered = tries.answered;
      candidates = fs;
      parsed = read;
      cited = cited;
      merged = merge_findings-IsMerged review.findings fs;
      some_attempt = tries.some_attempt;
      few_attempts = tries.few;
      allowed_attempts = tries.allowed;
      short_prompt = prompt.short;
      response_counted = refl;
      short_response = short;
      usage_named = refl;
      provider_named = refl;
      model_named = refl;
      same_repository = refl;
      same_revisions = refl;
    })

-- Whatever `_review_with_agent` returns is a review of the bundle it was given and of the
-- provider's last answer: request number `attempt_count`, which names the configured model and has
-- the messages that are written from the data of the prompt with the private keys of that review
-- redacted, was answered by the provider with a response, and its text, read by
-- `_parse_model_findings` against the targets of the bundle, gave the findings of the model. The
-- findings of the result, in the order of the sort key, are all those of the deterministic review
-- and all those of the model, and no others; each of the model's references cites a file version of
-- a reviewed change and, if it names lines, lines of one hunk that bear every number of the range;
-- it took 1 to 3 attempts and no more than configured; prompt and response are within their limits,
-- and the size and the usage that the result names are those of the response.
pub review_with_agent-IsAgentReview :
    (w : Surroundings) (config : AgentReviewConfig) (bundle : EvidenceBundle)
    (r : AgentReviewResult)
    → review_with_agent w config bundle ≡ ok r
    → IsAgentReview w config bundle r
unfolding review_with_agent
review_with_agent-IsAgentReview w config bundle r h =
    let (deadline, valid, h1) = >>=-eq-ok (validate_node w config bundle) _ h in
    let (review, found, h2) = >>=-eq-ok (deterministic_review_node bundle) _ h1 in
    let (rendered, built, h3) = >>=-eq-ok (build_prompt_node w config bundle review) _ h2 in
    let limits = validated_config w config bundle deadline valid in
    prompt_reviewed w config bundle deadline review rendered r (positive_attempts config limits)
      (reviewed bundle review found)
      (build_prompt_node-IsPrompt w config bundle review rendered built) h3
