-- ===== src/Agent/Attempts.antt =====
-- `_invoke_provider_node` and `_provider_route` of src/repoguard/_agent.py, and the cycle of the two
-- in the graph. The clock is the sequence of its readings; a failure keeps the log of the run.
pub mod Steps
pub mod Run
use repo_guard.Base.{
  ℕ, zero, suc, ◌+◌, ◌-◌, min, Bool, true, false, not, ◌&&◌, ◌||◌, Option, none, some, List, [],
  ◌∷◌, ◌++◌, ltb, leb, ◌==◌, if◌then◌else◌,
}
use repo_guard.Base.Outcome.{Outcome, ok, err, ◌>>=◌}
use repo_guard.Agent.{
  AgentReviewError, AgentReviewErrorCode, provider_authentication_failed, provider_rate_limited,
  provider_timeout, provider_unavailable, provider_request_failed, provider_refused,
  invalid_model_output, budget_exceeded, workflow_execution_failed, AgentNode, invoke_provider,
  AgentReviewConfig,
}
use repo_guard.Agent.Provider.{
  ProviderErrorCode, authentication_failed, rate_limited, timeout, unavailable, request_failed,
  refused, invalid_response, LlmMessage, LlmRequest, LlmResponse, Answer, responds, fails, crashes,
  is_request,
}

-- _BACKOFF_SECONDS
abbrev pub backoff_seconds : ℕ → Option ℕ
backoff_seconds attempt =
    if attempt == 2 then some 500000000 else if attempt == 3 then some 1000000000 else none

-- code in _RETRYABLE_PROVIDER_CODES
abbrev pub is_retryable : ProviderErrorCode → Bool
is_retryable rate_limited = true
is_retryable timeout = true
is_retryable unavailable = true
is_retryable authentication_failed = false
is_retryable request_failed = false
is_retryable refused = false
is_retryable invalid_response = false

-- _PROVIDER_ERROR_CODES
abbrev pub review_code : ProviderErrorCode → AgentReviewErrorCode
review_code authentication_failed = provider_authentication_failed
review_code rate_limited = provider_rate_limited
review_code timeout = provider_timeout
review_code unavailable = provider_unavailable
review_code request_failed = provider_request_failed
review_code refused = provider_refused
review_code invalid_response = invalid_model_output

-- A request, and the reading of the clock before it.
pub record Call : Type 0 where
  pub made_at : ℕ
  pub request : LlmRequest

-- The part of `_AgentState` that the two functions read and write, with the readings taken of the
-- clock, and the sleeps and the calls of the provider so far, the last one first.
pub record Attempts : Type 0 where
  pub attempt_count : ℕ
  pub provider_error : Option ProviderErrorCode
  pub response : Option LlmResponse
  pub readings : ℕ
  pub sleeps : List ℕ
  pub calls : List Call

-- A call that raises leaves what it has done.
pub record Failure : Type 0 where
  pub error : AgentReviewError
  pub log : Attempts

abbrev pub Attempt : Type 0 → Type 0
Attempt A = Outcome Failure A

abbrev pub fail : {A : Type 0} → AgentReviewErrorCode → ℕ → Attempts → Attempt A
fail code attempt_count s = err (record {
  error = record { code = code; node = invoke_provider; attempt_count = attempt_count };
  log = s;
})

-- The clock, what the provider answers to its n-th request, and the inputs of the workflow.
pub record Setting : Type 0 where
  pub monotonic : ℕ → ℕ
  pub complete : ℕ → LlmRequest → Answer
  pub config : AgentReviewConfig
  pub messages : List LlmMessage
  pub deadline : ℕ

abbrev pub read_clock : Attempts → Attempts
read_clock s = record s { readings = suc s.readings }

-- `if attempt > 1`: the wait in front of a repeated attempt.
unfoldable pub wait_before : Setting → ℕ → Attempts → Attempt Attempts
wait_before e attempt s = elim (ltb 1 attempt) [
  | false ↦ ok s
  | true ↦ elim (backoff_seconds attempt) [
    | none ↦ fail workflow_execution_failed attempt s
    | some delay ↦ elim (leb e.deadline (e.monotonic s.readings + delay)) [
      | true ↦ fail budget_exceeded s.attempt_count (read_clock s)
      | false ↦ ok (record s { readings = suc s.readings; sleeps = delay ∷ s.sleeps })
    ]
  ]
]

-- What follows the answer of the provider.
unfoldable pub take_answer : Setting → ℕ → Attempts → Answer → Attempt Attempts
take_answer e attempt s crashes = fail workflow_execution_failed attempt s
take_answer e attempt s (fails code) =
    ok (record s { attempt_count = attempt; provider_error = some code; response = none })
take_answer e attempt s (responds response) = elim (leb e.deadline (e.monotonic s.readings)) [
  | true ↦ fail budget_exceeded attempt (read_clock s)
  | false ↦ ok (record s {
    attempt_count = attempt;
    provider_error = none;
    response = some response;
    readings = suc s.readings;
  })
]

abbrev pub make_request : Setting → ℕ → LlmRequest
make_request e now = record {
  model = e.config.model;
  messages = e.messages;
  max_output_tokens = e.config.max_output_tokens;
  timeout_seconds = min e.config.per_attempt_timeout (e.deadline - now);
}

-- The rest of the attempt, `now` being the reading that the remaining time is taken from.
unfoldable pub call_provider : Setting → ℕ → ℕ → Attempts → Attempt Attempts
call_provider e attempt now s = elim (leb e.deadline now) [
  | true ↦ fail budget_exceeded s.attempt_count s
  | false ↦ elim (is_request (make_request e now)) [
    | false ↦ fail workflow_execution_failed attempt s
    | true ↦
        take_answer e attempt
          (record s { calls = record { made_at = now; request = make_request e now } ∷ s.calls })
          (e.complete attempt (make_request e now))
  ]
]

-- _invoke_provider_node
unfoldable pub invoke_provider_node : Setting → Attempts → Attempt Attempts
invoke_provider_node e s = do
  waited ← wait_before e (suc s.attempt_count) s
  call_provider e (suc s.attempt_count) (e.monotonic waited.readings) (read_clock waited)

pub data Route : Type 0 where
  retry parse : Route

-- The way behind a ProviderError.
unfoldable pub error_route : Setting → ProviderErrorCode → Attempts → Attempt (Route × Attempts)
error_route e code s = elim (is_retryable code && ltb s.attempt_count e.config.max_attempts) [
  | false ↦ fail (review_code code) s.attempt_count s
  | true ↦ elim (backoff_seconds (suc s.attempt_count)) [
    | none ↦ fail (review_code code) s.attempt_count s
    | some delay ↦ elim (ltb (e.monotonic s.readings + delay) e.deadline) [
      | true ↦ ok (retry, read_clock s)
      | false ↦ fail budget_exceeded s.attempt_count (read_clock s)
    ]
  ]
]

-- The way by the response and the error of the state.
unfoldable pub route_by :
    Setting → Attempts → Option LlmResponse → Option ProviderErrorCode → Attempt (Route × Attempts)
route_by e s (some response) error = ok (parse, s)
route_by e s none none = fail workflow_execution_failed s.attempt_count s
route_by e s none (some code) = error_route e code s

-- _provider_route
abbrev pub provider_route : Setting → Attempts → Attempt (Route × Attempts)
provider_route e s = route_by e s s.response s.provider_error

-- The conditional edge: back to the node, or on.
abbrev pub routed :
    (Attempts → Option (Attempt Attempts)) → Attempt (Route × Attempts) → Option (Attempt Attempts)
routed again (err f) = some (err f)
routed again (ok (parse, s)) = some (ok s)
routed again (ok (retry, s)) = again s

-- The node and its edge, again and again; none when the fuel is spent.
unfoldable pub run_attempts : ℕ → Setting → Attempts → Option (Attempt Attempts)
run_attempts zero e s = none
run_attempts (suc fuel) e s = elim (invoke_provider_node e s) [
  | err f ↦ some (err f)
  | ok s' ↦ routed (run_attempts fuel e) (provider_route e s')
]

abbrev pub no_attempts : Attempts
no_attempts = record {
  attempt_count = 0;
  provider_error = none;
  response = none;
  readings = 1;
  sleeps = [];
  calls = [];
}

-- Behind the first reading of the clock, which sets the deadline.
unfoldable pub review_attempts : Setting → Option (Attempt Attempts)
review_attempts e = run_attempts 3 e no_attempts
