-- ===== src/Agent/Attempts/Run.antt =====
-- The whole cycle of attempts of src/repoguard/_agent.py.
use repo_guard.Base.{
  ℕ, zero, suc, ◌+◌, ◌<◌, ◌≤◌, ◌≡◌, refl, sym, ap, subst, ◌∙◌, ◌⊎◌, inl, inr, true, Option, none,
  some, List, arith, length, All,
}
use repo_guard.Base.Outcome.{ok, err, Outcome-cases}
use repo_guard.Agent.{budget_exceeded}
use repo_guard.Agent.Provider.{ProviderErrorCode, LlmResponse, responds}
use repo_guard.Agent.Attempts.{
  is_retryable, review_code, Call, Attempts, Failure, Attempt, Setting, invoke_provider_node, retry,
  parse, error_route, provider_route, route_by, run_attempts, routed, no_attempts, review_attempts,
}
use repo_guard.Agent.Attempts.Steps.{
  IsTimely, Retried, waits, IsReady, IsCalled, IsAnswered, IsFailure, attempt_cases,
}

-- The end of a run that returns: the last call responded, all before it were tried again.
pub record IsSuccess (e : Setting) (s : Attempts) : Type 0 where
  pub last : Call
  pub before : List Call
  pub called : IsCalled e s last before
  pub response : LlmResponse
  pub kept : s.response ≡ some response
  pub answer : e.complete (suc (length before)) last.request ≡ responds response

abbrev pub IsEnd : Setting → Attempt Attempts → Type 0
IsEnd e (ok s) = IsSuccess e s
IsEnd e (err f) = IsFailure e f

pub data RouteCase (e : Setting) (s : Attempts) : Type 0 where
  to_parse : provider_route e s ≡ ok (parse, s) → IsSuccess e s → RouteCase e s
  to_retry :
      (s' : Attempts)
      → provider_route e s ≡ ok (retry, s')
      → s'.attempt_count ≡ s.attempt_count
      → IsReady e s'
      → RouteCase e s
  to_fail : (f : Failure) → provider_route e s ≡ err f → IsFailure e f → RouteCase e s

error_cases :
    (e : Setting) (code : ProviderErrorCode) (s : Attempts)
    → ((s' : Attempts) × (error_route e code s ≡ ok (retry, s'))
        × (s'.attempt_count ≡ s.attempt_count)
        × (s'.calls ≡ s.calls)
        × (s'.sleeps ≡ s.sleeps)
        × (is_retryable code ≡ true)
        × (s.attempt_count < e.config.max_attempts)
        × (s.attempt_count ≤ 2))
      ⊎ ((f : Failure) × (error_route e code s ≡ err f)
          × (f.log.calls ≡ s.calls)
          × ((f.error.code ≡ budget_exceeded) ⊎ (f.error.code ≡ review_code code)))
unfolding error_route
error_cases e code s = elim (Outcome-cases (error_route e code s)) [
  | inl ((retry, t), k) ↦ inl (
    t,
    k,
    (ground arith),
    (ground arith),
    (ground arith),
    (ground arith),
    (ground arith),
    (ground arith),
  )
  | inl ((parse, t), k) ↦ absurd (ground arith)
  | inr (f, k) ↦ inr (f, k, (ground arith), (ground arith))
]

route-of_response :
    (e : Setting) (s : Attempts) (r : LlmResponse)
    → s.response ≡ some r
    → provider_route e s ≡ ok (parse, s)
unfolding route_by
route-of_response e s r kept = go s.response s.provider_error kept
  where
    go :
        (o : Option LlmResponse) (p : Option ProviderErrorCode)
        → o ≡ some r
        → route_by e s o p ≡ ok (parse, s)
    go (some response) p k = refl
    go none p k = cc

route-of_error :
    (e : Setting) (s : Attempts) (code : ProviderErrorCode)
    → s.response ≡ none
    → s.provider_error ≡ some code
    → provider_route e s ≡ error_route e code s
unfolding route_by
route-of_error e s code none_kept error = go s.response s.provider_error none_kept error
  where
    go :
        (o : Option LlmResponse) (p : Option ProviderErrorCode)
        → o ≡ none
        → p ≡ some code
        → route_by e s o p ≡ error_route e code s
    go o p h k = rw (h, k) refl

route_cases :
    (e : Setting) (s : Attempts) (c : Call) (cs : List Call)
    → IsCalled e s c cs
    → IsAnswered e s c cs
    → RouteCase e s
route_cases e s c cs h (inl (r, kept, answer)) =
    to_parse (route-of_response e s r kept)
      (record { last = c; before = cs; called = h; response = r; kept = kept; answer = answer })
route_cases e s c cs h (inr (code, none_kept, error, answer)) = elim (error_cases e code s) [
  | inl (t, k, same, calls, slept, again, less, few) ↦
      to_retry t (route-of_error e s code none_kept error ∙ k) same (record {
        counted = same ∙ h.counted ∙ ap length (sym (calls ∙ h.calls));
        few = ground arith;
        allowed = ground arith;
        timely = subst (All (IsTimely e)) (sym (calls ∙ h.calls)) h.timely;
        retried = subst (Retried e) (sym (calls ∙ h.calls)) ((code, answer, again), h.retried);
        waited = slept ∙ h.waited ∙ ap waits (sym same);
      })
  | inr (f, k, calls, cause) ↦ to_fail f (route-of_error e s code none_kept error ∙ k) (record {
    few = omega (arith, ap length (calls ∙ h.calls), h.counted, h.few);
    allowed = omega (arith, ap length (calls ∙ h.calls), h.counted, h.allowed);
    timely = subst (All (IsTimely e)) (sym (calls ∙ h.calls)) h.timely;
    cause = elim cause [
      | inl b ↦ inl b
      | inr r ↦ inr (inr (c, cs, code, calls ∙ h.calls, answer, r))
    ];
  })
]

run-of_failure :
    (fuel : ℕ) (e : Setting) (s : Attempts) (f : Failure)
    → invoke_provider_node e s ≡ err f
    → run_attempts (suc fuel) e s ≡ some (err f)
unfolding run_attempts
run-of_failure fuel e s f k = rw (run_attempts, k) refl

run-of_call :
    (fuel : ℕ) (e : Setting) (s t : Attempts)
    → invoke_provider_node e s ≡ ok t
    → run_attempts (suc fuel) e s ≡ routed (run_attempts fuel e) (provider_route e t)
unfolding run_attempts
run-of_call fuel e s t k = rw (run_attempts, k) refl

run-IsEnd :
    (fuel : ℕ) (e : Setting) (s : Attempts)
    → IsReady e s
    → 3 ≤ fuel + s.attempt_count
    → (o : Attempt Attempts) × (run_attempts fuel e s ≡ some o) × IsEnd e o
run-IsEnd zero e s h enough = absurd (ground (arith, h.few))
run-IsEnd (suc fuel) e s h enough = elim (attempt_cases e s h) [
  | inr (f, k, failed) ↦ (err f, run-of_failure fuel e s f k, failed)
  | inl (t, c, k, called, answered) ↦ elim (route_cases e t c s.calls called answered) [
    | to_parse r done ↦ (ok t, run-of_call fuel e s t k ∙ ap (routed (run_attempts fuel e)) r, done)
    | to_fail f r failed ↦
        (err f, run-of_call fuel e s t k ∙ ap (routed (run_attempts fuel e)) r, failed)
    | to_retry t' r same ready ↦
        let (o, ran, end) =
          run-IsEnd fuel e t' ready (ground (arith, same, called.counted, h.counted)) in
        (o, run-of_call fuel e s t k ∙ ap (routed (run_attempts fuel e)) r ∙ ran, end)
  ]
]

-- With at least one attempt configured, the cycle of provider calls ends within three attempts,
-- whatever the clock and the provider do. Every request is made before the deadline with the time
-- that is left or the time of one attempt, whichever is less. If the cycle returns, the last call
-- responded and every one before it failed with an error that is tried again; the waits were 0.5 s
-- and 1 s. If it fails, the error is of the budget or the workflow, or is the code of what the last
-- call failed with.
pub review_attempts-IsEnd :
    (e : Setting)
    → 1 ≤ e.config.max_attempts
    → (o : Attempt Attempts) × (review_attempts e ≡ some o) × IsEnd e o
unfolding review_attempts
review_attempts-IsEnd e allowed =
    run-IsEnd 3 e no_attempts
      (record {
        counted = refl;
        few = omega arith;
        allowed = omega (arith, allowed);
        timely = tt;
        retried = tt;
        waited = refl;
      })
      (omega arith)
