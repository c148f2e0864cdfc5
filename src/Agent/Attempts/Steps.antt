-- ===== src/Agent/Attempts/Steps.antt =====
-- One attempt of src/repoguard/_agent.py and the log of the run.
use repo_guard.Base.{
  ℕ, suc, ◌<◌, ◌≤◌, ◌≡◌, refl, sym, ap, subst, ◌∙◌, ◌⊎◌, inl, inr, true, none, some, List, [], ◌∷◌,
  leb, ◌==◌, if◌then◌else◌, arith, length, All,
}
use repo_guard.Base.Outcome.{ok, err, Outcome-cases}
use repo_guard.Agent.{budget_exceeded, workflow_execution_failed}
use repo_guard.Agent.Provider.{ProviderErrorCode, LlmResponse, Answer, responds, fails, crashes}
use repo_guard.Agent.Attempts.{
  is_retryable, review_code, Call, Attempts, Failure, Setting, wait_before, take_answer,
  make_request, call_provider, invoke_provider_node, read_clock,
}

-- A request that is made in time, and whose time ends by the deadline.
abbrev pub IsTimely : Setting → Call → Type 0
IsTimely e c = (c.request ≡ make_request e c.made_at) × (c.made_at < e.deadline)

-- Every one of these calls, the last one first, ended with an error that is tried again.
abbrev pub Retried : Setting → List Call → Type 0
Retried e [] = Unit
Retried e (c ∷ cs) =
    ((code : ProviderErrorCode) × (e.complete (suc (length cs)) c.request ≡ fails code)
      × (is_retryable code ≡ true))
    × Retried e cs

-- The waits in front of as many attempts, the last one first.
abbrev pub waits : ℕ → List ℕ
waits n = if leb n 1 then [] else if n == 2 then 500000000 ∷ [] else 1000000000 ∷ 500000000 ∷ []

-- In front of an attempt.
pub record IsReady (e : Setting) (s : Attempts) : Type 0 where
  pub counted : s.attempt_count ≡ length s.calls
  pub few : s.attempt_count ≤ 2
  pub allowed : s.attempt_count < e.config.max_attempts
  pub timely : All (IsTimely e) s.calls
  pub retried : Retried e s.calls
  pub waited : s.sleeps ≡ waits s.attempt_count

-- Behind an attempt whose call has ended.
pub record IsCalled (e : Setting) (s : Attempts) (c : Call) (cs : List Call) : Type 0 where
  pub calls : s.calls ≡ c ∷ cs
  pub counted : s.attempt_count ≡ suc (length cs)
  pub few : s.attempt_count ≤ 3
  pub allowed : s.attempt_count ≤ e.config.max_attempts
  pub timely : All (IsTimely e) (c ∷ cs)
  pub retried : Retried e cs
  pub waited : s.sleeps ≡ waits s.attempt_count

-- How the answer shows in the state.
abbrev pub Shows : Answer → Attempts → Type 0
Shows a t =
    ((r : LlmResponse) × (t.response ≡ some r) × (a ≡ responds r))
    ⊎ ((code : ProviderErrorCode) × (t.response ≡ none)
        × (t.provider_error ≡ some code)
        × (a ≡ fails code))

-- What the last call answered, as the state keeps it.
abbrev pub IsAnswered : Setting → Attempts → Call → List Call → Type 0
IsAnswered e s c cs = Shows (e.complete (suc (length cs)) c.request) s

-- The end of a run that fails: the calls were timely, few, and all but the last one retried; the
-- error says that time was up, that something unexpected was raised, or what the last call did.
pub record IsFailure (e : Setting) (f : Failure) : Type 0 where
  pub few : length f.log.calls ≤ 3
  pub allowed : length f.log.calls ≤ e.config.max_attempts
  pub timely : All (IsTimely e) f.log.calls
  pub cause :
      (f.error.code ≡ budget_exceeded)
      ⊎ ((f.error.code ≡ workflow_execution_failed)
          ⊎ ((c : Call) × (cs : List Call) × (code : ProviderErrorCode) × (f.log.calls ≡ c ∷ cs)
              × (e.complete (suc (length cs)) c.request ≡ fails code)
              × (f.error.code ≡ review_code code)))

-- A failure that has made no further call.
early_failure :
    (e : Setting) (s : Attempts) (f : Failure)
    → IsReady e s
    → f.log.calls ≡ s.calls
    → (f.error.code ≡ budget_exceeded) ⊎ (f.error.code ≡ workflow_execution_failed)
    → IsFailure e f
early_failure e s f h same cause = record {
  few = omega (arith, h.few, h.counted, ap length same);
  allowed = omega (arith, h.allowed, h.counted, ap length same);
  timely = subst (All (IsTimely e)) (sym same) h.timely;
  cause = elim cause [ inl b ↦ inl b | inr w ↦ inr (inl w) ];
}

wait_cases :
    (e : Setting) (s : Attempts)
    → IsReady e s
    → ((w : Attempts) × (wait_before e (suc s.attempt_count) s ≡ ok w)
        × (w.calls ≡ s.calls)
        × (w.attempt_count ≡ s.attempt_count)
        × (w.sleeps ≡ waits (suc s.attempt_count)))
      ⊎ ((f : Failure) × (wait_before e (suc s.attempt_count) s ≡ err f) × IsFailure e f)
unfolding wait_before
wait_cases e s h = elim (Outcome-cases (wait_before e (suc s.attempt_count) s)) [
  | inl (w, k) ↦ inl (
    w,
    k,
    (ground (arith, h.few, h.waited)),
    (ground (arith, h.few, h.waited)),
    (ground (arith, h.few, h.waited)),
  )
  | inr (f, k) ↦ inr (f, k, early_failure e s f h (ground arith) (ground (arith, h.few)))
]

-- A failure behind one more call.
late_failure :
    (e : Setting) (s : Attempts) (f : Failure) (c : Call)
    → IsReady e s
    → f.log.calls ≡ c ∷ s.calls
    → IsTimely e c
    → (f.error.code ≡ budget_exceeded) ⊎ (f.error.code ≡ workflow_execution_failed)
    → IsFailure e f
late_failure e s f c h same in_time cause = record {
  few = omega (arith, h.few, h.counted, ap length same);
  allowed = omega (arith, h.allowed, h.counted, ap length same);
  timely = subst (All (IsTimely e)) (sym same) (in_time, h.timely);
  cause = elim cause [ inl b ↦ inl b | inr w ↦ inr (inl w) ];
}

-- The attempt that makes a request now.
abbrev call_now : Setting → ℕ → Call
call_now e now = record { made_at = now; request = make_request e now }

returned :
    (e : Setting) (n now : ℕ) (w t : Attempts)
    → call_provider e n now w ≡ ok t
    → (now < e.deadline)
      × (t.calls ≡ call_now e now ∷ w.calls)
      × (t.attempt_count ≡ n)
      × (t.sleeps ≡ w.sleeps)
unfolding call_provider take_answer
returned e n now w t k = ground arith

taken : (e : Setting) (n : ℕ) (s t : Attempts) (a : Answer) → take_answer e n s a ≡ ok t → Shows a t
unfolding take_answer
taken e n s t crashes k = cc
taken e n s t (fails code) k = inr (code, (ground arith), (ground arith), refl)
taken e n s t (responds r) k = inl (r, (ground arith), refl)

answered :
    (e : Setting) (n now : ℕ) (w t : Attempts)
    → call_provider e n now w ≡ ok t
    → Shows (e.complete n (make_request e now)) t
unfolding call_provider
answered e n now w t k =
    taken e n (record w { calls = call_now e now ∷ w.calls }) t (e.complete n (make_request e now))
      (ground arith)

raised :
    (e : Setting) (n now : ℕ) (w : Attempts) (f : Failure)
    → call_provider e n now w ≡ err f
    → ((f.log.calls ≡ w.calls) ⊎ ((now < e.deadline) × (f.log.calls ≡ call_now e now ∷ w.calls)))
      × ((f.error.code ≡ budget_exceeded) ⊎ (f.error.code ≡ workflow_execution_failed))
unfolding call_provider take_answer
raised e n now w f k = ground arith

-- One attempt from a state that is ready for it.
pub attempt_cases :
    (e : Setting) (s : Attempts)
    → IsReady e s
    → ((t : Attempts) × (c : Call) × (invoke_provider_node e s ≡ ok t)
        × IsCalled e t c s.calls
        × IsAnswered e t c s.calls)
      ⊎ ((f : Failure) × (invoke_provider_node e s ≡ err f) × IsFailure e f)
unfolding invoke_provider_node
attempt_cases e s h = elim (wait_cases e s h) [
  | inr (f, k, failed) ↦ inr (f, rw k refl, failed)
  | inl (w, k, same, counted, waited) ↦
      let n = suc s.attempt_count in
      let now = e.monotonic w.readings in
      elim (Outcome-cases (call_provider e n now (read_clock w))) [
        | inl (t, called) ↦
            let (in_time, calls, count, slept) = returned e n now (read_clock w) t called in
            inl (
              t,
              call_now e now,
              rw (k, called) refl,
              record {
                calls = calls ∙ ap (λ cs. call_now e now ∷ cs) same;
                counted = omega (arith, count, h.counted);
                few = omega (arith, count, h.few);
                allowed = omega (arith, count, h.allowed);
                timely = ((refl, in_time), h.timely);
                retried = h.retried;
                waited = slept ∙ waited ∙ ap waits (sym count);
              },
              subst (λ m. Shows (e.complete (suc m) (make_request e now)) t) h.counted
                  (answered e n now (read_clock w) t called),
            )
        | inr (f, called) ↦
            let (log, cause) = raised e n now (read_clock w) f called in
            inr (
              f,
              rw (k, called) refl,
              elim log [
                | inl early ↦ early_failure e s f h (early ∙ same) cause
                | inr (in_time, late) ↦
                    late_failure e s f (call_now e now) h
                      (late ∙ ap (λ cs. call_now e now ∷ cs) same) (refl, in_time) cause
              ],
            )
      ]
]
