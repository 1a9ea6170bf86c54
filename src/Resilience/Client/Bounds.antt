-- ===== src/Resilience/Client/Bounds.antt =====
-- internal/resilience/client.go: how often a tool call reaches the backend.
use cruvero_mcp_gateway.Prelude.{
  ltb, leb, ◌-◌, ℕ, zero, suc, ◌+◌, ◌≤◌, ◌<◌, ◌≡◌, refl, ◌⊎◌, inl, inr, Bool, true, none, some,
  if◌then◌else◌, arith, Bool-cases,
}
use cruvero_mcp_gateway.Prelude.Int.{ℤ}
use cruvero_mcp_gateway.Resilience.Circuit.{
  failed, circuit_open, CircuitBreaker, Call, closed, open_state, execute, is_run, dispatch,
  execute_closed, finish_closed,
}
use cruvero_mcp_gateway.Resilience.Circuit.Invariant.{Inv, execute-Inv}
use cruvero_mcp_gateway.Resilience.Retry.{Attempt, attempts, retry, max_attempts}
use cruvero_mcp_gateway.Resilience.Client.{
  Turn, breaker_after, outcome_after, attempt_at, backend_calls, call_tool, is_retryable,
}

attempts_at_most :
    {E : Type 0} (is_retryable : E → Bool) (at : ℕ → Attempt E) (left attempt : ℕ)
    → (attempts is_retryable at left attempt).1 ≤ left
unfolding attempts
attempts_at_most is_retryable at zero attempt = omega arith
attempts_at_most is_retryable at (suc left) attempt =
    ground (arith, attempts_at_most is_retryable at left (suc attempt))

module _ {E : Type 0} (turn : ℕ → Turn E) where
  backend_calls_at_most : (cb : CircuitBreaker) (n : ℕ) → backend_calls turn cb n ≤ n
  unfolding backend_calls
  backend_calls_at_most cb zero = omega arith
  backend_calls_at_most cb (suc n) = ground (arith, backend_calls_at_most cb n)

  breaker_after-Inv : (cb : CircuitBreaker) (n : ℕ) → Inv cb → Inv (breaker_after turn cb n)
  unfolding breaker_after
  breaker_after-Inv cb zero inv = inv
  breaker_after-Inv cb (suc n) inv =
      execute-Inv (breaker_after turn cb n) (turn (suc n)).call (breaker_after-Inv cb n inv)

  -- Whatever the backend, the contexts and the clock answer, each call of the backend coming back, a
  -- tool call reaches the backend at most as often as the configured number of attempts, and leaves
  -- a well-formed breaker well formed.
  pub call_tool_bounded :
      (is_transient : E → Bool) (cb : CircuitBreaker) (n : ℤ)
      → Inv cb
      → ((call_tool turn is_transient cb n).2 ≤ max_attempts n)
        × Inv (call_tool turn is_transient cb n).1
  unfolding call_tool retry
  call_tool_bounded is_transient cb n inv =
      let k = (retry (is_retryable is_transient) (attempt_at turn cb) n).1 in
      (
        omega (
          arith,
          backend_calls_at_most cb k,
          attempts_at_most (is_retryable is_transient) (attempt_at turn cb) (max_attempts n) 1,
        ),
        breaker_after-Inv cb k inv,
      )

  -- The backend fails whenever it is called, the contexts are live, and all of it happens within
  -- one timeout of the breaker.
  abbrev pub FailsWithin : ℕ → ℕ → Type 0
  FailsWithin t timeout =
      (k : ℕ)
      → ((turn k).call.ctx_err ≡ none)
        × ((e : E) × ((turn k).call.fn_err ≡ some e))
        × (t ≤ (turn k).call.later)
        × ((turn k).call.now < t + timeout)

  -- The breaker counts the calls until it opens, and then stays open.
  abbrev Counted : ℕ → CircuitBreaker → ℕ → CircuitBreaker → Type 0
  Counted t cb calls now =
      (now.threshold ≡ cb.threshold)
      × (now.timeout ≡ cb.timeout)
      × (((now.state ≡ closed)
            × (now.failures ≡ cb.failures + calls)
            × (now.failures < cb.threshold))
          ⊎ ((now.state ≡ open_state)
              × (cb.failures + calls ≡ cb.threshold)
              × (t ≤ now.last_failure)))

  Counted-step :
      (t : ℕ) (cb now : CircuitBreaker) (calls : ℕ) (c : Call E) (e : E)
      → 0 < cb.timeout
      → c.ctx_err ≡ none
      → c.fn_err ≡ some e
      → t ≤ c.later
      → c.now < t + cb.timeout
      → Counted t cb calls now
      → Counted t cb (if is_run (execute now c).1 then suc calls else calls) (execute now c).0
  unfolding execute dispatch execute_closed finish_closed
  Counted-step t cb now calls c e long live fails after before
        (same, alike, inl (shut, count, few)) =
      elim (Bool-cases (leb now.threshold (now.failures + 1))) [
        | inl trips ↦
            let done : execute now c ≡ (
              record now {
                state = open_state;
                failures = now.failures + 1;
                last_failure = c.later;
              },
              failed e,
            ) =
              rw (execute, shut, live, fails, trips) refl in
            rw done (same, alike, inr (refl, ground arith, after))
        | inr holds ↦
            let done : execute now c ≡ (record now { failures = now.failures + 1 }, failed e) =
              rw (execute, shut, live, fails, holds) refl in
            rw done (same, alike, inl (shut, omega (arith, count), ground arith))
      ]
  Counted-step t cb now calls c e long live fails after before
        (same, alike, inr (opened, count, last)) =
      let early : ltb (c.now - now.last_failure) now.timeout ≡ true = ground arith in
      let done : execute now c ≡ (now, circuit_open) = rw (execute, opened, early) refl in
      rw done (same, alike, inr (opened, count, last))

  backend_calls-Counted :
      (t : ℕ) (cb : CircuitBreaker) (n : ℕ)
      → cb.state ≡ closed
      → Inv cb
      → FailsWithin t cb.timeout
      → Counted t cb (backend_calls turn cb n) (breaker_after turn cb n)
  unfolding backend_calls breaker_after outcome_after
  backend_calls-Counted t cb zero shut inv within =
      (refl, refl, inl (shut, omega arith, inv.closed_below shut))
  backend_calls-Counted t cb (suc n) shut inv within =
      let (live, (e, fails), after, before) = within (suc n) in
      Counted-step t cb (breaker_after turn cb n) (backend_calls turn cb n) (turn (suc n)).call e
        inv.timeout_pos live fails after before (backend_calls-Counted t cb n shut inv within)

  -- A backend that fails at every call, under contexts that are not done, is called by one tool call
  -- only until its breaker opens: from a closed breaker, within one timeout, at most as often as
  -- failures are left to the threshold, however many attempts are configured.
  pub call_tool_spares :
      (is_transient : E → Bool) (cb : CircuitBreaker) (n : ℤ) (t : ℕ)
      → cb.state ≡ closed
      → Inv cb
      → FailsWithin t cb.timeout
      → cb.failures + (call_tool turn is_transient cb n).2 ≤ cb.threshold
  unfolding call_tool
  call_tool_spares is_transient cb n t shut inv within =
      let k = (retry (is_retryable is_transient) (attempt_at turn cb) n).1 in
      ground (arith, backend_calls-Counted t cb k shut inv within)
