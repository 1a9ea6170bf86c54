-- ===== src/Resilience/Client.antt =====
-- internal/resilience/client.go: a tool call through the retry loop and a circuit breaker. The
-- checks for a nil client, backend or breaker are left out, and so are logs and traces.
pub mod Bounds
use cruvero_mcp_gateway.Prelude.{ℕ, zero, suc, ◌-◌, Bool, false, Option, none, some, if◌then◌else◌}
use cruvero_mcp_gateway.Prelude.Int.{ℤ}
use cruvero_mcp_gateway.Resilience.Circuit.{
  CircuitBreaker, Call, Outcome, success, circuit_open, unknown_state, canceled, failed, is_run,
  execute,
}
use cruvero_mcp_gateway.Resilience.Retry.{Attempt, RetryResult, retry}

-- What `Execute` returns as an error.
pub data CallError (E : Type 0) : Type 0 where
  refused unknown : CallError E
  stopped backend_failed : E → CallError E

unfoldable pub error_of : {E : Type 0} → Outcome E → Option (CallError E)
error_of success = none
error_of circuit_open = some refused
error_of unknown_state = some unknown
error_of (canceled e) = some (stopped e)
error_of (failed e) = some (backend_failed e)

-- What the surroundings answer at an attempt: the context before it, the call, and the wait after.
pub record Turn (E : Type 0) : Type 0 where
  pub ctx_err : Option E
  pub call : Call E
  pub wait_err : Option E

abbrev pub as_stopped : {E : Type 0} → Option E → Option (CallError E)
as_stopped none = none
as_stopped (some e) = some (stopped e)

-- `IsRetryable`: the breaker's own errors and the context's are not.
abbrev pub is_retryable : {E : Type 0} → (E → Bool) → CallError E → Bool
is_retryable is_transient (backend_failed e) = is_transient e
is_retryable is_transient _ = false

module _ {E : Type 0} (turn : ℕ → Turn E) where
  -- The breaker after a number of attempts.
  unfoldable pub breaker_after : CircuitBreaker → ℕ → CircuitBreaker
  unfolding execute
  breaker_after cb zero = cb
  breaker_after cb (suc n) = (execute (breaker_after cb n) (turn (suc n)).call).0

  -- What the attempt after some others ends in.
  unfoldable pub outcome_after : CircuitBreaker → ℕ → Outcome E
  unfolding breaker_after execute
  outcome_after cb n = (execute (breaker_after cb n) (turn (suc n)).call).1

  -- The attempt as the retry loop sees it.
  unfoldable pub attempt_at : CircuitBreaker → ℕ → Attempt (CallError E)
  unfolding outcome_after error_of
  attempt_at cb attempt = record {
    ctx_err = as_stopped (turn attempt).ctx_err;
    fn_err = error_of (outcome_after cb (attempt - 1));
    wait_err = as_stopped (turn attempt).wait_err;
  }

  -- How often the backend is called in a number of attempts.
  unfoldable pub backend_calls : CircuitBreaker → ℕ → ℕ
  unfolding outcome_after
  backend_calls cb zero = 0
  backend_calls cb (suc n) =
      let before = backend_calls cb n in if is_run (outcome_after cb n) then suc before else before

  -- The result, the breaker, and how often the backend was called.
  unfoldable pub call_tool :
      (E → Bool) → CircuitBreaker → ℤ → RetryResult (CallError E) × CircuitBreaker × ℕ
  unfolding retry attempt_at breaker_after backend_calls
  call_tool is_transient cb n =
      let (result, attempts) = retry (is_retryable is_transient) (attempt_at cb) n in
      (result, breaker_after cb attempts, backend_calls cb attempts)
