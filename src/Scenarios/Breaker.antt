-- ===== src/Scenarios/Breaker.antt =====
-- A breaker with a threshold of two and a timeout of ten, and a call that is retried
-- (internal/resilience).
use cruvero_mcp_gateway.Prelude.{ltb, refl, true, [], ◌∷◌, none, some, ℕ, nat_eq, if◌then◌else◌}
use cruvero_mcp_gateway.Prelude.Int.{pos}
use cruvero_mcp_gateway.Prelude.Texts.{codes}
use cruvero_mcp_gateway.Resilience.Circuit.{
  CircuitBreaker, Call, new_circuit_breaker, reset, open_state, closed,
}
use cruvero_mcp_gateway.Resilience.Retry.{Attempt, retry}
use cruvero_mcp_gateway.Resilience.Retry.Attempts.{Explains, retry_explained}
use cruvero_mcp_gateway.Resilience.Circuit.Invariant.{Inv, run, run-new-Inv}
use cruvero_mcp_gateway.Resilience.Circuit.Interleaving.{Shared, Leaves, forced, Step-Leaves_open}

abbrev breaker : CircuitBreaker
breaker = new_circuit_breaker (codes "b") (pos 2) (pos 10)

abbrev fails_at : ℕ → Call ℕ
fails_at n = record { now = n; later = n; ctx_err = none; fn_err = some 7 }

-- Open since 20.
abbrev tripped : CircuitBreaker
tripped = record {
  name = codes "b";
  state = open_state;
  failures = 2;
  threshold = 2;
  timeout = 10;
  last_failure = 20;
}

run-new-Inv_example : Inv (run breaker (fails_at 3 ∷ fails_at 4 ∷ []))
run-new-Inv_example = run-new-Inv (codes "b") (pos 2) (pos 10) (fails_at 3 ∷ fails_at 4 ∷ [])

abbrev idle : Shared
idle = record { breaker = tripped; in_flight = 1 }

abbrev calm : Shared
calm = record { breaker = record tripped { state = closed; failures = 0 }; in_flight = 0 }

Step-Leaves_open_example : Leaves ℕ idle (record idle { breaker = reset tripped })
unfolding reset
Step-Leaves_open_example =
    Step-Leaves_open {E = ℕ} {s = idle} {t = record idle { breaker = reset tripped }} (forced idle)
      refl (λ e. cc)

-- Two attempts that fail, and a third one that does not.
abbrev third_time : ℕ → Attempt ℕ
third_time n = record { ctx_err = none; fn_err = if ltb n 3 then some 7 else none; wait_err = none }

retry_explained_example : Explains (λ e. true) third_time 5 1 (retry (λ e. true) third_time (pos 5))
retry_explained_example = retry_explained (λ e. true) third_time (pos 5)
