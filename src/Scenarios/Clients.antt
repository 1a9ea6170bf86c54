-- ===== src/Scenarios/Clients.antt =====
-- A breaker that two failures open and a client that tries five times (internal/resilience), and a
-- cache of two embeddings (internal/search).
use cruvero_mcp_gateway.Prelude.{
  ◌≡◌, ◌≤◌, ◌+◌, ◌⊎◌, refl, true, [], ◌∷◌, none, some, ℕ, List, length, arith,
}
use cruvero_mcp_gateway.Prelude.Int.{pos}
use cruvero_mcp_gateway.Prelude.Texts.{codes}
use cruvero_mcp_gateway.Resilience.Circuit.{CircuitBreaker, new_circuit_breaker}
use cruvero_mcp_gateway.Resilience.Circuit.Invariant.{Inv, new-Inv}
use cruvero_mcp_gateway.Resilience.Retry.{max_attempts}
use cruvero_mcp_gateway.Resilience.Client.{Turn, call_tool}
use cruvero_mcp_gateway.Resilience.Client.Bounds.{call_tool_bounded, call_tool_spares}
use cruvero_mcp_gateway.Search.Cache.{new_embedding_cache}
use cruvero_mcp_gateway.Search.Cache.Runs.{
  Operation, gets, sets, answers, answers_pairs, answers-new,
}

abbrev breaker : CircuitBreaker
breaker = new_circuit_breaker (codes "b") (pos 2) (pos 10)

-- The backend fails at every attempt.
abbrev down : ℕ → Turn ℕ
down k = record {
  ctx_err = none;
  call = record { now = 3; later = 3; ctx_err = none; fn_err = some 7 };
  wait_err = none;
}

call_tool_bounded_example :
    ((call_tool down (λ e. true) breaker (pos 5)).2 ≤ max_attempts (pos 5))
    × Inv (call_tool down (λ e. true) breaker (pos 5)).1
call_tool_bounded_example =
    call_tool_bounded down (λ e. true) breaker (pos 5) (new-Inv (codes "b") (pos 2) (pos 10))

call_tool_spares_example :
    breaker.failures + (call_tool down (λ e. true) breaker (pos 5)).2 ≤ breaker.threshold
unfolding new_circuit_breaker
call_tool_spares_example =
    call_tool_spares down (λ e. true) breaker (pos 5) 3 refl (new-Inv (codes "b") (pos 2) (pos 10))
      (λ k. (refl, (7, refl), omega arith, omega arith))

-- The second key is dropped for the third one, as the first was used again.
abbrev uses : List (Operation ℕ)
uses =
    sets (codes "a") 1
    ∷ sets (codes "b") 2
    ∷ gets (codes "a")
    ∷ sets (codes "c") 3
    ∷ gets (codes "b")
    ∷ []

answers-new_example :
    ((answers (new_embedding_cache (pos 2)) uses).0
      ≡ (answers_pairs (new_embedding_cache {V = ℕ} (pos 2)).max_size [] uses).0)
    × (((new_embedding_cache {V = ℕ} (pos 2)).max_size ≡ 0)
        ⊎ (length (answers (new_embedding_cache (pos 2)) uses).1.entries
            ≤ (new_embedding_cache {V = ℕ} (pos 2)).max_size))
answers-new_example = answers-new (pos 2) uses
