-- ===== src/Resilience/Circuit/Invariant.antt =====
-- The circuit breaker under calls that run one after the other.
use cruvero_mcp_gateway.Prelude.{
  nat_eq, ◌+◌, ◌-◌, ◌≤◌, ◌<◌, ◌≡◌, refl, ◌≢◌, List, [], ◌∷◌, none, arith, length, All, ◌==◌,
  Bool-cases, if◌then◌else◌, true, ◌⊎◌, inl, false, Option, some, inr,
}
use cruvero_mcp_gateway.Prelude.Int.{ℤ}
use cruvero_mcp_gateway.Prelude.Texts.{Text}
use cruvero_mcp_gateway.Resilience.Circuit.{
  CircuitState, closed, open_state, other_state, CircuitBreaker, new_circuit_breaker, Call,
  circuit_open, is_run, execute, reset,
}

abbrev IsKnown : CircuitState → Type 0
IsKnown (other_state s) = ⊥
IsKnown _ = Unit

pub record Inv (cb : CircuitBreaker) : Type 0 where
  pub known : IsKnown cb.state
  pub threshold_pos : 0 < cb.threshold
  pub timeout_pos : 0 < cb.timeout
  pub closed_below : cb.state ≡ closed → cb.failures < cb.threshold
  pub tripped_at : cb.state ≢ closed → cb.failures ≡ cb.threshold

-- A new breaker, a reset one and one that has executed a call are well formed: its threshold and
-- timeout are positive, a closed breaker has counted fewer failures than the threshold, and an
-- open or half-open one exactly as many.
pub new-Inv :
    (name : Text) (threshold timeout : ℤ) → Inv (new_circuit_breaker name threshold timeout)
unfolding new_circuit_breaker
new-Inv name threshold timeout = ground arith

pub reset-Inv : {cb : CircuitBreaker} → Inv cb → Inv (reset cb)
unfolding reset
reset-Inv v = ground arith

module _ {E : Type 0} where
  pub execute-Inv : (cb : CircuitBreaker) (c : Call E) → Inv cb → Inv (execute cb c).0
  unfolding execute
  execute-Inv cb c v = ground arith

  -- The breaker after a sequence of calls.
  pub run : CircuitBreaker → List (Call E) → CircuitBreaker
  run cb [] = cb
  run cb (c ∷ cs) = run (execute cb c).0 cs

  run-Inv : (cb : CircuitBreaker) (cs : List (Call E)) → Inv cb → Inv (run cb cs)
  unfolding run
  run-Inv cb [] v = v
  run-Inv cb (c ∷ cs) v = run-Inv (execute cb c).0 cs (execute-Inv cb c v)

  -- After any sequence of calls a breaker that started new is well formed: its state is a known
  -- one, its threshold and timeout are positive, a closed breaker has counted fewer failures than
  -- the threshold, and an open or half-open one exactly as many.
  pub run-new-Inv :
      (name : Text) (threshold timeout : ℤ) (cs : List (Call E))
      → Inv (run (new_circuit_breaker name threshold timeout) cs)
  run-new-Inv name threshold timeout cs = run-Inv _ cs (new-Inv name threshold timeout)

  -- A call whose function is run and fails.
  abbrev pub Fails : Call E → Type 0
  Fails c = (c.ctx_err ≡ none) × (c.fn_err ≢ none)

  execute-Fails :
      (cb : CircuitBreaker) (c : Call E)
      → cb.state ≡ closed
      → Fails c
      → (cb.failures + 1 < cb.threshold
          → ((execute cb c).0.state ≡ closed)
            × ((execute cb c).0.failures ≡ cb.failures + 1)
            × ((execute cb c).0.threshold ≡ cb.threshold))
        × (cb.threshold ≤ cb.failures + 1 → (execute cb c).0.state ≡ open_state)
  unfolding execute
  execute-Fails cb c h f = ground arith

  run-Fails_below :
      (cb : CircuitBreaker) (cs : List (Call E))
      → cb.state ≡ closed
      → All Fails cs
      → cb.failures + length cs < cb.threshold
      → (run cb cs).state ≡ closed
  unfolding run
  run-Fails_below cb [] h f n = h
  run-Fails_below cb (c ∷ cs) h f n =
      let (s, k, t) = (execute-Fails cb c h f.0).0 (omega arith) in
      run-Fails_below (execute cb c).0 cs s f.1 (omega arith)

  run-Fails_trips :
      (cb : CircuitBreaker) (cs : List (Call E))
      → cb.state ≡ closed
      → All Fails cs
      → cb.failures < cb.threshold
      → cb.failures + length cs ≡ cb.threshold
      → (run cb cs).state ≡ open_state
  unfolding run
  run-Fails_trips cb [] h f b n = absurd (omega arith)
  run-Fails_trips cb (c ∷ []) h f b n = (execute-Fails cb c h f.0).1 (omega arith)
  run-Fails_trips cb (c ∷ d ∷ cs) h f b n =
      let (s, k, t) = (execute-Fails cb c h f.0).0 (omega arith) in
      run-Fails_trips (execute cb c).0 (d ∷ cs) s f.1 (omega arith) (omega arith)

  -- From a well-formed breaker that has just been reset, consecutive failing calls, at most as many
  -- as the threshold, leave it closed if they are fewer and open if they reach the threshold.
  run-reset-threshold :
      (cb : CircuitBreaker) (cs : List (Call E))
      → Inv cb
      → All Fails cs
      → length cs ≤ cb.threshold
      → (run (reset cb) cs).state ≡ (if length cs == cb.threshold then open_state else closed)
  unfolding reset
  run-reset-threshold cb cs v f h = elim (Bool-cases (length cs == cb.threshold)) [
    | inl e ↦ rw e (run-Fails_trips _ cs refl f v.threshold_pos (ground (arith, e)))
    | inr e ↦ rw e (run-Fails_below _ cs refl f (ground arith))
  ]

  -- While the timeout after the last failure has not passed, an open breaker refuses each call,
  -- does not run its function and stays as it is.
  execute_early :
      (cb : CircuitBreaker) (c : Call E)
      → cb.state ≡ open_state
      → c.now - cb.last_failure < cb.timeout
      → (execute cb c ≡ (cb, circuit_open)) × (is_run (execute cb c).1 ≡ false)
  unfolding execute
  execute_early cb c h t = ground arith

  abbrev pub verdict : Option E → CircuitState
  verdict none = closed
  verdict (some e) = open_state

  -- Once the timeout has passed, a call of an open breaker whose context is live is a probe: it runs
  -- its function and leaves the breaker closed if that succeeds and open if it fails, and the next
  -- call made within the timeout of a failed probe is refused.
  execute_probe :
      (cb : CircuitBreaker) (c d : Call E)
      → cb.state ≡ open_state
      → cb.timeout ≤ c.now - cb.last_failure
      → c.ctx_err ≡ none
      → d.now - c.later < cb.timeout
      → (is_run (execute cb c).1 ≡ true)
        × ((execute cb c).0.state ≡ verdict c.fn_err)
        × ((c.fn_err ≡ none) ⊎ ((execute (execute cb c).0 d).1 ≡ circuit_open))
  unfolding execute
  execute_probe cb c d h t l n = ground arith
