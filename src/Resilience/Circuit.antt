-- ===== src/Resilience/Circuit.antt =====
-- internal/resilience/circuit.go: the circuit breaker. A call's function, its context and the clock
-- enter as a record of what they answer. `failures` is an int that never passes `threshold` here,
-- so its increment does not wrap. Metrics are left out.
pub mod Invariant
pub mod Interleaving
use cruvero_mcp_gateway.Prelude.{
  ℕ, ◌+◌, ◌-◌, Bool, true, false, Option, none, some, ltb, leb, if◌then◌else◌,
}
use cruvero_mcp_gateway.Prelude.Int.{ℤ, is_pos, to_nat}
use cruvero_mcp_gateway.Prelude.Texts.{Text}

pub data CircuitState : Type 0 where
  closed open_state half_open : CircuitState
  other_state : Text → CircuitState

-- Times are nanoseconds; the zero time is 0.
pub record CircuitBreaker : Type 0 where
  pub name : Text
  pub state : CircuitState
  pub failures : ℕ
  pub threshold : ℕ
  pub timeout : ℕ
  pub last_failure : ℕ

abbrev pub second : ℕ
second = 1_000_000_000

unfoldable pub new_circuit_breaker : Text → ℤ → ℤ → CircuitBreaker
new_circuit_breaker name threshold timeout = record {
  name = name;
  state = closed;
  failures = 0;
  threshold = if is_pos threshold then to_nat threshold else 1;
  timeout = if is_pos timeout then to_nat timeout else second;
  last_failure = 0;
}

-- What the surroundings of one call answer: the clock before and after it, the error of the
-- context, and the error that the function returns if it is run.
pub record Call (E : Type 0) : Type 0 where
  pub now : ℕ
  pub later : ℕ
  pub ctx_err : Option E
  pub fn_err : Option E

pub data Outcome (E : Type 0) : Type 0 where
  success circuit_open unknown_state : Outcome E
  canceled failed : E → Outcome E

-- Whether the function was run.
abbrev pub is_run : {E : Type 0} → Outcome E → Bool
is_run success = true
is_run (failed e) = true
is_run _ = false

module _ {E : Type 0} where
  -- The end of `executeClosed`: the function has returned and the lock is held again.
  unfoldable pub finish_closed : CircuitBreaker → ℕ → Option E → CircuitBreaker × Outcome E
  finish_closed cb now (some e) =
      let cb' = record cb { failures = cb.failures + 1 } in
      (
        if leb cb.threshold (cb.failures + 1)
            then record cb' { state = open_state; last_failure = now }
            else cb',
        failed e,
      )
  finish_closed cb now none = (record cb { failures = 0 }, success)

  unfoldable pub execute_closed : CircuitBreaker → Call E → CircuitBreaker × Outcome E
  unfolding finish_closed
  execute_closed cb c = elim c.ctx_err [
    | some e ↦ (cb, canceled e)
    | none ↦ finish_closed cb c.later c.fn_err
  ]

  -- The probe of a half-open breaker, with the lock held from beginning to end.
  unfoldable pub probe : CircuitBreaker → ℕ → Option E → CircuitBreaker × Outcome E
  probe cb now (some e) =
      (record cb { state = open_state; failures = cb.threshold; last_failure = now }, failed e)
  probe cb now none = (record cb { state = closed; failures = 0; last_failure = 0 }, success)

  unfoldable pub execute_half_open : CircuitBreaker → Call E → CircuitBreaker × Outcome E
  unfolding probe
  execute_half_open cb c = elim c.ctx_err [
    | some e ↦ (cb, canceled e)
    | none ↦ probe cb c.later c.fn_err
  ]

  -- The switch of `Execute`.
  unfoldable pub dispatch : CircuitState → CircuitBreaker → Call E → CircuitBreaker × Outcome E
  unfolding execute_closed execute_half_open
  dispatch open_state cb c =
      if ltb (c.now - cb.last_failure) cb.timeout
      then (cb, circuit_open)
      else execute_half_open (record cb { state = half_open }) c
  dispatch half_open cb c = execute_half_open cb c
  dispatch closed cb c = execute_closed cb c
  dispatch (other_state s) cb c = (cb, unknown_state)

  unfoldable pub execute : CircuitBreaker → Call E → CircuitBreaker × Outcome E
  unfolding dispatch
  execute cb c = dispatch cb.state cb c

unfoldable pub reset : CircuitBreaker → CircuitBreaker
reset cb = record cb { state = closed; failures = 0; last_failure = 0 }
