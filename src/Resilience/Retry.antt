-- ===== src/Resilience/Retry.antt =====
-- internal/resilience/retry.go: the retry loop. What the surroundings answer at each attempt, and
-- which errors are transient (package net's and the context's kinds), are parameters.
pub mod Attempts
use cruvero_mcp_gateway.Prelude.{
  ℕ, zero, suc, Bool, true, false, Option, none, some, if◌then◌else◌, Result, ok, err, not, nat_beq,
}
use cruvero_mcp_gateway.Prelude.Int.{ℤ, is_pos, to_nat}

-- The error of the context before the attempt, of the function, and of the wait after it.
pub record Attempt (E : Type 0) : Type 0 where
  pub ctx_err : Option E
  pub fn_err : Option E
  pub wait_err : Option E

pub data RetryError (E : Type 0) : Type 0 where
  no_attempts : RetryError E
  canceled aborted wait_canceled failed : ℕ → E → RetryError E

abbrev pub RetryResult : Type 0 → Type 0
RetryResult E = Result (RetryError E) Unit

-- `normalizeRetryConfig` of the number of attempts.
abbrev pub max_attempts : ℤ → ℕ
max_attempts n = if is_pos n then to_nat n else 1

module _ {E : Type 0} (is_retryable : E → Bool) (at : ℕ → Attempt E) where
  -- The loop of `Retry`: how many attempts are left and the number of this one. It returns how often
  -- the function was run too.
  unfoldable pub attempts : ℕ → ℕ → RetryResult E × ℕ
  attempts zero attempt = (err no_attempts, 0)
  attempts (suc left) attempt =
      let (later, runs) = attempts left (suc attempt) in
      elim (at attempt).ctx_err [
        | some e ↦ (err (canceled attempt e), 0)
        | none ↦ elim (at attempt).fn_err [
          | none ↦ (ok tt, 1)
          | some e ↦
              if not (is_retryable e)
              then (err (aborted attempt e), 1)
              else if nat_beq left 0
              then (err (failed attempt e), 1)
              else elim (at attempt).wait_err [
                | some f ↦ (err (wait_canceled attempt f), 1)
                | none ↦ (later, suc runs)
              ]
        ]
      ]

  unfoldable pub retry : ℤ → RetryResult E × ℕ
  unfolding attempts
  retry n = attempts (max_attempts n) 1
