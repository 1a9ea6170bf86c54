-- ===== src/RateLimit/Rates.antt =====
-- What the rate limiters take from elsewhere: float64 rates, and golang.org/x/time/rate, whose
-- limiter is a bucket of tokens that fills at a rate up to a burst.
use cruvero_mcp_gateway.Prelude.{ℕ, ◌≡◌, Bool}
use cruvero_mcp_gateway.Prelude.Int.{ℤ, is_pos}

pub record Rates : Type 1 where
  pub Rate : Type 0
  pub is_positive : Rate → Bool
  pub of_int : ℤ → Rate
  pub one : Rate
  pub one_minus : Rate → Rate
  -- The floor as an int.
  pub floor : Rate → ℤ
  -- The nanoseconds in which `needed` tokens come at a rate, cut off to an integer.
  pub duration : Rate → Rate → ℤ
  pub Limiter : Type 0
  pub new_limiter : Rate → ℤ → Limiter
  -- One request at a time: whether it has a token, and the bucket after it.
  pub allow : ℕ → Limiter → Bool × Limiter
  pub tokens : ℕ → Limiter → Rate
  -- The rate at which it fills.
  pub limit : Limiter → Rate
  -- The sign of a converted integer is the integer's.
  pub of_int_positive : (z : ℤ) → is_positive (of_int z) ≡ is_pos z
