-- ===== src/Resilience/Retry/Attempts.antt =====
-- How each outcome of the retry loop comes about, and how often the function is run.
use mathlib.Core.Path.{subst⁻¹}
use cruvero_mcp_gateway.Prelude.{
  ap, ℕ, zero, suc, ◌+◌, ◌≤◌, ◌≡◌, refl, Bool, true, false, none, some, ok, err, arith, Bool-cases,
  Option-cases, inl, inr, ◌<◌,
}
use cruvero_mcp_gateway.Prelude.Int.{ℤ}
use cruvero_mcp_gateway.Resilience.Retry.{
  Attempt, no_attempts, canceled, aborted, wait_canceled, failed, RetryResult, attempts, retry,
  max_attempts,
}

max_attempts_positive : (n : ℤ) → 0 < max_attempts n
max_attempts_positive n = ground arith

module _ {E : Type 0} (is_retryable : E → Bool) (at : ℕ → Attempt E) where
  -- The function was run, failed with a transient error, and the loop went on.
  abbrev pub Retried : ℕ → Type 0
  Retried k =
      ((at k).ctx_err ≡ none)
      × ((e : E) × ((at k).fn_err ≡ some e) × (is_retryable e ≡ true))
      × ((at k).wait_err ≡ none)

  -- So did a number of attempts from one on.
  abbrev pub RetriedFrom : ℕ → ℕ → Type 0
  RetriedFrom k zero = Unit
  RetriedFrom k (suc n) = Retried k × RetriedFrom (suc k) n

  -- The last attempt, by the outcome.
  abbrev pub EndsAt : ℕ → RetryResult E → Type 0
  EndsAt k (ok x) = ((at k).ctx_err ≡ none) × ((at k).fn_err ≡ none)
  EndsAt k (err no_attempts) = ⊥
  EndsAt k (err (canceled j e)) = (j ≡ k) × ((at k).ctx_err ≡ some e)
  EndsAt k (err (aborted j e)) =
      (j ≡ k) × ((at k).ctx_err ≡ none) × ((at k).fn_err ≡ some e) × (is_retryable e ≡ false)
  EndsAt k (err (failed j e)) =
      (j ≡ k) × ((at k).ctx_err ≡ none) × ((at k).fn_err ≡ some e) × (is_retryable e ≡ true)
  EndsAt k (err (wait_canceled j f)) =
      (j ≡ k)
      × ((at k).ctx_err ≡ none)
      × ((e : E) × ((at k).fn_err ≡ some e) × (is_retryable e ≡ true))
      × ((at k).wait_err ≡ some f)

  -- How many runs the outcome adds to the attempts before the last, and that only the last allowed
  -- attempt fails for good.
  abbrev pub Runs : ℕ → ℕ → ℕ → RetryResult E → Type 0
  Runs left n runs (err (canceled j e)) = runs ≡ n
  Runs left n runs (err (failed j e)) = (runs ≡ suc n) × (runs ≡ left)
  Runs left n runs _ = runs ≡ suc n

  -- The attempts before the last one were retried.
  abbrev pub Explains : ℕ → ℕ → RetryResult E × ℕ → Type 0
  Explains left k (result, runs) =
      (n : ℕ) × (last : ℕ) × (last ≡ k + n)
      × (suc n ≤ left)
      × RetriedFrom k n
      × EndsAt last result
      × Runs left n runs result

  Runs-suc :
      (left n runs : ℕ) (result : RetryResult E)
      → Runs left n runs result
      → Runs (suc left) (suc n) (suc runs) result
  Runs-suc left n runs (ok x) r = ap suc r
  Runs-suc left n runs (err no_attempts) r = ap suc r
  Runs-suc left n runs (err (canceled j e)) r = ap suc r
  Runs-suc left n runs (err (aborted j e)) r = ap suc r
  Runs-suc left n runs (err (failed j e)) (r, l) = (ap suc r, ap suc l)
  Runs-suc left n runs (err (wait_canceled j e)) r = ap suc r

  Explains-suc :
      (left k : ℕ) (result : RetryResult E × ℕ)
      → Retried k
      → Explains left (suc k) result
      → Explains (suc left) k (result.0, suc result.1)
  Explains-suc left k (result, runs) t (n, last, e, h, from, ends, r) = (
    suc n,
    last,
    omega (arith, e),
    omega (arith, h),
    (t, from),
    ends,
    Runs-suc left n runs result r,
  )

  -- What is known of the attempts after this one, if any are left.
  abbrev Later : ℕ → ℕ → Type 0
  Later zero k = Unit
  Later (suc left) k = Explains (suc left) (suc k) (attempts is_retryable at (suc left) (suc k))

  after_failure :
      (left k : ℕ) (e : E)
      → (at k).ctx_err ≡ none
      → (at k).fn_err ≡ some e
      → is_retryable e ≡ true
      → Later left k
      → Explains (suc left) k (attempts is_retryable at (suc left) k)
  unfolding attempts
  after_failure zero k e c f t later =
      subst⁻¹ (Explains 1 k) {y = (err (failed k e), 1)} (ground arith)
        (0, k, omega arith, omega arith, tt, (refl, c, f, t), (refl, refl))
  after_failure (suc left) k e c f t later = elim (Option-cases (at k).wait_err) [
    | inr (g, w) ↦
        subst⁻¹ (Explains (suc (suc left)) k) {y = (err (wait_canceled k g), 1)} (ground arith)
          (0, k, omega arith, omega arith, tt, (refl, c, (e, f, t), w), refl)
    | inl w ↦
        let rest = attempts is_retryable at (suc left) (suc k) in
        subst⁻¹ (Explains (suc (suc left)) k) {y = (rest.0, suc rest.1)} (ground arith)
          (Explains-suc (suc left) k rest (c, (e, f, t), w) later)
  ]

  attempt_explained :
      (left k : ℕ) → Later left k → Explains (suc left) k (attempts is_retryable at (suc left) k)
  unfolding attempts
  attempt_explained left k later = elim (Option-cases (at k).ctx_err) [
    | inr (e, c) ↦
        subst⁻¹ (Explains (suc left) k) {y = (err (canceled k e), 0)} (ground arith)
          (0, k, omega arith, omega arith, tt, (refl, c), refl)
    | inl c ↦ elim (Option-cases (at k).fn_err) [
      | inl f ↦
          subst⁻¹ (Explains (suc left) k) {y = (ok tt, 1)} (ground arith)
            (0, k, omega arith, omega arith, tt, (c, f), refl)
      | inr (e, f) ↦ elim (Bool-cases (is_retryable e)) [
        | inr t ↦
            subst⁻¹ (Explains (suc left) k) {y = (err (aborted k e), 1)} (ground arith)
              (0, k, omega arith, omega arith, tt, (refl, c, f, t), refl)
        | inl t ↦ after_failure left k e c f t later
      ]
    ]
  ]

  attempts_explained : (left k : ℕ) → Explains (suc left) k (attempts is_retryable at (suc left) k)
  attempts_explained zero k = attempt_explained zero k tt
  attempts_explained (suc left) k = attempt_explained (suc left) k (attempts_explained left (suc k))

  attempts_positive : (left : ℕ) → 0 < left → Explains left 1 (attempts is_retryable at left 1)
  attempts_positive zero h = absurd (omega (arith, h))
  attempts_positive (suc left) h = attempts_explained left 1

  -- The loop always ends in one of the outcomes of `Retry`, each with its cause: all attempts before
  -- the last were retried after a transient error, the last one succeeded, met a canceled
  -- context, failed for a lasting error, was the last allowed one or was canceled in its wait. The
  -- function was run once at each attempt, but not at one that met a canceled context.
  pub retry_explained : (n : ℤ) → Explains (max_attempts n) 1 (retry is_retryable at n)
  unfolding retry
  retry_explained n = attempts_positive (max_attempts n) (max_attempts_positive n)
