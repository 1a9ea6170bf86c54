-- ===== src/RateLimit/Memory/Requests.antt =====
-- What a request to the memory backend answers and changes (internal/ratelimit/memory_backend.go).
use cruvero_mcp_gateway.Prelude.{
  ℕ, ◌<◌, ◌≡◌, refl, ◌⊎◌, inl, inr, true, false, some, arith, ◌==◌, if◌then◌else◌, Bool-cases,
}
use cruvero_mcp_gateway.Prelude.Int.{ℤ}
use cruvero_mcp_gateway.Prelude.Texts.{Text, text_eq}
use cruvero_mcp_gateway.Prelude.Maps.{lookup, lookup-insert}
use cruvero_mcp_gateway.RateLimit.Keys.{LimiterKey, normalize_key, key_string}
use cruvero_mcp_gateway.RateLimit.Rates.{Rates}
use cruvero_mcp_gateway.RateLimit.Memory.{
  Answer, MemoryBackend, request, check_limiter, limiter_for, retry_after_for, effective_limit,
}

module _ (rates : Rates) where
  retry_positive : (left limit : rates.Rate) → 0 < retry_after_for rates left limit
  unfolding retry_after_for
  retry_positive left limit = ground (arith)

  -- The wait that an answer names is for a refused request alone.
  unfoldable pub IsFair : Answer rates → Type 0
  IsFair a =
      ((a.allowed ≡ true) × (a.retry_after ≡ 0)) ⊎ ((a.allowed ≡ false) × (0 < a.retry_after))

  check_limiter-IsFair :
      (now : ℕ) (l : rates.Limiter) (limit : rates.Rate)
      → IsFair (check_limiter rates now l limit).0
  unfolding check_limiter IsFair
  check_limiter-IsFair now l limit = elim (Bool-cases (rates.allow now l).0) [
    | inl e ↦ inl (e, rw e)
    | inr e ↦ inr (e, rw e (retry_positive (rates.tokens now (rates.allow now l).1) limit))
  ]

-- A request is answered as the limiter under its key's text says: no wait when the limiter lets it
-- through, a positive one when it does not. Afterwards that key holds the limiter after the request,
-- used now, and the limiters of all other keys are as they were.
pub request_lem :
    (rates : Rates) (mb : MemoryBackend rates) (key : LimiterKey) (limit : rates.Rate) (burst : ℤ)
    (now : ℕ) (name : Text)
    → ((request rates mb key limit burst now).0.allowed
        ≡ (rates.allow now (limiter_for rates mb (key_string (normalize_key key)) limit burst)).0)
      × IsFair rates (request rates mb key limit burst now).0
      × (lookup name (request rates mb key limit burst now).1.limiters ≡ (
          if key_string (normalize_key key) == name
          then some (record {
            limiter =
                (rates.allow now
                  (limiter_for rates mb (key_string (normalize_key key)) limit burst)).1;
            last_used = now;
          })
          else lookup name mb.limiters))
unfolding request check_limiter
request_lem rates mb key limit burst now name =
    let own = key_string (normalize_key key) in
    let l = limiter_for rates mb own limit burst in
    (
      refl,
      check_limiter-IsFair rates now l (effective_limit rates mb limit),
      lookup-insert own name _ mb.limiters,
    )
