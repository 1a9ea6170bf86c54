-- ===== src/RateLimit/Middleware/Admission.antt =====
-- internal/ratelimit/middleware.go over memory_backend.go: which requests reach the next handler.
use mathlib.Core.Path.{subst}
use cruvero_mcp_gateway.Prelude.{
  ap, ap₂, ℕ, ◌≡◌, refl, inl, inr, Bool, true, false, Option, some, ok, ◌==◌, if◌then◌else◌,
  Bool-cases, ◌∙◌,
}
use cruvero_mcp_gateway.Prelude.Int.{ℤ, pos, is_pos}
use cruvero_mcp_gateway.Prelude.Texts.{Text, text_eq}
use cruvero_mcp_gateway.Prelude.Maps.{lookup}
use cruvero_mcp_gateway.RateLimit.Keys.{LimiterKey, normalize_key, key_string}
use cruvero_mcp_gateway.RateLimit.Rates.{Rates}
use cruvero_mcp_gateway.RateLimit.Memory.{MemoryEntry, MemoryBackend, request, limiter_for}
use cruvero_mcp_gateway.RateLimit.Memory.Requests.{request_lem}
use cruvero_mcp_gateway.Types.{PolicyProfile}
use cruvero_mcp_gateway.Identity.Callers.{CountsAs}
use cruvero_mcp_gateway.RateLimit.Middleware.Routes.{
  IsOnRoute, own_key, limiter_key_of-CountsAs, key_string-IsOnRoute,
}
use cruvero_mcp_gateway.RateLimit.Middleware.Buckets.{IsLimitedBy, bucket, limiter_for-bucket}
use cruvero_mcp_gateway.RateLimit.Middleware.{
  ProfileResolver, HttpRequest, Backend, Response, Verdict, passed, limited, limiter_key_of,
  resolve_profile, retry_after_seconds, respond, serve,
}

module _ (rates : Rates) where
  -- The backend in memory at a time.
  abbrev pub memory : ℕ → Backend rates (MemoryBackend rates)
  memory now mb key limit burst =
      let (answer, mb') = request rates mb key limit burst now in
      (
        ok (record {
          allowed = answer.allowed;
          remaining = pos answer.remaining;
          retry_after = pos answer.retry_after;
        }),
        mb',
      )

  abbrev pub is_passed : Response rates → Bool
  is_passed (passed headers) = true
  is_passed (limited headers seconds key) = false

  -- A refusal names the key and asks for a wait of a second at least.
  abbrev pub IsRefusalOf : LimiterKey → Response rates → Type 0
  IsRefusalOf key (passed headers) = Unit
  IsRefusalOf key (limited headers seconds refused) = (is_pos seconds ≡ true) × (refused ≡ key)

  retry_after_seconds_positive :
      (ceil_seconds : ℤ → ℤ) (wait : ℤ)
      → is_pos (retry_after_seconds rates ceil_seconds wait) ≡ true
  unfolding retry_after_seconds
  retry_after_seconds_positive ceil_seconds wait = elim (Bool-cases (is_pos (ceil_seconds wait))) [
    | inl positive ↦ rw (retry_after_seconds, positive) positive
    | inr not_positive ↦ rw (retry_after_seconds, not_positive) refl
  ]

  respond-IsRefusalOf :
      (ceil_seconds : ℤ → ℤ) (key : LimiterKey) (limit : rates.Rate) (v : Verdict rates)
      → (is_passed (respond rates ceil_seconds key limit (ok v)) ≡ v.allowed)
        × IsRefusalOf key (respond rates ceil_seconds key limit (ok v))
  unfolding respond
  respond-IsRefusalOf ceil_seconds key limit v = elim (Bool-cases v.allowed) [
    | inl e ↦ (rw (respond, e) refl, rw (respond, e) tt)
    | inr e ↦ (
      rw (respond, e) refl,
      rw (respond, e) (retry_after_seconds_positive ceil_seconds v.retry_after, refl),
    )
  ]

  -- The entry under a name after a request that has used a limiter.
  abbrev entry_at :
      MemoryBackend rates → Text → ℕ → Text → rates.Limiter → Option (MemoryEntry rates)
  entry_at mb name now own l =
      if own == name
      then some (record { limiter = (rates.allow now l).1; last_used = now })
      else lookup name mb.limiters

  -- Over the backend in memory, a request reaches the next handler exactly if its bucket has a token:
  -- the one that is there for its client and route, or a new one with the rate and the burst of the
  -- caller's profile, where these are positive, and with the backend's where they are not. A refused
  -- one is told to wait for a second at least, the bucket after the request is kept, and no other
  -- bucket is touched.
  pub serve-memory :
      (decode_method : Text → Option Text) (ceil_seconds : ℤ → ℤ)
      (resolver : Option ProfileResolver) (mb : MemoryBackend rates) (r : HttpRequest) (now : ℕ)
      (client route : Text) (profile : Option PolicyProfile) (name : Text)
      → CountsAs r.identity client
      → IsOnRoute decode_method r route
      → IsLimitedBy resolver r.identity profile
      → let (response, after) =
          serve rates decode_method ceil_seconds resolver (some (memory now)) mb r in
        let (has_token, l) = rates.allow now (bucket rates mb (own_key client route) profile) in
        (is_passed response ≡ has_token)
        × IsRefusalOf (record { client_id = client; route = route }) response
        × (lookup name after.limiters ≡ (
            if own_key client route == name
            then some (record { limiter = l; last_used = now })
            else lookup name mb.limiters))
  unfolding serve
  serve-memory decode_method ceil_seconds resolver mb r now client route profile name c on by =
      let key = limiter_key_of decode_method r in
      let (limit, burst) = resolve_profile rates resolver r in
      let (fair, _, kept) = request_lem rates mb key limit burst now name in
      let v : Verdict rates = record {
        allowed = (request rates mb key limit burst now).0.allowed;
        remaining = pos (request rates mb key limit burst now).0.remaining;
        retry_after = pos (request rates mb key limit burst now).0.retry_after;
      } in
      let (same, refusal) = respond-IsRefusalOf ceil_seconds key limit v in
      let as_named = limiter_key_of-CountsAs decode_method r client route c on in
      let stored : key_string (normalize_key key) ≡ own_key client route =
        rw as_named (key_string-IsOnRoute decode_method r client route c on) in
      let own : limiter_for rates mb (key_string (normalize_key key)) limit burst
          ≡ bucket rates mb (own_key client route) profile =
        rw stored (limiter_for-bucket rates mb (own_key client route) resolver r profile by) in
      (
        same ∙ fair ∙ ap (λ l. (rates.allow now l).0) own,
        subst (λ k. IsRefusalOf k (respond rates ceil_seconds key limit (ok v))) as_named refusal,
        kept ∙ ap₂ (entry_at mb name now) stored own,
      )
