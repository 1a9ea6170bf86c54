-- ===== src/RateLimit/Memory.antt =====
-- internal/ratelimit/memory_backend.go: the in-process backend. Its map is keyed by the text of the
-- key, and its buckets are limiters of golang.org/x/time/rate. The clock is an argument; the
-- lookups under the read and the write lock see the same map.
pub mod Requests
use cruvero_mcp_gateway.Prelude.{
  ℕ, ◌+◌, Bool, true, false, List, [], ◌∷◌, Option, none, some, ltb, if◌then◌else◌, length,
}
use cruvero_mcp_gateway.Prelude.Int.{ℤ, pos, is_pos, to_nat}
use cruvero_mcp_gateway.Prelude.Texts.{Text, text_eq}
use cruvero_mcp_gateway.Prelude.Maps.{Map, lookup, insert}
use cruvero_mcp_gateway.RateLimit.Keys.{LimiterKey, normalize_key, key_string, label}
use cruvero_mcp_gateway.RateLimit.Rates.{Rates}

abbrev pub second : ℕ
second = 1_000_000_000

module _ (rates : Rates) where
  open rates use {
    Rate, is_positive, of_int, one, one_minus, floor, duration, Limiter, new_limiter, allow, tokens,
  }

  pub record MemoryEntry : Type 0 where
    pub limiter : Limiter
    pub last_used : ℕ

  pub record MemoryBackend : Type 0 where
    pub limiters : Map Text MemoryEntry
    pub default_rate : Rate
    pub default_burst : ℤ
    pub max_idle : ℕ

  -- Whether the request has a token, the tokens left, and the nanoseconds to wait.
  pub record Answer : Type 0 where
    pub allowed : Bool
    pub remaining : ℕ
    pub retry_after : ℕ

  -- The wait of a refused request.
  unfoldable pub retry_after_for : Rate → Rate → ℕ
  retry_after_for left limit =
      let missing = one_minus left in
      let needed = if is_positive missing then missing else one in
      let wait = duration needed limit in
      if is_positive limit then (if is_pos wait then to_nat wait else second) else second

  unfoldable pub check_limiter : ℕ → Limiter → Rate → Answer × Limiter
  unfolding retry_after_for
  check_limiter now l limit =
      let (allowed, l') = allow now l in
      let left = tokens now l' in
      (
        record {
          allowed = allowed;
          remaining = to_nat (floor left);
          retry_after = if allowed then 0 else retry_after_for left limit;
        },
        l',
      )

  unfoldable pub effective_limit : MemoryBackend → Rate → Rate
  effective_limit mb limit = if is_positive limit then limit else mb.default_rate

  unfoldable pub effective_burst : MemoryBackend → ℤ → ℤ
  effective_burst mb burst = if is_pos burst then burst else mb.default_burst

  -- The limiter that a request meets: the one in the map, or a new one.
  unfoldable pub limiter_for : MemoryBackend → Text → Rate → ℤ → Limiter
  unfolding effective_limit effective_burst
  limiter_for mb key limit burst = elim (lookup key mb.limiters) [
    | some e ↦ e.limiter
    | none ↦ new_limiter (effective_limit mb limit) (effective_burst mb burst)
  ]

  unfoldable pub request : MemoryBackend → LimiterKey → Rate → ℤ → ℕ → Answer × MemoryBackend
  unfolding check_limiter limiter_for effective_limit normalize_key key_string
  request mb key limit burst now =
      let name = key_string (normalize_key key) in
      let (answer, l) =
        check_limiter now (limiter_for mb name limit burst) (effective_limit mb limit) in
      (
        answer,
        record mb { limiters = insert name (record { limiter = l; last_used = now }) mb.limiters },
      )

  unfoldable pub set_defaults : MemoryBackend → Rate → ℤ → MemoryBackend
  set_defaults mb r b = record mb {
    default_rate = if is_positive r then r else of_int (pos 10);
    default_burst = if is_pos b then b else pos 20;
  }

  unfoldable pub count : MemoryBackend → ℕ
  count mb = length mb.limiters

  unfoldable pub sweep : ℕ → ℕ → Map Text MemoryEntry → Map Text MemoryEntry
  sweep now max_idle [] = []
  sweep now max_idle ((k, e) ∷ m) =
      if ltb (e.last_used + max_idle) now
      then sweep now max_idle m
      else (k, e) ∷ sweep now max_idle m

  unfoldable pub cleanup : MemoryBackend → ℕ → MemoryBackend
  unfolding sweep
  cleanup mb now = record mb { limiters = sweep now mb.max_idle mb.limiters }

  pub record RateLimitEntry : Type 0 where
    pub key : LimiterKey
    pub remaining : ℕ
    pub limit : Rate
    pub last_used : ℕ

  -- The entries of a snapshot, with the key as it is read back from its text.
  unfoldable pub snapshot_entries : ℕ → Map Text MemoryEntry → List RateLimitEntry
  unfolding label
  snapshot_entries now [] = []
  snapshot_entries now ((k, e) ∷ m) =
      record {
        key = label k;
        remaining = to_nat (floor (tokens now e.limiter));
        limit = rates.limit e.limiter;
        last_used = e.last_used;
      }
      ∷ snapshot_entries now m

  unfoldable pub snapshot : MemoryBackend → ℕ → List RateLimitEntry
  unfolding snapshot_entries
  snapshot mb now = snapshot_entries now mb.limiters
