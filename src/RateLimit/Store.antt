-- ===== src/RateLimit/Store.antt =====
-- internal/ratelimit/store.go: a limiter for each caller and route. A limiter is shared by pointer,
-- so an entry holds its address; `next` is the address that the next new limiter gets. The clock is
-- an argument. The lookup under the read lock and the one under the write lock see the same map.
pub mod Sharing
pub mod Idle
use cruvero_mcp_gateway.Prelude.{
  ℕ, suc, ◌+◌, Bool, true, false, not, List, [], ◌∷◌, Option, none, some, ltb, if◌then◌else◌,
  length, keep,
}
use cruvero_mcp_gateway.Prelude.Int.{ℤ, pos, is_pos, to_nat}
use cruvero_mcp_gateway.Prelude.Maps.{Map, lookup, insert, delete}
use cruvero_mcp_gateway.Types.{PolicyProfile}
use cruvero_mcp_gateway.RateLimit.Keys.{LimiterKey, key_eq, normalize_key}
use cruvero_mcp_gateway.RateLimit.Rates.{Rates}

module _ (rates : Rates) where
  open rates use {Rate, is_positive, of_int}

  -- A limiter: its address, and what it was made with.
  pub record Bucket : Type 0 where
    pub address : ℕ
    pub limit : Rate
    pub burst : ℤ

  pub record Entry : Type 0 where
    pub limiter : Bucket
    pub last_used : ℕ

  pub record LimiterStore : Type 0 where
    pub limiters : Map LimiterKey Entry
    pub default_rate : Rate
    pub default_burst : ℤ
    pub next : ℕ

  abbrev pub default_rate_limit : Rate
  default_rate_limit = of_int (pos 10)

  abbrev pub default_rate_burst : ℤ
  default_rate_burst = pos 20

  unfoldable pub rate_or : Rate → Rate → Rate
  rate_or r fallback = if is_positive r then r else fallback

  unfoldable pub burst_or : ℤ → ℤ → ℤ
  burst_or b fallback = if is_pos b then b else fallback

  unfoldable pub new_limiter_store : Rate → ℤ → LimiterStore
  unfolding rate_or burst_or
  new_limiter_store r b = record {
    limiters = [];
    default_rate = rate_or r default_rate_limit;
    default_burst = burst_or b default_rate_burst;
    next = 0;
  }

  -- The limit of a new limiter.
  unfoldable pub limit_for : LimiterStore → Option PolicyProfile → Rate
  unfolding rate_or
  limit_for s none = rate_or s.default_rate default_rate_limit
  limit_for s (some p) =
      rate_or (if is_pos p.rate_limit then of_int p.rate_limit else s.default_rate)
        default_rate_limit

  unfoldable pub burst_for : LimiterStore → Option PolicyProfile → ℤ
  unfolding burst_or
  burst_for s none = burst_or s.default_burst (pos 1)
  burst_for s (some p) = burst_or (burst_or p.rate_burst s.default_burst) (pos 1)

  unfoldable pub create :
      LimiterStore → LimiterKey → Option PolicyProfile → ℕ → Bucket × LimiterStore
  unfolding limit_for burst_for
  create s key profile now =
      let b : Bucket = record {
        address = s.next;
        limit = limit_for s profile;
        burst = burst_for s profile;
      } in
      (
        b,
        record s {
          limiters = insert key (record { limiter = b; last_used = now }) s.limiters;
          next = suc s.next;
        },
      )

  unfoldable pub touch : LimiterStore → LimiterKey → Entry → ℕ → Bucket × LimiterStore
  touch s key e now =
      (e.limiter, record s { limiters = insert key (record e { last_used = now }) s.limiters })

  unfoldable pub get_or_create :
      LimiterStore → LimiterKey → Option PolicyProfile → ℕ → Bucket × LimiterStore
  unfolding create touch normalize_key
  get_or_create s raw profile now =
      let key = normalize_key raw in
      elim (lookup key s.limiters) [ some e ↦ touch s key e now | none ↦ create s key profile now ]

  unfoldable pub remove : LimiterStore → LimiterKey → LimiterStore
  unfolding normalize_key
  remove s key = record s { limiters = delete (normalize_key key) s.limiters }

  -- lastUsed.Before(now - maxIdle)
  abbrev pub is_idle : ℕ → ℕ → Entry → Bool
  is_idle now max_idle e = ltb (e.last_used + max_idle) now

  -- The loop of `Cleanup`, with its count.
  unfoldable pub sweep : ℕ → ℕ → Map LimiterKey Entry → Map LimiterKey Entry × ℕ
  sweep now max_idle [] = ([], 0)
  sweep now max_idle ((k, e) ∷ m) =
      let (rest, removed) = sweep now max_idle m in
      if is_idle now max_idle e then (rest, suc removed) else ((k, e) ∷ rest, removed)

  unfoldable pub cleanup : LimiterStore → ℤ → ℕ → LimiterStore × ℕ
  unfolding sweep
  cleanup s max_idle now =
      let (kept, removed) = sweep now (to_nat max_idle) s.limiters in
      if is_pos max_idle
      then (record s { limiters = kept }, removed)
      else (record s { limiters = [] }, length s.limiters)

  unfoldable pub count : LimiterStore → ℕ
  count s = length s.limiters

  unfoldable pub set_defaults : LimiterStore → Rate → ℤ → LimiterStore
  unfolding rate_or burst_or
  set_defaults s r b = record s {
    default_rate = rate_or r default_rate_limit;
    default_burst = burst_or b default_rate_burst;
  }
