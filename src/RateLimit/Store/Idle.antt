-- ===== src/RateLimit/Store/Idle.antt =====
-- What a cleanup removes, and how a limiter's configuration is chosen.
use cruvero_mcp_gateway.Prelude.{
  ℕ, ◌+◌, ◌≡◌, refl, true, [], ◌∷◌, Option, none, some, arith, if◌then◌else◌, eq_iff, length,
}
use cruvero_mcp_gateway.Prelude.Int.{ℤ, is_pos, to_nat, pos}
use cruvero_mcp_gateway.Prelude.Maps.{Map, lookup}
use cruvero_mcp_gateway.RateLimit.Keys.{LimiterKey, key_eq}
use cruvero_mcp_gateway.Types.{PolicyProfile}
use cruvero_mcp_gateway.RateLimit.Rates.{Rates}
use cruvero_mcp_gateway.RateLimit.Store.{
  Entry, LimiterStore, is_idle, sweep, cleanup, count, limit_for, burst_for, rate_or, burst_or,
}

module _ {rates : Rates} where
  -- The keys of a Go map are distinct.
  abbrev pub Distinct : Map LimiterKey (Entry rates) → Type 0
  Distinct [] = Unit
  Distinct ((k, e) ∷ m) = (lookup k m ≡ none) × Distinct m

  -- An entry that is not idle.
  unfoldable pub fresh : ℕ → ℕ → Option (Entry rates) → Option (Entry rates)
  fresh now max_idle none = none
  fresh now max_idle (some e) = if is_idle rates now max_idle e then none else some e

  lookup-sweep :
      (now max_idle : ℕ) (k : LimiterKey) (m : Map LimiterKey (Entry rates))
      → Distinct m
      → lookup k (sweep rates now max_idle m).0 ≡ fresh now max_idle (lookup k m)
  unfolding sweep lookup fresh
  lookup-sweep now max_idle k [] d = refl
  lookup-sweep now max_idle k ((j, e) ∷ m) d =
      ground (arith, eq_iff j k, lookup-sweep now max_idle k m d.1)

  sweep_counts :
      (now max_idle : ℕ) (m : Map LimiterKey (Entry rates))
      → length (sweep rates now max_idle m).0 + (sweep rates now max_idle m).1 ≡ length m
  unfolding sweep
  sweep_counts now max_idle [] = refl
  sweep_counts now max_idle ((j, e) ∷ m) = ground (arith, sweep_counts now max_idle m)

  -- Of a store where no key has two entries, a cleanup with a positive limit keeps exactly the
  -- entries used within it, as they are, and one with no limit keeps none; the count that it
  -- returns is by how many the store has shrunk.
  cleanup_lem :
      (s : LimiterStore rates) (max_idle : ℤ) (now : ℕ) (k : LimiterKey)
      → Distinct s.limiters
      → (lookup k (cleanup rates s max_idle now).0.limiters
          ≡ (if is_pos max_idle then fresh now (to_nat max_idle) (lookup k s.limiters) else none))
        × (count rates (cleanup rates s max_idle now).0 + (cleanup rates s max_idle now).1
            ≡ count rates s)
  unfolding cleanup count lookup
  cleanup_lem s max_idle now k d = ground (
    arith,
    lookup-sweep now (to_nat max_idle) k s.limiters d,
    sweep_counts now (to_nat max_idle) s.limiters,
  )

  -- Whatever the defaults are and the profile says, a new limiter is made with a positive rate and a
  -- positive burst.
  new_limits_positive :
      (s : LimiterStore rates) (p : Option PolicyProfile)
      → (rates.is_positive (limit_for rates s p) ≡ true) × (is_pos (burst_for rates s p) ≡ true)
  unfolding limit_for burst_for rate_or burst_or
  new_limits_positive s none = ground (arith, rates.of_int_positive (pos 10))
  new_limits_positive s (some p) =
      ground (arith, rates.of_int_positive (pos 10), rates.of_int_positive p.rate_limit)
