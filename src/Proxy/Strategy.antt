-- ===== src/Proxy/Strategy.antt =====
-- The choice among the candidates for a call: the interface of internal/proxy/router.go with its
-- round robin, and the rendezvous hashing of internal/proxy/session_affinity.go.
pub mod Affinity
pub mod RoundRobin
use cruvero_mcp_gateway.Prelude.{
  ℕ, zero, suc, ◌+◌, ◌-◌, ◌%◌, ◌^◌, ◌<◌, ◌≡◌, refl, Bool, true, false, List, [], ◌∷◌, ◌++◌, Option,
  none, some, ltb, if◌then◌else◌, is_empty, length, get_elem?, arith, Result, ok, err,
}
use cruvero_mcp_gateway.Prelude.Texts.{Text}
use cruvero_mcp_gateway.Types.{ServerRecord}

pub record RoutingRequest : Type 0 where
  pub session_id : Text
  pub tool_name : Text

-- A server stands at some position of a list.
abbrev pub Listed : ServerRecord → List ServerRecord → Type 0
Listed s ss = (n : ℕ) × (get_elem? ss n ≡ some s)

-- A strategy with the state it keeps. It chooses one of the candidates.
pub record RoutingStrategy : Type 1 where
  pub State : Type 0
  pub select :
      State → List ServerRecord → RoutingRequest → Result Text (Option ServerRecord) × State
  pub select-Listed :
      (st : State) (ss : List ServerRecord) (req : RoutingRequest) (s : ServerRecord)
      → (select st ss req).0 ≡ ok (some s)
      → Listed s ss

-- The counter is a uint64.
abbrev pub word : ℕ
word = 2 ^ 64

-- The position that `counter.Add(1) - 1` chooses among n + 1 candidates.
unfoldable pub position : ℕ → ℕ → ℕ
position counter n = ((suc counter % word + (word - 1)) % word) % suc n

unfoldable pub round_robin :
    ℕ → List ServerRecord → RoutingRequest → Result Text (Option ServerRecord) × ℕ
unfolding position
round_robin counter [] req = (ok none, counter)
round_robin counter (s ∷ ss) req =
    (ok (get_elem? (s ∷ ss) (position counter (length ss))), suc counter % word)

-- hash/fnv is a parameter: `hash` is Sum64 of what was written.
unfoldable pub hrw_score : (Text → ℕ) → Text → Text → ℕ
hrw_score hash session_id candidate_id = hash (session_id ++ candidate_id)

-- score > bestScore, or no best yet.
unfoldable pub beats : (Text → ℕ) → Option ServerRecord → ServerRecord → Bool
beats score none c = true
beats score (some b) c = ltb (score b.id) (score c.id)

-- The loop of `SessionAffinityStrategy.Select`.
unfoldable pub best_of : (Text → ℕ) → Option ServerRecord → List ServerRecord → Option ServerRecord
unfolding beats
best_of score best [] = best
best_of score best (c ∷ cs) = best_of score (if beats score best c then some c else best) cs

module _ (hash : Text → ℕ) (fallback : RoutingStrategy) where
  unfoldable pub session_affinity :
      fallback.State
      → List ServerRecord
      → RoutingRequest
      → Result Text (Option ServerRecord) × fallback.State
  unfolding best_of hrw_score
  session_affinity st ss req =
      if is_empty ss
      then (ok none, st)
      else if is_empty req.session_id
      then fallback.select st ss req
      else (ok (best_of (hrw_score hash req.session_id) none ss), st)
