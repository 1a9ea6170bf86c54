-- ===== src/Resilience/Registry.antt =====
-- internal/resilience/registry.go: the breakers of the servers. A breaker is named by its place in
-- a heap, since callers keep what they were given.
use cruvero_mcp_gateway.Prelude.{
  ℕ, Bool, true, false, List, [], ◌∷◌, ◌++◌, none, some, if◌then◌else◌, length, get_elem?,
}
use cruvero_mcp_gateway.Prelude.Int.{ℤ}
use cruvero_mcp_gateway.Prelude.Texts.{Text, text_eq}
use cruvero_mcp_gateway.Prelude.Maps.{Map, lookup, insert, delete}
use cruvero_mcp_gateway.Resilience.Circuit.{
  CircuitBreaker, CircuitState, open_state, new_circuit_breaker,
}

pub record BreakerRegistry : Type 0 where
  pub breakers : Map Text ℕ
  pub heap : List CircuitBreaker

unfoldable pub new_breaker_registry : BreakerRegistry
new_breaker_registry = record { breakers = []; heap = [] }

-- The second look under the write lock finds what another caller has made in between; here the
-- calls follow one another.
unfoldable pub get_or_create : BreakerRegistry → Text → ℤ → ℤ → ℕ × BreakerRegistry
unfolding new_circuit_breaker
get_or_create r id threshold timeout = elim (lookup id r.breakers) [
  | some place ↦ (place, r)
  | none ↦ (
    length r.heap,
    record {
      breakers = insert id (length r.heap) r.breakers;
      heap = r.heap ++ new_circuit_breaker id threshold timeout ∷ [];
    },
  )
]

unfoldable pub remove : BreakerRegistry → Text → BreakerRegistry
remove r id = record r { breakers = delete id r.breakers }

abbrev pub is_open : CircuitState → Bool
is_open open_state = true
is_open _ = false

-- The loop of `ListOpen`.
unfoldable pub open_of : List CircuitBreaker → Map Text ℕ → List Text
open_of heap [] = []
open_of heap ((id, place) ∷ rest) = elim (get_elem? heap place) [
  | none ↦ open_of heap rest
  | some cb ↦ if is_open cb.state then id ∷ open_of heap rest else open_of heap rest
]

unfoldable pub list_open : BreakerRegistry → List Text
unfolding open_of
list_open r = open_of r.heap r.breakers
