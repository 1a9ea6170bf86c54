-- ===== src/Proxy/Router.antt =====
-- internal/proxy/router.go: from the name of a tool to the server that is called. The strategy is
-- the interface of Strategy; what the limiter's backend and the called server answer to this call
-- are parameters. The cache of clients is left out.
pub mod Routing
pub mod Sessions
pub mod Names
use cruvero_mcp_gateway.Prelude.{
  ℕ, Bool, true, false, not, ◌&&◌, ◌||◌, List, [], ◌∷◌, ◌++◌, Option, none, some, ◌==◌,
  if◌then◌else◌, is_empty, keep, Result, ok, err,
}
use cruvero_mcp_gateway.Prelude.Int.{ℤ, pos, is_pos}
use cruvero_mcp_gateway.Prelude.Texts.{
  Text, text_eq, codes, trim_space, trim_prefix, equal_fold, cut,
}
use cruvero_mcp_gateway.Types.{ServerRecord}
use cruvero_mcp_gateway.Registration.Index.{CapabilityIndex, lookup_tool}
use cruvero_mcp_gateway.RateLimit.Keys.{LimiterKey}
use cruvero_mcp_gateway.Proxy.Namespace.{
  NamespaceResolver, NamespaceMode, reject, resolve_namespace,
}
use cruvero_mcp_gateway.Proxy.Scope.{check_server_scope}
use cruvero_mcp_gateway.Proxy.Strategy.{RoutingStrategy, RoutingRequest}

unfoldable pub matches_server_hint : Text → Text → Bool
unfolding equal_fold
matches_server_hint actual hint =
    let a = trim_space actual in equal_fold a hint || equal_fold (trim_prefix a (codes "mcp-")) hint

unfoldable pub filter_candidates_by_server : List ServerRecord → Text → List ServerRecord
unfolding matches_server_hint
filter_candidates_by_server candidates requested =
    keep (λ c. matches_server_hint c.name requested || matches_server_hint c.id requested)
      candidates

-- len(r.index.LookupTool(name)) > 0
unfoldable pub is_offered : CapabilityIndex → Text → Bool
is_offered index name = not (is_empty (lookup_tool index name))

abbrev pub is_reject : NamespaceMode → Bool
is_reject reject = true
is_reject _ = false

-- mcp.<server>.<tool>
unfoldable pub resolve_legacy : Text → Text × Text
resolve_legacy name = elim (cut (codes ".") name) [
  | none ↦ (name, [])
  | some (first, rest) ↦ elim (cut (codes ".") rest) [
    | none ↦ (name, [])
    | some (server, tool) ↦ if first == codes "mcp" then (tool, server) else (name, [])
  ]
]

-- <displayName>.<rawTool>
unfoldable pub resolve_dotted : CapabilityIndex → Text → Text × Text
unfolding resolve_legacy
resolve_dotted index name = elim (cut (codes ".") name) [
  | none ↦ resolve_legacy name
  | some (hint, rest) ↦
      if not (is_empty hint) && is_offered index rest then (rest, hint) else resolve_legacy name
]

unfoldable pub resolve_with : NamespaceResolver → CapabilityIndex → Text → Text × Text
unfolding resolve_dotted is_offered
resolve_with ns index name =
    let (hint, bare) = resolve_namespace ns name in
    if not (is_reject ns.mode)
      && not (is_empty hint)
      && not (is_empty bare)
      && is_offered index bare
    then (bare, hint)
    else resolve_dotted index name

-- The name of the tool at its server, and the hint of the server.
unfoldable pub resolve_federated_name :
    CapabilityIndex → Option NamespaceResolver → Text → Text × Text
unfolding resolve_with resolve_dotted is_offered
resolve_federated_name index resolver name =
    if is_offered index name
    then (name, [])
    else elim resolver [ none ↦ resolve_dotted index name | some ns ↦ resolve_with ns index name ]

pub data RouteError (E : Type 0) : Type 0 where
  missing_tool_name tool_not_found : RouteError E
  strategy_failed limiter_failed : Text → RouteError E
  scope_denied : Text → RouteError E
  rate_limited : Text → ℕ → RouteError E
  backend_failed : E → RouteError E

-- What a limiter's backend answers to a key, a limit and a burst: an error, or whether the request
-- is allowed and how long to wait.
abbrev pub Limiter : Type 0
Limiter = LimiterKey → ℤ → ℤ → Result Text (Bool × ℕ)

abbrev pub server_key : ServerRecord → LimiterKey
server_key s = record { client_id = codes "server:" ++ s.id; route = codes "global" }

-- The burst of a server with a limit.
unfoldable pub burst_of : ServerRecord → ℤ → ℤ
burst_of s limit = elim s.rate_burst [
  | none ↦ limit
  | some burst ↦ if is_pos burst then burst else limit
]

unfoldable pub limited :
    {E : Type 0} → ServerRecord → Result Text (Bool × ℕ) → Option (RouteError E)
limited s (err message) = some (limiter_failed message)
limited s (ok (allowed, wait)) = if allowed then none else some (rate_limited s.id wait)

-- The error, if there is one.
unfoldable pub check_server_rate_limit :
    {E : Type 0} → Option Limiter → ServerRecord → Option (RouteError E)
unfolding limited burst_of
check_server_rate_limit limiter s = elim s.rate_limit [
  | none ↦ none
  | some limit ↦ if not (is_pos limit) then some (rate_limited s.id 0) else elim limiter [
    | none ↦ none
    | some allow ↦ limited s (allow (server_key s) limit (burst_of s limit))
  ]
]

unfoldable pub candidates_for : CapabilityIndex → Text → Text → List ServerRecord
unfolding filter_candidates_by_server
candidates_for index tool hint =
    if is_empty hint
    then lookup_tool index tool
    else filter_candidates_by_server (lookup_tool index tool) hint

-- The checks of a chosen server.
unfoldable pub admit :
    {E : Type 0}
    → Option Limiter
    → List Text
    → Text
    → Result Text (Option ServerRecord)
    → Result (RouteError E) (ServerRecord × Text)
unfolding check_server_rate_limit check_server_scope
admit limiter scope tool (err message) = err (strategy_failed message)
admit limiter scope tool (ok none) = err tool_not_found
admit limiter scope tool (ok (some s)) =
    if not (check_server_scope scope s.name)
    then err (scope_denied s.name)
    else elim (check_server_rate_limit limiter s) [ some e ↦ err e | none ↦ ok (s, tool) ]

pub record Router : Type 1 where
  pub index : CapabilityIndex
  pub strategy : RoutingStrategy
  pub limiter : Option Limiter
  pub ns_resolver : Option NamespaceResolver

module _ {E : Type 0} (r : Router) (scope : List Text) where
  -- `Route` up to the call: the server and the name of the tool there.
  unfoldable pub target :
      r.strategy.State → Text → Result (RouteError E) (ServerRecord × Text) × r.strategy.State
  unfolding admit candidates_for resolve_federated_name
  target st tool_name =
      let name = trim_space tool_name in
      let (tool, hint) = resolve_federated_name r.index r.ns_resolver name in
      let candidates = candidates_for r.index tool hint in
      if is_empty name
      then (err missing_tool_name, st)
      else if is_empty candidates
      then (err tool_not_found, st)
      else let (chosen, st') =
          r.strategy.select st candidates (record { session_id = []; tool_name = name }) in
        (admit r.limiter scope tool chosen, st')

  -- `call` is what the client answers for a server and a tool.
  unfoldable pub answered :
      {R : Type 0}
      → (ServerRecord → Text → Result E R)
      → Result (RouteError E) (ServerRecord × Text)
      → Result (RouteError E) R
  answered call (err e) = err e
  answered call (ok (s, tool)) = elim (call s tool) [
    | err e ↦ err (backend_failed e)
    | ok result ↦ ok result
  ]

  unfoldable pub route :
      {R : Type 0}
      → (ServerRecord → Text → Result E R)
      → r.strategy.State
      → Text
      → Result (RouteError E) R × r.strategy.State
  unfolding target answered
  route call st tool_name = let (found, st') = target st tool_name in (answered call found, st')
