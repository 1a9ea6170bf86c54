-- ===== src/Scenarios/Routes.antt =====
-- A call routed to one of two servers (internal/proxy).
use cruvero_mcp_gateway.Prelude.{
  ℕ, ◌<◌, ◌≡◌, refl, ◌↔◌, true, false, [], ◌∷◌, none, some, ok, length, arith,
}
use cruvero_mcp_gateway.Prelude.Texts.{trim_prefix, Text, text_eq, text_beq, codes, trim_space}
use cruvero_mcp_gateway.Prelude.Maps.{lookup, insert}
use cruvero_mcp_gateway.Prelude.Cuts.{has_char}
use cruvero_mcp_gateway.Types.{is_routable}
use cruvero_mcp_gateway.Registration.Index.{
  CapabilityIndex, new_capability_index, remove_server, add, lookup_tool, servers_at, add_locked,
  add_names, upsert_server,
}
use cruvero_mcp_gateway.Registration.Index.Content.Invariant.{adds, run, step}
use cruvero_mcp_gateway.Proxy.Namespace.{
  NamespaceResolver, always, apply_namespace, resolve_namespace, display_name,
}
use cruvero_mcp_gateway.Proxy.Namespace.RoundTrip.{resolve-apply_namespace}
use cruvero_mcp_gateway.Proxy.Strategy.{RoutingRequest, hrw_score, session_affinity, round_robin}
use cruvero_mcp_gateway.Proxy.Strategy.Affinity.{session_affinity-remove_server}
use cruvero_mcp_gateway.Proxy.Strategy.RoundRobin.{advance, round_robin_strategy, round_robin_fair}
use cruvero_mcp_gateway.Proxy.Router.{
  Router, target, resolve_federated_name, matches_server_hint, is_offered,
}
use cruvero_mcp_gateway.Proxy.Router.Routing.{IsTarget, target_ok}
use cruvero_mcp_gateway.Proxy.Router.Names.{resolve_federated_name-apply_namespace}
use cruvero_mcp_gateway.Proxy.Router.Sessions.{target-Routable}
use cruvero_mcp_gateway.Scenarios.Registry.{one, two, read}

abbrev index : CapabilityIndex
index = record { tools = (read, one ∷ two ∷ []) ∷ []; resources = [] }

abbrev resolver : NamespaceResolver
resolver = record { mode = always; separator = codes "."; index = some index }

abbrev router : Router
router = record {
  index = index;
  strategy = round_robin_strategy;
  limiter = none;
  ns_resolver = some resolver;
}

abbrev session : RoutingRequest
session = record { session_id = codes "s"; tool_name = read }

abbrev hash : Text → ℕ
hash s = length s

resolve-apply_namespace_example :
    (resolve_namespace resolver (apply_namespace resolver read (codes "mcp-k8s"))
      ≡ (display_name (trim_space (codes "mcp-k8s")), trim_space read))
    ↔ (has_char b'.' (display_name (trim_space (codes "mcp-k8s"))) ≡ false)
unfolding display_name trim_space apply_namespace trim_prefix
resolve-apply_namespace_example =
    resolve-apply_namespace resolver b'.' read (codes "mcp-k8s") refl refl refl refl refl refl

resolve_federated_name-apply_namespace_example :
    (resolve_federated_name index (some resolver) (apply_namespace resolver read (codes "mcp-k8s"))
      ≡ (trim_space read, display_name (trim_space (codes "mcp-k8s"))))
    × (matches_server_hint (codes "mcp-k8s") (display_name (trim_space (codes "mcp-k8s"))) ≡ true)
unfolding display_name trim_space apply_namespace has_char is_offered trim_prefix lookup_tool
    servers_at lookup text_beq
resolve_federated_name-apply_namespace_example =
    resolve_federated_name-apply_namespace index resolver b'.' read (codes "mcp-k8s") refl refl refl
      refl refl refl refl refl refl

session_affinity-remove_server_example :
    (session_affinity hash round_robin_strategy 0
      (remove_server (one ∷ two ∷ []) (codes "two"))
      session).0
    ≡ ok (some one)
unfolding session_affinity hrw_score text_beq
session_affinity-remove_server_example =
    session_affinity-remove_server hash round_robin_strategy 0 (one ∷ two ∷ []) session one
      (codes "two") refl refl refl

round_robin_fair_example :
    (k : ℕ) × (k < 2)
    × ((round_robin (advance k (one ∷ two ∷ []) session 7) (one ∷ two ∷ []) session).0
        ≡ ok (some one))
round_robin_fair_example = round_robin_fair 7 0 (one ∷ two ∷ []) session (omega arith) (omega arith)

target_ok_example : IsTarget ℕ router (codes "one" ∷ []) read (one, read)
unfolding target trim_space lookup_tool servers_at lookup round_robin
target_ok_example = target_ok {E = ℕ} router (codes "one" ∷ []) 0 read one read refl

target-Routable_example : is_routable one.status ≡ true
unfolding target trim_space lookup_tool servers_at lookup round_robin run add text_beq step
    add_locked add_names insert new_capability_index upsert_server is_routable
target-Routable_example =
    target-Routable {E = ℕ} {F = ℕ}
      (record router { index = run {E = ℕ} new_capability_index (adds one ∷ []) }) []
      (adds one ∷ []) 0 read one read refl refl
