-- ===== src/Proxy/Router/Sessions.antt =====
-- What the choice of the strategy and the state of the index mean for a call.
use mathlib.Core.Path.{subst}
use cruvero_mcp_gateway.Prelude.{
  if◌then◌else◌, ℕ, zero, suc, ◌≡◌, refl, ap, true, false, List, [], ◌∷◌, ok, err, is_empty,
  Bool-cases, inl, inr, All, arith,
}
use cruvero_mcp_gateway.Prelude.Texts.{Text, trim_space}
use cruvero_mcp_gateway.Types.{ServerRecord, is_routable}
use cruvero_mcp_gateway.Registration.Index.{new_capability_index, lookup_tool}
use cruvero_mcp_gateway.Registration.Index.Content.Invariant.{Op, run, Routable, run-new-IsIndex}
use cruvero_mcp_gateway.Registration.Index.Content.Lookups.{lookup_tool-Routable}
use cruvero_mcp_gateway.Proxy.Strategy.{RoutingStrategy, Listed, session_affinity}
use cruvero_mcp_gateway.Proxy.Strategy.Affinity.{affinity_strategy}
use cruvero_mcp_gateway.Proxy.Router.{
  Router, missing_tool_name, candidates_for, resolve_federated_name, admit, target,
}
use cruvero_mcp_gateway.Proxy.Router.Routing.{target_ok}

affinity_without_session :
    (hash : Text → ℕ) (fallback : RoutingStrategy) (st : fallback.State) (ss : List ServerRecord)
    (name : Text)
    → is_empty ss ≡ false
    → session_affinity hash fallback st ss (record { session_id = []; tool_name = name })
      ≡ fallback.select st ss (record { session_id = []; tool_name = name })
unfolding session_affinity
affinity_without_session hash fallback st ss name h = rw h refl

module _ {E : Type 0} (r : Router) (scope : List Text) where
  -- Session affinity never has an effect on a routed call: the server, the tool, the errors and the
  -- state of the strategy are those of its fallback.
  target-affinity_strategy :
      (hash : Text → ℕ) (st : r.strategy.State) (tool_name : Text)
      → target {E = E}
          (record r { strategy = affinity_strategy hash r.strategy })
          scope
          st
          tool_name
        ≡ target {E = E} r scope st tool_name
  unfolding target
  target-affinity_strategy hash st tool_name =
      let name = trim_space tool_name in
      let (raw, hint) = resolve_federated_name r.index r.ns_resolver name in
      let cs = candidates_for r.index raw hint in
      elim (Bool-cases (is_empty cs)) [
        | inl e ↦ rw e refl
        | inr e ↦ rw e (
            ap
              (λ p.
                if is_empty name
                then (err missing_tool_name, st)
                else (admit r.limiter scope raw p.0, p.1))
              (affinity_without_session hash r.strategy st cs name e))
      ]

Listed-All :
    (P : ServerRecord → Type 0) (s : ServerRecord) (ss : List ServerRecord)
    → All P ss
    → Listed s ss
    → P s
Listed-All P s [] a (n, e) = ground arith
Listed-All P s (x ∷ xs) (p, a) (zero, e) = subst P (cc e) p
Listed-All P s (x ∷ xs) (p, a) (suc n, e) = Listed-All P s xs a (n, e)

module _ {E F : Type 0} (r : Router) (scope : List Text) where
  -- With the index that any operations on a new one have led to, a call that gets past the checks
  -- goes to a server that the index holds as active.
  pub target-Routable :
      (os : List (Op F)) (st : r.strategy.State) (tool_name : Text) (s : ServerRecord) (tool : Text)
      → r.index ≡ run new_capability_index os
      → (target {E = E} r scope st tool_name).0 ≡ ok (s, tool)
      → is_routable s.status ≡ true
  target-Routable os st tool_name s tool i e =
      let (q, l, h, c, n) = target_ok r scope st tool_name s tool e in
      let good = lookup_tool-Routable r.index tool (rw i (run-new-IsIndex os)) in
      Listed-All Routable s (lookup_tool r.index tool) good l
