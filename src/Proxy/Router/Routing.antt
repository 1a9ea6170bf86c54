-- ===== src/Proxy/Router/Routing.antt =====
-- Which servers a call can reach, and which names find their tools.
use cruvero_mcp_gateway.Prelude.{
  zero, suc, ◌≡◌, ◌⊎◌, inl, inr, Bool, true, ◌||◌, List, [], ◌∷◌, Option, none, some, is_empty,
  keep, Result, ok, err, arith, Bool-cases,
}
use cruvero_mcp_gateway.Prelude.Texts.{Text, text_eq, trim_space}
use cruvero_mcp_gateway.Types.{ServerRecord}
use cruvero_mcp_gateway.Registration.Index.{CapabilityIndex, lookup_tool}
use cruvero_mcp_gateway.Proxy.Scope.{check_server_scope}
use cruvero_mcp_gateway.Proxy.Strategy.{RoutingRequest, Listed}
use cruvero_mcp_gateway.Proxy.Router.{
  Limiter, Router, matches_server_hint, filter_candidates_by_server, candidates_for,
  resolve_federated_name, check_server_rate_limit, admit, target,
}

Listed-cons :
    (s x : ServerRecord) (ss : List ServerRecord) → Listed s (x ∷ ss) → (x ≡ s) ⊎ Listed s ss
Listed-cons s x ss (zero, e) = inl (cc e)
Listed-cons s x ss (suc n, e) = inr (n, e)

Listed-keep :
    (p : ServerRecord → Bool) (s : ServerRecord) (ss : List ServerRecord)
    → Listed s (keep p ss)
    → (p s ≡ true) × Listed s ss
unfolding keep
Listed-keep p s [] (n, e) = ground arith
Listed-keep p s (x ∷ xs) (n, e) = elim (Bool-cases (p x)) [
  | inl t ↦ elim (Listed-cons s x (keep p xs) (n, rw t at e)) [
    | inl same ↦ (rw same at t, (0, cc same))
    | inr l ↦ let (h, (m, f)) = Listed-keep p s xs l in (h, (suc m, f))
  ]
  | inr t ↦ let (h, (m, f)) = Listed-keep p s xs (n, rw t at e) in (h, (suc m, f))
]

-- What a server meets that a hint names.
abbrev pub IsHinted : Text → ServerRecord → Type 0
IsHinted hint s =
    (is_empty hint ≡ true)
    ⊎ ((matches_server_hint s.name hint || matches_server_hint s.id hint) ≡ true)

Listed-candidates_for :
    (index : CapabilityIndex) (tool hint : Text) (s : ServerRecord)
    → Listed s (candidates_for index tool hint)
    → Listed s (lookup_tool index tool) × IsHinted hint s
unfolding candidates_for filter_candidates_by_server
Listed-candidates_for index tool hint s l = elim (Bool-cases (is_empty hint)) [
  | inl t ↦ (rw t at l, inl t)
  | inr t ↦
      let (h, m) =
        Listed-keep (λ c. matches_server_hint c.name hint || matches_server_hint c.id hint) s
          (lookup_tool index tool) (rw t at l) in
      (m, inr h)
]

admit_ok :
    {E : Type 0} (limiter : Option Limiter) (scope : List Text) (tool : Text)
    (chosen : Result Text (Option ServerRecord)) (s : ServerRecord) (t : Text)
    → admit {E = E} limiter scope tool chosen ≡ ok (s, t)
    → (chosen ≡ ok (some s))
      × (t ≡ tool)
      × (check_server_scope scope s.name ≡ true)
      × (check_server_rate_limit {E = E} limiter s ≡ none)
unfolding admit
admit_ok limiter scope tool (err message) s t e = ground arith
admit_ok limiter scope tool (ok none) s t e = ground arith
admit_ok limiter scope tool (ok (some x)) s t e = ground arith

module _ (E : Type 0) (r : Router) (scope : List Text) where
  -- What holds of a server that a call is sent to, of the tool asked for there.
  abbrev pub IsTarget : Text → ServerRecord × Text → Type 0
  IsTarget tool_name (s, tool) =
      let (raw, hint) = resolve_federated_name r.index r.ns_resolver (trim_space tool_name) in
      (tool ≡ raw)
      × Listed s (lookup_tool r.index tool)
      × IsHinted hint s
      × (check_server_scope scope s.name ≡ true)
      × (check_server_rate_limit {E = E} r.limiter s ≡ none)

module _ {E : Type 0} (r : Router) (scope : List Text) where
  -- A call that gets past the checks goes to a server that the index lists for the tool, that the
  -- hint in the name fits if there is one, that is in the caller's scope, and whose rate limit lets
  -- the call through.
  pub target_ok :
      (st : r.strategy.State) (tool_name : Text) (s : ServerRecord) (tool : Text)
      → (target {E = E} r scope st tool_name).0 ≡ ok (s, tool)
      → IsTarget E r scope tool_name (s, tool)
  unfolding target
  target_ok st tool_name s tool e =
      let name = trim_space tool_name in
      let (raw, hint) = resolve_federated_name r.index r.ns_resolver name in
      let cs = candidates_for r.index raw hint in
      elim (Bool-cases (is_empty name)) [
        | inl t ↦ cc (rw t at e)
        | inr t ↦ elim (Bool-cases (is_empty cs)) [
          | inl u ↦ cc (rw (t, u) at e)
          | inr u ↦
              let req : RoutingRequest = record { session_id = []; tool_name = name } in
              let (c, q, sc, rl) =
                admit_ok r.limiter scope raw (r.strategy.select st cs req).0 s tool
                  (rw (t, u) at e) in
              let (m, h) =
                Listed-candidates_for r.index raw hint s (r.strategy.select-Listed st cs req s c) in
              (q, rw q m, h, sc, rl)
        ]
      ]
