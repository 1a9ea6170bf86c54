-- ===== src/Policy/Engine/Decisions.antt =====
-- What a decision of the engine means for the tool call.
use cruvero_mcp_gateway.Prelude.{
  ℕ, ◌≡◌, refl, ◌⊎◌, true, false, not, List, [], ◌∷◌, ◌++◌, arith, is_empty, if◌then◌else◌,
}
use cruvero_mcp_gateway.Prelude.Texts.{Text, trim_space}
use cruvero_mcp_gateway.Types.{PolicyProfile}
use cruvero_mcp_gateway.Policy.Values.{PolicyRequest, PolicyDecision, Violation}
use cruvero_mcp_gateway.Policy.Dangerous.{check_dangerous}
use cruvero_mcp_gateway.Policy.Dangerous.Coverage.{some_field, matched, check_dangerous_covers}
use cruvero_mcp_gateway.Policy.Schema.{Json, validate_arguments}
use cruvero_mcp_gateway.Policy.Engine.{
  Engine, Effect, audited, published, resolve_profile, contains_trimmed, check_lists, is_audit,
  effective_mode, build_decision, audit_effect, log_and_publish_decision, destructive_decision,
  current_risk, blocks, collect_violations, judge, evaluate,
}

append_empty :
    (a b c : List Violation) → is_empty (a ++ (b ++ c)) ≡ true → (a ≡ []) × (b ≡ []) × (c ≡ [])
append_empty [] [] [] h = (refl, refl, refl)
append_empty [] [] (x ∷ c) h = cc
append_empty [] (x ∷ b) c h = cc
append_empty (x ∷ a) b c h = cc

check_lists_empty :
    (p : PolicyProfile) (name : Text)
    → check_lists p name ≡ []
    → ((is_empty p.tool_allowlist ≡ true) ⊎ (contains_trimmed p.tool_allowlist name ≡ true))
      × (contains_trimmed p.tool_denylist name ≡ false)
unfolding check_lists
check_lists_empty p name h = ground arith

-- The decisions that the effects write to the audit log.
abbrev pub logged : List Effect → List PolicyDecision
logged [] = []
logged (audited d ∷ es) = d ∷ logged es
logged (published t ds a ∷ es) = logged es

module _ {N : Type 0} (j : Json N) (e : Engine) (req : PolicyRequest N) (now : ℕ) where
  abbrev tool : Text
  tool = trim_space req.tool_name

  abbrev profile : PolicyProfile
  profile = resolve_profile e req.profile_name

  judge_enforced :
      is_audit profile.enforcement_mode ≡ false
      → (judge j e req).allowed ≡ true
      → (check_lists profile tool ≡ [])
        × (check_dangerous req.arguments e.dangerous_patterns ≡ [])
        × (validate_arguments j req.arguments req.schema ≡ [])
  unfolding judge build_decision effective_mode collect_violations
  judge_enforced m a =
      append_empty (check_lists profile tool) (check_dangerous req.arguments e.dangerous_patterns)
        (validate_arguments j req.arguments req.schema) (ground arith)

  evaluate_judged :
      (evaluate j e req now).0.allowed ≡ true
      → (blocks (current_risk e tool now).0 ≡ false) × ((judge j e req).allowed ≡ true)
  unfolding evaluate destructive_decision
  evaluate_judged a = ground arith

  -- Where the resolved profile's mode is not audit, a tool call is allowed only if the tool is not
  -- classified as destructive, is on the profile's allowlist unless that is empty, is not on its
  -- denylist, no text among the arguments matches a dangerous pattern, and the arguments pass the
  -- schema.
  pub evaluate_allowed :
      is_audit profile.enforcement_mode ≡ false
      → (evaluate j e req now).0.allowed ≡ true
      → (blocks (current_risk e tool now).0 ≡ false)
        × ((is_empty profile.tool_allowlist ≡ true)
            ⊎ (contains_trimmed profile.tool_allowlist tool ≡ true))
        × (contains_trimmed profile.tool_denylist tool ≡ false)
        × (some_field (matched e.dangerous_patterns) req.arguments ≡ false)
        × (validate_arguments j req.arguments req.schema ≡ [])
  evaluate_allowed m a =
      let (b, ja) = evaluate_judged a in
      let (l, d, s) = judge_enforced m ja in
      let (al, dl) = check_lists_empty profile tool l in
      (b, al, dl, rw (← check_dangerous_covers req.arguments e.dangerous_patterns, d) refl, s)

  -- In audit mode a tool call is refused only for a destructive tool: any other is allowed, and the
  -- decision still names all its violations.
  evaluate_audit :
      is_audit profile.enforcement_mode ≡ true
      → ((evaluate j e req now).0.allowed ≡ not (blocks (current_risk e tool now).0))
        × ((blocks (current_risk e tool now).0 ≡ true)
            ⊎ ((evaluate j e req now).0.violations ≡ collect_violations j e profile tool req))
  unfolding evaluate destructive_decision judge build_decision effective_mode
  evaluate_audit m = ground arith

  -- With an audit store set, each evaluation logs exactly one decision, the one that it returns;
  -- without one it logs none.
  evaluate_logs :
      logged (evaluate j e req now).2
      ≡ (if e.has_audit_store then (evaluate j e req now).0 ∷ [] else [])
  unfolding evaluate audit_effect log_and_publish_decision
  evaluate_logs = ground arith
