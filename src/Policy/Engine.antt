-- ===== src/Policy/Engine.antt =====
-- internal/policy/engine.go: the decision on a tool call. The stores, the clock and the publisher
-- are parameters; what the engine writes to the audit log and publishes is a list of effects, since
-- a failure of either is only logged. Locks and traces are left out.
pub mod Decisions
pub mod Risk
use cruvero_mcp_gateway.Prelude.{
  ℕ, Bool, true, false, not, ◌&&◌, ◌||◌, List, [], ◌∷◌, ◌++◌, map, Option, none, some, ◌==◌,
  if◌then◌else◌, is_empty, any, Result, ok, err,
}
use cruvero_mcp_gateway.Prelude.Int.{ℤ, pos}
use cruvero_mcp_gateway.Prelude.Texts.{Text, text_eq, codes, trim_space}
use cruvero_mcp_gateway.Prelude.Maps.{Map, lookup, insert}
use cruvero_mcp_gateway.Types.{
  PolicyProfile, ToolClassification, EnforcementMode, enforce, audit, unset, RiskLevel, destructive,
  unknown,
}
use cruvero_mcp_gateway.Policy.Values.{
  PolicyRequest, PolicyDecision, Violation, not_in_allowlist, in_denylist, destructive_tool, high,
  critical,
}
use cruvero_mcp_gateway.Policy.Cache.{ClassificationCache, new_classification_cache, get, set}
use cruvero_mcp_gateway.Policy.Classification.{auto_classify}
use cruvero_mcp_gateway.Policy.Dangerous.{Pattern, check_dangerous}
use cruvero_mcp_gateway.Policy.Schema.{Json, validate_arguments}

-- What the classification store answers for a tool; a nil record is none.
abbrev pub ClassificationStore : Type 0
ClassificationStore = Text → Result Text (Option ToolClassification)

-- A nil pointer in the map of profiles is none. Of the audit store and the publisher only whether
-- they are set matters here.
pub record Engine : Type 0 where
  pub profiles : Map Text (Option PolicyProfile)
  pub dangerous_patterns : List (Option Pattern)
  pub has_audit_store : Bool
  pub classification_store : Option ClassificationStore
  pub classification_cache : Option ClassificationCache
  pub has_publisher : Bool

pub data Effect : Type 0 where
  audited : PolicyDecision → Effect
  published : Text → List Text → Bool → Effect

abbrev pub default_name : Text
default_name = codes "default"

abbrev pub default_profile : PolicyProfile
default_profile = record {
  name = default_name;
  rate_limit = pos 0;
  rate_burst = pos 0;
  tool_allowlist = [];
  tool_denylist = [];
  enforcement_mode = enforce;
}

unfoldable pub copy_profiles :
    Map Text (Option PolicyProfile)
    → Map Text (Option PolicyProfile)
    → Map Text (Option PolicyProfile)
copy_profiles [] copied = copied
copy_profiles ((name, profile) ∷ profiles) copied =
    copy_profiles profiles (insert (trim_space name) profile copied)

unfoldable pub with_default : Map Text (Option PolicyProfile) → Map Text (Option PolicyProfile)
with_default copied = elim (lookup default_name copied) [
  | none ↦ insert default_name (some default_profile) copied
  | some profile ↦ copied
]

unfoldable pub new_engine : Map Text (Option PolicyProfile) → List (Option Pattern) → Bool → Engine
unfolding copy_profiles with_default
new_engine profiles patterns has_audit_store = record {
  profiles = with_default (copy_profiles profiles []);
  dangerous_patterns = patterns;
  has_audit_store = has_audit_store;
  classification_store = none;
  classification_cache = none;
  has_publisher = false;
}

unfoldable pub set_classification_store : Engine → Option ClassificationStore → Engine
unfolding new_classification_cache
set_classification_store e store = record e {
  classification_store = store;
  classification_cache = some (new_classification_cache (pos 300_000_000_000));
}

unfoldable pub replace_profiles : Engine → Map Text (Option PolicyProfile) → Engine
unfolding copy_profiles with_default
replace_profiles e profiles = record e { profiles = with_default (copy_profiles profiles []) }

-- The profile of a name in the map, if its pointer is not nil.
unfoldable pub profile_at : Text → Map Text (Option PolicyProfile) → Option PolicyProfile
profile_at name profiles = elim (lookup name profiles) [ none ↦ none | some profile ↦ profile ]

unfoldable pub profile_or_default : Map Text (Option PolicyProfile) → PolicyProfile
unfolding profile_at
profile_or_default profiles = elim (profile_at default_name profiles) [
  | some profile ↦ profile
  | none ↦ default_profile
]

unfoldable pub resolve_profile : Engine → Text → PolicyProfile
unfolding profile_at profile_or_default
resolve_profile e raw =
    let name = trim_space raw in
    if is_empty name then profile_or_default e.profiles else elim (profile_at name e.profiles) [
      | some profile ↦ profile
      | none ↦ profile_or_default e.profiles
    ]

unfoldable pub cache_get :
    Option ClassificationCache → Text → ℕ → Option ToolClassification × Option ClassificationCache
cache_get none name now = (none, none)
cache_get (some c) name now = let (found, c') = get c name now in (found, some c')

unfoldable pub cache_set :
    Option ClassificationCache → Text → ToolClassification → ℕ → Option ClassificationCache
cache_set none name tc now = none
cache_set (some c) name tc now = some (set c name tc now)

-- What `resolveRiskLevel` does with the store's answer.
unfoldable pub risk_from_store :
    Text
    → Result Text (Option ToolClassification)
    → Option ClassificationCache
    → ℕ
    → RiskLevel × Option ClassificationCache
unfolding cache_set
risk_from_store name (err e) cache now = (unknown, cache)
risk_from_store name (ok none) cache now = ((auto_classify name []).0, cache)
risk_from_store name (ok (some tc)) cache now = (tc.risk_level, cache_set cache name tc now)

-- A cached classification decides; the store's answer does otherwise.
unfoldable pub risk_after :
    Option ToolClassification
    → Text
    → Result Text (Option ToolClassification)
    → Option ClassificationCache
    → ℕ
    → RiskLevel × Option ClassificationCache
unfolding risk_from_store
risk_after (some tc) name fetched cache now = (tc.risk_level, cache)
risk_after none name fetched cache now = risk_from_store name fetched cache now

unfoldable pub resolve_risk_level :
    Text
    → ClassificationStore
    → Option ClassificationCache
    → ℕ
    → RiskLevel × Option ClassificationCache
unfolding cache_get risk_after
resolve_risk_level name store cache now =
    let (found, cache') = cache_get cache name now in risk_after found name (store name) cache' now

-- `contains`: both sides are trimmed.
unfoldable pub contains_trimmed : List Text → Text → Bool
contains_trimmed values expected = any (λ value. trim_space value == trim_space expected) values

unfoldable pub check_lists : PolicyProfile → Text → List Violation
unfolding contains_trimmed
check_lists profile tool_name =
    (if not (is_empty profile.tool_allowlist)
        && not (contains_trimmed profile.tool_allowlist tool_name)
      then record { kind = not_in_allowlist; detail = tool_name; severity = high } ∷ []
      else [])
    ++ (if contains_trimmed profile.tool_denylist tool_name
        then record { kind = in_denylist; detail = tool_name; severity = high } ∷ []
        else [])

abbrev pub is_audit : EnforcementMode → Bool
is_audit audit = true
is_audit _ = false

-- An unset mode enforces.
unfoldable pub effective_mode : EnforcementMode → EnforcementMode
effective_mode unset = enforce
effective_mode mode = mode

unfoldable pub build_decision : List Violation → EnforcementMode → PolicyDecision
build_decision violations mode = record {
  allowed = if is_audit mode && not (is_empty violations) then true else is_empty violations;
  reason =
      if is_empty violations
      then codes "allowed"
      else if is_audit mode
      then codes "policy violations detected (audit mode)"
      else codes "policy violations detected";
  violations = violations;
  enforcement_mode = mode;
}

unfoldable pub audit_effect : Engine → PolicyDecision → List Effect
audit_effect e decision = if e.has_audit_store then audited decision ∷ [] else []

unfoldable pub log_and_publish_decision : Engine → Text → PolicyDecision → List Effect
unfolding audit_effect
log_and_publish_decision e tool_name decision =
    audit_effect e decision
    ++ (if is_empty decision.violations || not e.has_publisher
        then []
        else published tool_name (map (λ v. v.detail) decision.violations) decision.allowed ∷ [])

abbrev pub is_destructive : RiskLevel → Bool
is_destructive destructive = true
is_destructive _ = false

unfoldable pub destructive_decision : Text → PolicyDecision
destructive_decision tool_name = record {
  allowed = false;
  reason = codes "tool classified as destructive";
  violations = record { kind = destructive_tool; detail = tool_name; severity = critical } ∷ [];
  enforcement_mode = enforce;
}

-- The risk of the tool, with no store set: nothing is checked.
unfoldable pub current_risk : Engine → Text → ℕ → Option RiskLevel × Option ClassificationCache
unfolding resolve_risk_level
current_risk e tool_name now = elim e.classification_store [
  | none ↦ (none, e.classification_cache)
  | some store ↦
      let (level, cache) = resolve_risk_level tool_name store e.classification_cache now in
      (some level, cache)
]

unfoldable pub blocks : Option RiskLevel → Bool
blocks none = false
blocks (some level) = is_destructive level

module _ {N : Type 0} (j : Json N) where
  unfoldable pub collect_violations :
      Engine → PolicyProfile → Text → PolicyRequest N → List Violation
  unfolding check_lists
  collect_violations e profile tool_name req =
      check_lists profile tool_name
      ++ (check_dangerous req.arguments e.dangerous_patterns
          ++ validate_arguments j req.arguments req.schema)

  -- The decision on a tool that is not destructive.
  unfoldable pub judge : Engine → PolicyRequest N → PolicyDecision
  unfolding collect_violations build_decision effective_mode resolve_profile
  judge e req =
      let profile = resolve_profile e req.profile_name in
      build_decision (collect_violations e profile (trim_space req.tool_name) req)
        (effective_mode profile.enforcement_mode)

  -- The decision, the engine with its cache as it is now, and the effects.
  unfoldable pub evaluate : Engine → PolicyRequest N → ℕ → PolicyDecision × Engine × List Effect
  unfolding current_risk blocks destructive_decision audit_effect judge log_and_publish_decision
  evaluate e req now =
      let tool_name = trim_space req.tool_name in
      let (risk, cache) = current_risk e tool_name now in
      let e' = record e { classification_cache = cache } in
      if blocks risk
      then (destructive_decision tool_name, e', audit_effect e (destructive_decision tool_name))
      else (judge e req, e', log_and_publish_decision e tool_name (judge e req))
