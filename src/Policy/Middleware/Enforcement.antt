-- ===== src/Policy/Middleware/Enforcement.antt =====
-- internal/policy/middleware.go with engine.go: what a call of a tool has when it is passed on.
use mathlib.Core.Path.{subst}
use cruvero_mcp_gateway.Prelude.{
  none, ℕ, ◌≡◌, refl, ◌⊎◌, inl, inr, sym, ap, ◌∙◌, Bool, true, false, [], Option, some, is_empty,
  Bool-cases,
}
use cruvero_mcp_gateway.Prelude.Texts.{text_beq, codes, trim_space_idem, Text, text_eq, trim_space}
use cruvero_mcp_gateway.Identity.{Identity}
use cruvero_mcp_gateway.Identity.Callers.{NamesProfile, no_caller, no_entry, blank_entry, entry}
use cruvero_mcp_gateway.Policy.Values.{PolicyRequest, Fields}
use cruvero_mcp_gateway.Policy.Dangerous.Coverage.{some_field, matched}
use cruvero_mcp_gateway.Policy.Schema.{Json, validate_arguments}
use cruvero_mcp_gateway.Policy.Engine.{
  Engine, resolve_profile, contains_trimmed, is_audit, current_risk, blocks, evaluate,
}
use cruvero_mcp_gateway.Policy.Engine.Decisions.{evaluate_allowed}
use cruvero_mcp_gateway.Policy.Middleware.{
  or_else, client_of, profile_name_of, parse_policy_request, Envelope, Response, passed, denied,
  enforce_policy, policy_request_of, serve,
}

abbrev pub is_passed : Response → Bool
is_passed passed = true
is_passed (denied violations kind tool) = false

-- The profile that a caller is judged by, the one called default where it names none.
pub data IsJudgedBy : Option Identity → Text → Type 0 where
  by_default : {who : Option Identity} → NamesProfile who none → IsJudgedBy who (codes "default")
  by_name :
      {who : Option Identity} {name : Text} → NamesProfile who (some name) → IsJudgedBy who name

-- The schema of a call: `schema`, or `input_schema` where that is missing.
pub data HasSchema {N : Type 0} : Envelope N → Text → Type 0 where
  own_schema : {call : Envelope N} → is_empty call.schema ≡ false → HasSchema call call.schema
  other_schema :
      {call : Envelope N} → is_empty call.schema ≡ true → HasSchema call call.input_schema

-- What the profile, the risk, the patterns and the schema say for a call of a tool.
abbrev pub IsCleared : {N : Type 0} → Json N → Engine → Fields N → Text → Text → ℕ → Text → Type 0
IsCleared j e arguments profile_name schema now tool =
    let profile = resolve_profile e profile_name in
    (blocks (current_risk e tool now).0 ≡ false)
    × ((is_empty profile.tool_allowlist ≡ true)
        ⊎ (contains_trimmed profile.tool_allowlist tool ≡ true))
    × (contains_trimmed profile.tool_denylist tool ≡ false)
    × (some_field (matched e.dangerous_patterns) arguments ≡ false)
    × (validate_arguments j arguments schema ≡ [])

profile_name_of-IsJudgedBy :
    (who : Option Identity) (name : Text) → IsJudgedBy who name → profile_name_of who ≡ name
unfolding profile_name_of
profile_name_of-IsJudgedBy none _ (by_default no_caller) = refl
profile_name_of-IsJudgedBy (some who) _ (by_default (no_entry h)) = rw (profile_name_of, h) refl
profile_name_of-IsJudgedBy (some who) _ (by_default (blank_entry h blank)) =
    rw (profile_name_of, h, blank) refl
profile_name_of-IsJudgedBy (some who) _ (by_name (entry h named)) =
    rw (profile_name_of, h, named) refl
profile_name_of-IsJudgedBy none _ (by_name x) = elim x [ ]

schema_of :
    {N : Type 0} (call : Envelope N) (schema : Text)
    → HasSchema call schema
    → or_else call.input_schema call.schema ≡ schema
schema_of call _ (own_schema h) = rw (h) refl
schema_of call _ (other_schema h) = rw (h) refl

-- The request that the engine judges for a call.
abbrev judged_as : {N : Type 0} → Option Identity → Envelope N → Text → Text → PolicyRequest N
judged_as who call profile_name schema = record {
  tool_name = trim_space call.name;
  arguments = call.arguments;
  client_id = client_of who;
  profile_name = profile_name;
  schema = schema;
}

asks :
    {N : Type 0} (decode : Text → Option (Envelope N)) (who : Option Identity) (body : Text)
    (call : Envelope N) (profile_name schema : Text)
    → is_empty body ≡ false
    → decode body ≡ some call
    → trim_space call.method ≡ codes "tools/call"
    → profile_name_of who ≡ profile_name
    → or_else call.input_schema call.schema ≡ schema
    → policy_request_of decode who body ≡ some (judged_as who call profile_name schema)
unfolding policy_request_of parse_policy_request text_beq
asks decode who body call profile_name schema some_body decoded method by has =
    rw (policy_request_of, some_body, decoded, parse_policy_request, method, by, has) refl

enforce_policy-evaluate :
    {N : Type 0} (j : Json N) (e : Engine) (req : PolicyRequest N) (now : ℕ)
    → is_passed (enforce_policy j e req now).0 ≡ (evaluate j e req now).0.allowed
unfolding enforce_policy
enforce_policy-evaluate j e req now = elim (Bool-cases (evaluate j e req now).0.allowed) [
  | inl h ↦ rw (h) refl
  | inr h ↦ rw (h) refl
]

-- A call of a tool that the body of a request decodes to, from a caller whose profile enforces, is
-- passed on only if the tool's risk does not block it, that profile's lists let the tool through, no
-- dangerous pattern matches an argument, and the arguments have the schema that came with the call.
pub serve-IsCleared :
    {N : Type 0} (j : Json N) (decode : Text → Option (Envelope N)) (e : Engine)
    (who : Option Identity) (body : Text) (call : Envelope N) (profile_name schema : Text) (now : ℕ)
    → is_empty body ≡ false
    → decode body ≡ some call
    → trim_space call.method ≡ codes "tools/call"
    → IsJudgedBy who profile_name
    → HasSchema call schema
    → is_audit (resolve_profile e profile_name).enforcement_mode ≡ false
    → is_passed (serve j decode e who (some body) now).0 ≡ true
    → IsCleared j e call.arguments profile_name schema now (trim_space call.name)
unfolding serve
serve-IsCleared j decode e who body call profile_name schema now some_body decoded method by has
      enforces goes_on =
    let req = judged_as who call profile_name schema in
    let asked =
      asks decode who body call profile_name schema some_body decoded method
        (profile_name_of-IsJudgedBy who profile_name by) (schema_of call schema has) in
    let judged : (serve j decode e who (some body) now).0 ≡ (enforce_policy j e req now).0 =
      rw (serve, asked) refl in
    subst (IsCleared j e call.arguments profile_name schema now) (trim_space_idem call.name) (
      evaluate_allowed j e req now enforces
        (sym (enforce_policy-evaluate j e req now) ∙ ap is_passed (sym judged) ∙ goes_on))
