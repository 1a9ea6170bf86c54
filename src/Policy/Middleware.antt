-- ===== src/Policy/Middleware.antt =====
-- internal/policy/middleware.go: the calls of tools that the engine is asked about. The headers, the
-- logs and the texts of the answers are left out; the engine fails on a nil context alone, which a
-- request never has.
pub mod Enforcement
use cruvero_mcp_gateway.Prelude.{
  ℕ, Bool, true, false, List, [], ◌∷◌, Option, none, some, ◌==◌, if◌then◌else◌, is_empty,
}
use cruvero_mcp_gateway.Prelude.Texts.{Text, text_eq, codes, trim_space}
use cruvero_mcp_gateway.Prelude.Maps.{lookup}
use cruvero_mcp_gateway.Identity.{Identity}
use cruvero_mcp_gateway.Policy.Values.{Fields, ViolationType, Violation, PolicyRequest}
use cruvero_mcp_gateway.Policy.Schema.{Json}
use cruvero_mcp_gateway.Policy.Engine.{Engine, Effect, default_name, evaluate}

-- The JSON envelope of a call.
pub record Envelope (N : Type 0) : Type 0 where
  pub method : Text
  pub name : Text
  pub arguments : Fields N
  pub schema : Text
  pub input_schema : Text

abbrev pub tools_call : Text
tools_call = codes "tools/call"

abbrev pub or_else : Text → Text → Text
or_else fallback s = if is_empty s then fallback else s

unfoldable pub client_of : Option Identity → Text
client_of none = codes "anonymous"
client_of (some id) = or_else (codes "anonymous") (trim_space id.id)

unfoldable pub profile_name_of : Option Identity → Text
unfolding lookup
profile_name_of none = default_name
profile_name_of (some id) = elim (lookup (codes "policy_profile") id.metadata) [
  | none ↦ default_name
  | some name ↦ or_else default_name (trim_space name)
]

-- `parsePolicyRequest` on a decoded envelope.
unfoldable pub parse_policy_request :
    {N : Type 0} → Option Identity → Envelope N → Option (PolicyRequest N)
unfolding client_of profile_name_of
parse_policy_request who envelope =
    if trim_space envelope.method == tools_call
    then some (record {
      tool_name = trim_space envelope.name;
      arguments = envelope.arguments;
      client_id = client_of who;
      profile_name = profile_name_of who;
      schema = or_else envelope.input_schema envelope.schema;
    })
    else none

-- What a body asks the engine for, if anything. `decode` is none where the body is no such object.
unfoldable pub policy_request_of :
    {N : Type 0} → (Text → Option (Envelope N)) → Option Identity → Text → Option (PolicyRequest N)
unfolding parse_policy_request
policy_request_of decode who body =
    if is_empty body
    then none
    else elim (decode body) [ none ↦ none | some envelope ↦ parse_policy_request who envelope ]

-- The next handler is called, or 403 is answered with the violations, and the observer is told of
-- the first of them, if there is one, and of the tool.
pub data Response : Type 0 where
  passed : Response
  denied : List Violation → Option ViolationType → Text → Response

abbrev pub first_kind : List Violation → Option ViolationType
first_kind [] = none
first_kind (v ∷ vs) = some v.kind

module _ {N : Type 0} (j : Json N) where
  -- A request to evaluate.
  unfoldable pub enforce_policy : Engine → PolicyRequest N → ℕ → Response × Engine × List Effect
  unfolding evaluate
  enforce_policy e req now =
      let (decision, e', effects) = evaluate j e req now in
      (
        if decision.allowed
            then passed
            else denied decision.violations (first_kind decision.violations) req.tool_name,
        e',
        effects,
      )

  -- `body` is none where there is none or it does not read.
  unfoldable pub serve :
      (Text → Option (Envelope N))
      → Engine
      → Option Identity
      → Option Text
      → ℕ
      → Response × Engine × List Effect
  unfolding policy_request_of enforce_policy
  serve decode e who none now = (passed, e, [])
  serve decode e who (some body) now = elim (policy_request_of decode who body) [
    | none ↦ (passed, e, [])
    | some req ↦ enforce_policy e req now
  ]
