-- ===== src/Scenarios/Decisions.antt =====
-- A gateway with one profile, one pattern and two classified tools (internal/policy).
use cruvero_mcp_gateway.Prelude.{
  any, ◌≡◌, refl, true, false, [], ◌∷◌, none, some, ℕ, ◌==◌, if◌then◌else◌, ◌⊎◌, is_empty, not, ok,
  err, nat_beq, arith,
}
use cruvero_mcp_gateway.Prelude.Int.{pos}
use cruvero_mcp_gateway.Prelude.Texts.{
  to_lower, Text, codes, text_eq, text_beq, trim_space, contains_text,
}
use cruvero_mcp_gateway.Prelude.Maps.{lookup}
use cruvero_mcp_gateway.Types.{
  PolicyProfile, EnforcementMode, enforce, ToolClassification, destructive,
}
use cruvero_mcp_gateway.Policy.Values.{Fields, str, field, end, PolicyRequest}
use cruvero_mcp_gateway.Policy.Audit.{sanitize_for_audit, is_sensitive_key, normal_key}
use cruvero_mcp_gateway.Policy.Audit.Secrecy.{
  sanitize_for_audit_hides, hidden, same, both_field, both_end,
}
use cruvero_mcp_gateway.Policy.Cache.{ClassificationCache, get}
use cruvero_mcp_gateway.Policy.Cache.Coherence.{IsCoherent}
use cruvero_mcp_gateway.Policy.Classification.{auto_classify}
use cruvero_mcp_gateway.Policy.Dangerous.{Pattern, check_dangerous}
use cruvero_mcp_gateway.Policy.Dangerous.Coverage.{check_dangerous_covers, some_field, matched}
use cruvero_mcp_gateway.Policy.Schema.{Json, validate_arguments}
use cruvero_mcp_gateway.Policy.Engine.{
  Engine, ClassificationStore, evaluate, resolve_profile, current_risk, blocks, contains_trimmed,
}
use cruvero_mcp_gateway.Policy.Engine.Risk.{answer, evaluate_destructive}
use cruvero_mcp_gateway.Policy.Engine.Decisions.{evaluate_allowed}
use cruvero_mcp_gateway.Identity.Callers.{no_caller}
use cruvero_mcp_gateway.Policy.Middleware.{Envelope, serve}
use cruvero_mcp_gateway.Policy.Middleware.Enforcement.{
  by_default, other_schema, IsCleared, serve-IsCleared,
}

-- No schema parses here, and the numbers are natural.
abbrev no_schema : Json ℕ
no_schema = record {
  is_whole = λ n. true;
  equal = nat_beq;
  deep_equal = λ v w. false;
  unmarshal = λ s. err s;
}

abbrev tool : Text
tool = codes "wipe"

abbrev classified : ToolClassification
classified = record {
  tool_name = tool;
  risk_level = destructive;
  reason = [];
  auto_classified = false;
  updated_by = [];
  updated_at = 0;
}

-- Only `wipe` is classified.
abbrev store : ClassificationStore
store name = ok (if name == tool then some classified else none)

abbrev cache : ClassificationCache
cache = record { entries = []; ttl = 60 }

abbrev shouting : Pattern
shouting = record { source = codes "!"; matches = λ s. contains_text s (codes "!") }

abbrev profile_of : EnforcementMode → PolicyProfile
profile_of mode = record {
  name = codes "default";
  rate_limit = pos 0;
  rate_burst = pos 0;
  tool_allowlist = [];
  tool_denylist = codes "drop" ∷ [];
  enforcement_mode = mode;
}

abbrev engine_of : EnforcementMode → Engine
engine_of mode = record {
  profiles = (codes "default", some (profile_of mode)) ∷ [];
  dangerous_patterns = some shouting ∷ none ∷ [];
  has_audit_store = true;
  classification_store = some store;
  classification_cache = some cache;
  has_publisher = true;
}

abbrev args : Text → Fields ℕ
args password = field (codes "Password") (str password) (field (codes "q") (str (codes "hi")) end)

abbrev request_of : Text → PolicyRequest ℕ
request_of name = record {
  tool_name = name;
  arguments = args (codes "x");
  client_id = codes "alice";
  profile_name = [];
  schema = [];
}

cache-IsCoherent : IsCoherent (answer store) cache
unfolding lookup
cache-IsCoherent = record { agrees = λ name e h. ground arith }

evaluate_destructive_example :
    (evaluate no_schema (engine_of enforce) (request_of tool) 5).0.allowed ≡ false
unfolding trim_space text_beq
evaluate_destructive_example =
    evaluate_destructive no_schema (engine_of enforce) (request_of tool) 5 store cache classified
      refl refl cache-IsCoherent refl refl

evaluate_allowed_example :
    (blocks (current_risk (engine_of enforce) (trim_space (codes "list")) 5).0 ≡ false)
    × ((is_empty (resolve_profile (engine_of enforce) []).tool_allowlist ≡ true)
        ⊎ (contains_trimmed
              (resolve_profile (engine_of enforce) []).tool_allowlist
              (trim_space (codes "list"))
            ≡ true))
    × (contains_trimmed
          (resolve_profile (engine_of enforce) []).tool_denylist
          (trim_space (codes "list"))
        ≡ false)
    × (some_field (matched (engine_of enforce).dangerous_patterns) (args (codes "x")) ≡ false)
    × (validate_arguments no_schema (args (codes "x")) [] ≡ [])
unfolding evaluate resolve_profile lookup trim_space text_beq get auto_classify any check_dangerous
    contains_text validate_arguments
evaluate_allowed_example =
    evaluate_allowed no_schema (engine_of enforce) (request_of (codes "list")) 5 refl refl

sanitize_for_audit_hides_example :
    sanitize_for_audit (args (codes "a")) ≡ sanitize_for_audit (args (codes "b"))
unfolding is_sensitive_key normal_key trim_space to_lower contains_text
sanitize_for_audit_hides_example =
    sanitize_for_audit_hides (args (codes "a")) (args (codes "b"))
      (both_field (hidden refl) (both_field same both_end))

check_dangerous_covers_example :
    not (is_empty (check_dangerous (args (codes "x!")) (some shouting ∷ none ∷ [])))
    ≡ some_field (matched (some shouting ∷ none ∷ [])) (args (codes "x!"))
check_dangerous_covers_example =
    check_dangerous_covers (args (codes "x!")) (some shouting ∷ none ∷ [])

-- The call of `list` as the body of a request, and the schema that it brings.
abbrev call : Envelope ℕ
call = record {
  method = codes " tools/call";
  name = codes "list ";
  arguments = args (codes "x");
  schema = [];
  input_schema = [];
}

serve-IsCleared_example :
    IsCleared no_schema
      (engine_of enforce)
      (args (codes "x"))
      (codes "default")
      []
      5
      (trim_space (codes "list "))
unfolding evaluate serve text_beq trim_space get auto_classify any check_dangerous contains_text
    validate_arguments
serve-IsCleared_example =
    serve-IsCleared no_schema (λ s. some call) (engine_of enforce) none (codes "{}") call
      (codes "default") [] 5 refl refl refl (by_default no_caller) (other_schema refl) refl refl
