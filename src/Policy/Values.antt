-- ===== src/Policy/Values.antt =====
-- Go's `any`, as encoding/json fills it, and the requests and decisions of internal/policy/types.go.
-- `N` stands for float64. A map is its fields in the order in which a `range` loop meets them.
use cruvero_mcp_gateway.Prelude.{Bool, List}
use cruvero_mcp_gateway.Prelude.Texts.{Text}
use cruvero_mcp_gateway.Types.{EnforcementMode}

mutual
  pub data Value (N : Type 0) : Type 0 where
    null : Value N
    bool : Bool → Value N
    num : N → Value N
    str : Text → Value N
    arr : Items N → Value N
    obj : Fields N → Value N

  pub data Items (N : Type 0) : Type 0 where
    nil : Items N
    cons : Value N → Items N → Items N

  pub data Fields (N : Type 0) : Type 0 where
    end : Fields N
    field : Text → Value N → Fields N → Fields N

pub data ViolationType : Type 0 where
  in_denylist dangerous_pattern schema_violation not_in_allowlist destructive_tool : ViolationType

pub data Severity : Type 0 where
  low medium high critical : Severity

-- `detail` is the message, but the name of the tool where the message has it quoted by %q.
pub record Violation : Type 0 where
  pub kind : ViolationType
  pub detail : Text
  pub severity : Severity

pub record PolicyRequest (N : Type 0) : Type 0 where
  pub tool_name : Text
  pub arguments : Fields N
  pub client_id : Text
  pub profile_name : Text
  pub schema : Text

pub record PolicyDecision : Type 0 where
  pub allowed : Bool
  pub reason : Text
  pub violations : List Violation
  pub enforcement_mode : EnforcementMode
