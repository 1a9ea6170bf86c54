-- ===== src/Types.antt =====
-- internal/types/types.go: the data that the components exchange. A Go string type with named
-- constants is a data type with a constructor for each constant and one for any other text.
-- Times are nanoseconds; a pointer that may be nil is an `Option`.
use cruvero_mcp_gateway.Prelude.{ℕ, Bool, true, false, List, Option, ◌==◌}
use cruvero_mcp_gateway.Prelude.Texts.{Text, text_eq}
use cruvero_mcp_gateway.Prelude.Int.{ℤ}

pub data ServerStatus : Type 0 where
  pending approved active stale expired : ServerStatus
  other_status : Text → ServerStatus

unfoldable pub is_terminal : ServerStatus → Bool
is_terminal expired = true
is_terminal _ = false

unfoldable pub is_routable : ServerStatus → Bool
is_routable active = true
is_routable _ = false

-- The equality of Go's strings.
abbrev pub same_status : ServerStatus → ServerStatus → Bool
same_status pending pending = true
same_status approved approved = true
same_status active active = true
same_status stale stale = true
same_status expired expired = true
same_status (other_status s) (other_status t) = s == t
same_status _ _ = false

pub data SyncState : Type 0 where
  unacked acked stale_ack : SyncState
  other_sync : Text → SyncState

pub data EnforcementMode : Type 0 where
  enforce audit unset : EnforcementMode
  other_mode : Text → EnforcementMode

pub data RiskLevel : Type 0 where
  read_only write destructive unknown : RiskLevel
  other_level : Text → RiskLevel

pub record Capability : Type 0 where
  pub tools : List Text
  pub resources : List Text
  pub prompts : List Text

pub record ServerRecord : Type 0 where
  pub id : Text
  pub name : Text
  pub spiffe_id : Text
  pub version : Text
  pub host : Text
  pub port : ℤ
  pub protocol : Text
  pub capabilities : Capability
  pub status : ServerStatus
  pub policy_profile : Text
  pub last_heartbeat : Option ℕ
  pub lease_epoch : ℤ
  pub capability_hash : Text
  pub sync_state : SyncState
  pub last_platform_ack_version : Text
  pub last_platform_ack_at : Option ℕ
  pub rate_limit : Option ℤ
  pub rate_burst : Option ℤ
  pub routing_strategy : Text
  pub created_at : ℕ
  pub updated_at : ℕ

pub record PolicyProfile : Type 0 where
  pub name : Text
  pub rate_limit : ℤ
  pub rate_burst : ℤ
  pub tool_allowlist : List Text
  pub tool_denylist : List Text
  pub enforcement_mode : EnforcementMode

pub record ToolClassification : Type 0 where
  pub tool_name : Text
  pub risk_level : RiskLevel
  pub reason : Text
  pub auto_classified : Bool
  pub updated_by : Text
  pub updated_at : ℕ
