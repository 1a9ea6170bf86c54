-- ===== src/Scenarios/Lifecycle.antt =====
-- A registered server sends heartbeats, pushes its tools and falls silent (internal/registration).
use cruvero_mcp_gateway.Prelude.{
  ℕ, ◌≡◌, refl, true, false, List, [], ◌∷◌, Option, none, some, ok, value_or, ◌==◌, if◌then◌else◌,
  any, ◌&&◌, ◌≤◌, arith, Result, nat_eq,
}
use cruvero_mcp_gateway.Prelude.Int.{pos}
use cruvero_mcp_gateway.Prelude.Texts.{Text, codes, text_eq, trim_space}
use cruvero_mcp_gateway.Prelude.Maps.{Map, lookup}
use cruvero_mcp_gateway.Types.{ServerRecord, active}
use cruvero_mcp_gateway.Identity.{Identity, mtls}
use cruvero_mcp_gateway.Policy.Values.{Fields, num, end, field}
use cruvero_mcp_gateway.Registration.Settings.{Settings, update_effective_settings}
use cruvero_mcp_gateway.Registration.Index.Content.{offered, refreshed}
use cruvero_mcp_gateway.Registration.Store.{Table}
use cruvero_mcp_gateway.Registration.Store.Rows.{row_at, read_row, map_row}
use cruvero_mcp_gateway.Registration.Service.{Effect}
use cruvero_mcp_gateway.Registration.Heartbeat.{
  Registry, Moment, ToolLister, HeartbeatRequest, HeartbeatResponse, heartbeat_of,
  refresh_capabilities, no_action,
}
use cruvero_mcp_gateway.Registration.Heartbeat.Ownership.{AgreeBut, heartbeat-AgreeBut}
use cruvero_mcp_gateway.Registration.Heartbeat.Alive.{IsHeard, heartbeat-IsHeard}
use cruvero_mcp_gateway.Registration.Heartbeat.Refresh.{refresh_capabilities-writes_back}
use cruvero_mcp_gateway.Registration.Sweeper.{Sweep, sweep_stale}
use cruvero_mcp_gateway.Registration.Sweeper.Marks.{marked, is_at, is_overdue, row_at-sweep_stale}
use cruvero_mcp_gateway.Registration.Sweeper.Silent.{sweeps, row_at-sweeps}
use cruvero_mcp_gateway.Registration.Subscriber.{RegistrationEvent, handle, refresh_rate_limit}
use cruvero_mcp_gateway.Registration.Subscriber.Replicas.{is_none, offered-handle}
use cruvero_mcp_gateway.Registration.Subscriber.Window.{allowed_for, allowed_for_bounded}
use cruvero_mcp_gateway.Scenarios.Registrations.{caller, registered, settings, outputs, record_of}

abbrev moment : Moment
moment = record {
  now = 9;
  get_fault = none;
  status_fault = none;
  beat_fault = none;
  update_fault = none;
  reread_fault = none;
}

abbrev beat_request : HeartbeatRequest
beat_request = record { registration_id = codes "d1"; lease_epoch = pos 1; capability_hash = [] }

abbrev registry : Registry
registry = record { servers = registered; index = some (record { tools = []; resources = [] }) }

abbrev lister : Option ToolLister
lister = some (λ r. ok (codes "read" ∷ codes "write" ∷ []))

abbrev no_answer : HeartbeatResponse ℕ
no_answer = record {
  server_status = active;
  next_deadline = 0;
  lease_epoch = pos 1;
  sync_state = (record_of []).sync_state;
  action = no_action;
  capability_hash = [];
  config_version = pos 1;
  effective_settings = end;
}

abbrev beaten : HeartbeatResponse ℕ × Registry × List Effect
beaten =
    value_or (no_answer, registry, [])
      (heartbeat_of none settings outputs moment lister (some caller) (codes "d1") beat_request
        registry)

heartbeat-AgreeBut_example :
    (who : Identity) × (row : ServerRecord) × (some caller ≡ some who)
    × (who.kind ≡ mtls)
    × (row_at (codes "d1") registered ≡ some row)
    × (who.id ≡ row.spiffe_id)
    × AgreeBut (codes "d1") registered beaten.1.servers
unfolding heartbeat_of trim_space cruvero_mcp_gateway.Prelude.Texts.text_beq
    cruvero_mcp_gateway.Registration.Service.new_record
heartbeat-AgreeBut_example =
    heartbeat-AgreeBut none settings outputs moment lister (some caller) (codes "d1") beat_request
      registry beaten.1 beaten.0 beaten.2 refl

heartbeat-IsHeard_example :
    (answer : HeartbeatResponse ℕ) × (reg' : Registry) × (effects : List Effect) × (heartbeat_of
        none settings outputs moment lister
        (some caller)
        (codes "d1")
        beat_request
        registry
      ≡ ok (answer, reg', effects))
    × (answer.server_status ≡ active)
    × IsHeard 9 (codes "d1") reg'.servers
unfolding heartbeat_of trim_space row_at cruvero_mcp_gateway.Prelude.Texts.text_beq
    cruvero_mcp_gateway.Registration.Service.new_record
heartbeat-IsHeard_example =
    heartbeat-IsHeard none settings outputs moment lister caller (codes "d1") beat_request registry
      (record_of (codes "d1")) (refl, refl, refl) refl refl refl refl tt refl refl

abbrev renewal : List Text × Registry × List Effect
renewal =
    value_or ([], registry, [])
      (refresh_capabilities outputs moment lister (record_of (codes "d1")) (codes "e") registry)

refresh_capabilities-writes_back_example :
    (x : ServerRecord) × (row_at (codes "d1") renewal.1.servers ≡ some x)
    × (x.status ≡ active)
    × (x.last_heartbeat ≡ none)
    × (x.capabilities.tools ≡ renewal.0)
    × (x.capability_hash ≡ trim_space (codes "e"))
unfolding refresh_capabilities row_at cruvero_mcp_gateway.Prelude.Texts.text_beq
    cruvero_mcp_gateway.Registration.Service.new_record
refresh_capabilities-writes_back_example =
    refresh_capabilities-writes_back outputs moment lister (record_of (codes "d1"))
      (record_of (codes "d1")) (codes "e") registry renewal.1 renewal.0 renewal.2 refl refl

abbrev heard_at : ℕ → Table
heard_at t = record (record_of (codes "d1")) { last_heartbeat = some t } ∷ []

abbrev one_sweep : Sweep
one_sweep = record {
  now = 100;
  stale_fault = none;
  expired_fault = none;
  status_fault = λ id. none;
}

row_at-sweep_stale_example :
    row_at (codes "d1") (sweep_stale outputs one_sweep 30 (heard_at 5)).0 ≡ (
      if any (λ row. is_at (codes "d1") row && is_overdue 100 30 row) (heard_at 5)
      then map_row (marked 100) (row_at (codes "d1") (heard_at 5))
      else row_at (codes "d1") (heard_at 5))
row_at-sweep_stale_example =
    row_at-sweep_stale outputs one_sweep 30 (heard_at 5) (codes "d1") (refl, refl, λ id. refl) refl

row_at-sweeps_example :
    row_at (codes "d1") (sweeps none outputs (one_sweep ∷ one_sweep ∷ []) registry).servers
    ≡ row_at (codes "d1") registered
unfolding any cruvero_mcp_gateway.Prelude.Texts.text_beq
    cruvero_mcp_gateway.Registration.Service.new_record
row_at-sweeps_example =
    row_at-sweeps none outputs (one_sweep ∷ one_sweep ∷ []) registry (codes "d1") refl

abbrev told_settings : Map Text (Fields ℕ)
told_settings = (codes " svc", field (codes "k") (num 3) end) ∷ []

abbrev updated : Settings ℕ
updated = value_or settings (update_effective_settings settings (pos 2) told_settings)

abbrev event : RegistrationEvent
event = record { event_type = codes "registered"; server_id = codes " d1" }

offered-handle_example :
    offered
      (handle none registered (record { tools = []; resources = [] }) (some event))
      (codes "read")
      (codes "d1")
    ≡ (if is_none none && trim_space (codes " d1") == codes "d1"
        then refreshed (some (read_row (record_of (codes "d1")))) (codes "read")
        else offered (record { tools = []; resources = [] }) (codes "read") (codes "d1"))
unfolding cruvero_mcp_gateway.Prelude.Texts.text_beq trim_space row_at
offered-handle_example =
    offered-handle none registered (record { tools = []; resources = [] }) event
      (record_of (codes "d1")) (codes "read") (codes "d1") tt refl refl refl

abbrev pushes : List (ℕ × Text)
pushes = (3, codes "d1") ∷ (4, codes "x") ∷ (5, codes "d1") ∷ []

allowed_for_bounded_example : allowed_for (codes "d1") pushes [] ≤ refresh_rate_limit
unfolding lookup
allowed_for_bounded_example =
    allowed_for_bounded (codes "d1") 3 pushes [] refl
      ((omega arith, omega arith), ((omega arith, omega arith), ((omega arith, omega arith), tt)))
