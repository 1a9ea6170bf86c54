-- ===== src/Registration/Heartbeat.antt =====
-- internal/registration/heartbeat.go and refresh.go: a heartbeat of a server, and the refresh of
-- its capabilities. The tool catalogue of the server comes from the proxy, so it is a parameter.
pub mod Alive
pub mod Ownership
pub mod Refresh
use cruvero_mcp_gateway.Prelude.{
  ℕ, ◌+◌, ◌*◌, Bool, false, not, ◌&&◌, ◌||◌, List, [], ◌++◌, Option, none, some, ◌==◌,
  if◌then◌else◌, is_empty, length, Result, ok, err, require, ◌>>=◌, ◌>>◌, map_err,
}
use cruvero_mcp_gateway.Prelude.Int.{ℤ, is_pos}
use cruvero_mcp_gateway.Prelude.Texts.{Text, text_eq, codes, trim_space}
use cruvero_mcp_gateway.Types.{
  ServerRecord, ServerStatus, same_status, SyncState, unacked, other_sync,
}
use cruvero_mcp_gateway.Identity.{Identity, is_mtls}
use cruvero_mcp_gateway.Policy.Values.{Fields}
use cruvero_mcp_gateway.Registration.Config.{Config, heartbeat_interval_seconds}
use cruvero_mcp_gateway.Registration.Settings.{Settings, effective_settings_for_server}
use cruvero_mcp_gateway.Registration.State.{heartbeat, transition}
use cruvero_mcp_gateway.Registration.Index.{CapabilityIndex, refresh_server}
use cruvero_mcp_gateway.Registration.Store.{
  Table, StoreError, Fault, get, update, update_status, update_heartbeat, same_epoch,
}
use cruvero_mcp_gateway.Registration.Service.{
  Outputs, ServiceError, unauthorized, forbidden, missing_id, invalid_transition, store_failed,
  no_dependency, list_failed, Effect, health_changed, broadcast, capabilities_changed, when,
  lookup_error,
}

pub data Action : Type 0 where
  no_action re_register resend_capabilities : Action

-- The status and the metadata are not read.
pub record HeartbeatRequest : Type 0 where
  pub registration_id : Text
  pub lease_epoch : ℤ
  pub capability_hash : Text

pub record HeartbeatResponse (N : Type 0) : Type 0 where
  pub server_status : ServerStatus
  pub next_deadline : ℕ
  pub lease_epoch : ℤ
  pub sync_state : SyncState
  pub action : Action
  pub capability_hash : Text
  pub config_version : ℤ
  pub effective_settings : Fields N

-- What a heartbeat or a refresh changes: the table and the index, where there is one.
pub record Registry : Type 0 where
  pub servers : Table
  pub index : Option CapabilityIndex

-- The clock and the faults of the statements of one call.
pub record Moment : Type 0 where
  pub now : ℕ
  pub get_fault : Fault
  pub status_fault : Fault
  pub beat_fault : Fault
  pub update_fault : Fault
  pub reread_fault : Fault

abbrev pub ToolLister : Type 0
ToolLister = ServerRecord → Result Text (List Text)

unfoldable pub resolve_heartbeat_action : HeartbeatRequest → ServerRecord → Action
resolve_heartbeat_action req r =
    let requested = trim_space req.registration_id in
    if (not (is_empty requested) && not (requested == r.id))
      || (is_pos req.lease_epoch && not (same_epoch req.lease_epoch r.lease_epoch))
    then re_register
    else no_action

unfoldable pub lookup_heartbeat_record :
    Fault → Table → Identity → Text → Result ServiceError ServerRecord
unfolding get
lookup_heartbeat_record f rows who id =
    map_err lookup_error (get f id rows) >>= λ r. require (who.id == r.spiffe_id) forbidden >> ok r

unfoldable pub apply_heartbeat_transition :
    Outputs
    → Moment
    → Text
    → ServerRecord
    → Table
    → Result ServiceError (ServerStatus × Table × List Effect)
unfolding transition update_status
apply_heartbeat_transition out m id r rows = elim (transition r.status heartbeat) [
  | err e ↦ err (invalid_transition e)
  | ok next ↦
      if same_status next r.status
      then ok (next, rows, [])
      else elim (update_status m.status_fault m.now id next rows) [
        | err e ↦ err (store_failed e)
        | ok rows' ↦ ok (
          next,
          rows',
          when out.has_publisher (health_changed r next)
              ++ when out.has_broadcaster (broadcast (codes "status_changed") r.id),
        )
      ]
]

-- The index's answer to a `RefreshServer`, whose failure is only logged.
unfoldable pub reindexed : Fault → Text → Table → CapabilityIndex → CapabilityIndex
unfolding refresh_server get
reindexed f id rows i =
    let found : Result StoreError (Option ServerRecord) = elim (get f id rows) [
      | ok r ↦ ok (some r)
      | err e ↦ err e
    ] in
    elim (refresh_server i id found) [ ok i' ↦ i' | err e ↦ i ]

unfoldable pub refresh_capabilities :
    Outputs
    → Moment
    → Option ToolLister
    → ServerRecord
    → Text
    → Registry
    → Result ServiceError (List Text × Registry × List Effect)
unfolding update reindexed
refresh_capabilities out m lister r hash reg = elim reg.index [
  | none ↦ err no_dependency
  | some i ↦ elim lister [
    | none ↦ err no_dependency
    | some list_tools ↦ elim (list_tools r) [
      | err e ↦ err (list_failed e)
      | ok names ↦
          let renewed = record r {
            capability_hash = hash;
            capabilities = record r.capabilities { tools = names };
          } in
          elim (update m.update_fault m.now reg.servers renewed) [
            | err e ↦ err (store_failed e)
            | ok rows ↦ ok (
              names,
              record {
                servers = rows;
                index = some (reindexed m.reread_fault (trim_space r.id) rows i);
              },
              when out.has_broadcaster (capabilities_changed (trim_space r.id) hash (length names)),
            )
          ]
    ]
  ]
]

-- A refresh that a client pushes: `Service.RefreshCapabilities`.
unfoldable pub push_refresh :
    Outputs
    → Moment
    → Option ToolLister
    → Text
    → Registry
    → Result ServiceError (List Text × Registry × List Effect)
unfolding get refresh_capabilities
push_refresh out m lister id reg = elim (get m.get_fault id reg.servers) [
  | err e ↦ err (store_failed e)
  | ok r ↦ refresh_capabilities out m lister r r.capability_hash reg
]

-- Whether the backend reports another hash than the record's.
unfoldable pub has_other_hash : HeartbeatRequest → ServerRecord → Bool
has_other_hash req r =
    let hash = trim_space req.capability_hash in
    not (is_empty hash) && not (hash == trim_space r.capability_hash)

unfoldable pub refresh_enabled : Option Config → Option ToolLister → Bool
refresh_enabled (some cfg) (some lister) = cfg.capability_refresh_enabled
refresh_enabled _ _ = false

-- The refresh that a heartbeat starts: the hash it answers with, and the registry.
unfoldable pub refresh_after :
    Option Config
    → Outputs
    → Moment
    → Option ToolLister
    → HeartbeatRequest
    → ServerRecord
    → Registry
    → Text × Registry × List Effect
unfolding has_other_hash refresh_enabled refresh_capabilities
refresh_after cfg out m lister req r reg =
    if has_other_hash req r && refresh_enabled cfg lister
    then elim (refresh_capabilities out m lister r (trim_space req.capability_hash) reg) [
      | err e ↦ (r.capability_hash, reg, [])
      | ok (names, reg', told) ↦ (trim_space req.capability_hash, reg', told)
    ]
    else (r.capability_hash, reg, [])

unfoldable pub heartbeat_response :
    {N : Type 0}
    → Option Config
    → Settings N
    → ℕ
    → ServerRecord
    → ServerStatus
    → SyncState
    → Action
    → Text
    → HeartbeatResponse N
unfolding heartbeat_interval_seconds effective_settings_for_server
heartbeat_response cfg settings now r status sync act hash =
    let (version, effective) = effective_settings_for_server settings r.name in
    record {
      server_status = status;
      next_deadline = now + heartbeat_interval_seconds cfg * 1_000_000_000;
      lease_epoch = r.lease_epoch;
      sync_state = sync;
      action = act;
      capability_hash = hash;
      config_version = version;
      effective_settings = effective;
    }

abbrev pub sync_or_unacked : SyncState → SyncState
sync_or_unacked (other_sync []) = unacked
sync_or_unacked s = s

-- The part of a heartbeat that is taken where the server need not register again.
unfoldable pub beat :
    {N : Type 0}
    → Option Config
    → Settings N
    → Outputs
    → Moment
    → Option ToolLister
    → Text
    → HeartbeatRequest
    → ServerRecord
    → Registry
    → Result ServiceError (HeartbeatResponse N × Registry × List Effect)
unfolding apply_heartbeat_transition update_heartbeat refresh_after has_other_hash
    heartbeat_response
beat cfg settings out m lister id req r reg =
    apply_heartbeat_transition out m id r reg.servers >>= λ moved.
    let (next, moved_rows, moved_told) = moved in
    map_err store_failed (update_heartbeat m.beat_fault m.now id moved_rows) >>= λ rows.
    let (hash, reg', told) = refresh_after cfg out m lister req r (record reg { servers = rows }) in
    ok (
      heartbeat_response cfg settings m.now r next (sync_or_unacked r.sync_state)
          (if has_other_hash req r then resend_capabilities else no_action) hash,
      reg',
      moved_told ++ told,
    )

unfoldable pub heartbeat_of :
    {N : Type 0}
    → Option Config
    → Settings N
    → Outputs
    → Moment
    → Option ToolLister
    → Option Identity
    → Text
    → HeartbeatRequest
    → Registry
    → Result ServiceError (HeartbeatResponse N × Registry × List Effect)
unfolding lookup_heartbeat_record resolve_heartbeat_action heartbeat_response beat
heartbeat_of cfg settings out m lister caller id req reg =
    require (not (is_empty (trim_space id))) missing_id >> elim caller [
      | none ↦ err unauthorized
      | some who ↦
          require (is_mtls (some who)) unauthorized
          >> lookup_heartbeat_record m.get_fault reg.servers who id
          >>= λ r. elim (resolve_heartbeat_action req r) [
            | re_register ↦ ok (
              heartbeat_response cfg settings m.now r r.status r.sync_state re_register
                  r.capability_hash,
              reg,
              [],
            )
            | _ ↦ beat cfg settings out m lister id req r reg
          ]
    ]
