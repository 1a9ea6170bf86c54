-- ===== src/Registration/Service.antt =====
-- internal/registration/service.go: registering, acknowledging and deregistering servers over the
-- table of Store. The clock, the generated ids and the faults of the statements are arguments; what
-- is published, broadcast and audited is a list of effects, since a failure there is only logged.
pub mod Admission
pub mod Epochs
pub mod Manual
use cruvero_mcp_gateway.Prelude.{
  ℕ, suc, ◌+◌, ◌-◌, ◌/◌, ◌^◌, Bool, true, false, not, ◌&&◌, ◌||◌, List, [], ◌∷◌, ◌++◌, Option, none,
  some, leb, ltb, ◌==◌, nat_beq, if◌then◌else◌, is_empty, map, keep, Result, ok, err, require,
  ◌>>=◌, ◌>>◌, map_err,
}
use cruvero_mcp_gateway.Prelude.Int.{ℤ, pos, negsuc, is_pos, to_nat}
use cruvero_mcp_gateway.Prelude.Texts.{Text, text_eq, codes, trim_space, to_lower}
use cruvero_mcp_gateway.Types.{
  ServerRecord, ServerStatus, active, unacked, Capability, PolicyProfile, enforce, SyncState,
}
use cruvero_mcp_gateway.Identity.{
  Identity, Urls, SpiffeError, has_scope, is_mtls, scope_admin, validate_spiffe_id,
}
use cruvero_mcp_gateway.Policy.Values.{Fields}
use cruvero_mcp_gateway.Registration.Config.{
  Config, default_policy_profile, heartbeat_interval_seconds, normalized_listen_protocol,
  next_lease_epoch, hash_capabilities,
}
use cruvero_mcp_gateway.Registration.Settings.{Settings, effective_settings_for_server}
use cruvero_mcp_gateway.Registration.State.{InvalidTransition}
use cruvero_mcp_gateway.Registration.Request.{Ips, RegistrationRequest, RequestError, validate}
use cruvero_mcp_gateway.Registration.Store.{
  Table, StoreError, no_rows, Fault, create, get, get_by_spiffe_id, update, delete,
  acknowledge_registration,
}
use cruvero_mcp_gateway.Registration.Tools.{Classifications, ToolFaults, classify_new_tools}

pub data ServiceError : Type 0 where
  unauthorized forbidden not_found missing_id missing_registration_id bad_epoch : ServiceError
  invalid_request : RequestError → ServiceError
  forbidden_id : SpiffeError → ServiceError
  invalid_transition : InvalidTransition → ServiceError
  store_failed : StoreError → ServiceError
  no_dependency : ServiceError
  list_failed : Text → ServiceError

-- sql.ErrNoRows is ErrNotFound.
abbrev pub lookup_error : StoreError → ServiceError
lookup_error no_rows = not_found
lookup_error e = store_failed e

pub data Effect : Type 0 where
  audited : Text → Text → ServerRecord → Effect
  registered : ServerRecord → Effect
  deregistered : Text → Text → Text → Effect
  health_changed : ServerRecord → ServerStatus → Effect
  broadcast : Text → Text → Effect
  classified : Text → Effect
  capabilities_changed : Text → Text → ℕ → Effect

-- Which of the optional collaborators are set.
pub record Outputs : Type 0 where
  pub has_audit_store : Bool
  pub has_publisher : Bool
  pub has_broadcaster : Bool
  pub has_classification_store : Bool

abbrev pub when : Bool → Effect → List Effect
when true e = e ∷ []
when false e = []

-- What one call of `Register` meets: the clock, the ids that `newUUID` and the database generate,
-- and the faults of its statements.
pub record Meeting : Type 0 where
  pub now : ℕ
  pub new_uuid : Text
  pub db_id : Text
  pub lookup_fault : Fault
  pub write_fault : Fault
  pub tool_faults : ToolFaults

pub record RegistrationResponse (N : Type 0) : Type 0 where
  pub instance_id : Text
  pub lease_epoch : ℤ
  pub capability_hash : Text
  pub sync_state : SyncState
  pub policy_snapshot : PolicyProfile
  pub heartbeat_interval_seconds : ℕ
  pub status : ServerStatus
  pub config_version : ℤ
  pub effective_settings : Fields N

-- The tables that the service writes.
pub record Tables : Type 0 where
  pub servers : Table
  pub classifications : Classifications

unfoldable pub response :
    {N : Type 0} → Option Config → Settings N → ServerRecord → RegistrationResponse N
unfolding default_policy_profile heartbeat_interval_seconds effective_settings_for_server
response cfg settings r =
    let (version, effective) = effective_settings_for_server settings r.name in
    record {
      instance_id = r.id;
      lease_epoch = r.lease_epoch;
      capability_hash = r.capability_hash;
      sync_state = r.sync_state;
      policy_snapshot = default_policy_profile cfg;
      heartbeat_interval_seconds = heartbeat_interval_seconds cfg;
      status = r.status;
      config_version = version;
      effective_settings = effective;
    }

-- `postRegister`
unfoldable pub announce : Outputs → Text → ServerRecord → List Text → List Effect
announce out caller r told =
    when out.has_audit_store (audited (codes "server.registered") caller r)
    ++ when out.has_publisher (registered r)
    ++ when out.has_broadcaster (broadcast (codes "registered") r.id)
    ++ (if out.has_broadcaster then map classified told else [])

-- The record of a first registration.
unfoldable pub new_record :
    (Capability → Text) → Option Config → Meeting → Identity → RegistrationRequest → ServerRecord
unfolding hash_capabilities normalized_listen_protocol default_policy_profile
new_record digest cfg m who req = record {
  id = m.new_uuid;
  name = trim_space req.service_name;
  spiffe_id = who.id;
  version = trim_space req.version;
  host = trim_space req.listen.host;
  port = req.listen.port;
  protocol = normalized_listen_protocol req.listen.protocol;
  capabilities = req.capabilities;
  status = active;
  policy_profile = (default_policy_profile cfg).name;
  last_heartbeat = none;
  lease_epoch = pos 1;
  capability_hash = hash_capabilities digest req.capabilities;
  sync_state = unacked;
  last_platform_ack_version = [];
  last_platform_ack_at = none;
  rate_limit = none;
  rate_burst = none;
  routing_strategy = [];
  created_at = m.now;
  updated_at = m.now;
}

-- The record that `Register` answers with, and the table after its statements.
unfoldable pub save : Meeting → Table → ServerRecord → Result ServiceError (ServerRecord × Table)
unfolding get_by_spiffe_id create update next_lease_epoch
save m rows r = elim (get_by_spiffe_id m.lookup_fault r.spiffe_id rows) [
  | ok existing ↦
      let renewed = record r {
        id = existing.id;
        created_at = existing.created_at;
        lease_epoch = next_lease_epoch existing.lease_epoch;
      } in
      elim (update m.write_fault m.now rows renewed) [
        | ok rows' ↦ ok (renewed, rows')
        | err e ↦ err (store_failed e)
      ]
  | err e ↦ elim e [
    | no_rows ↦ elim (create m.write_fault m.db_id m.now rows r) [
      | ok rows' ↦ ok (r, rows')
      | err f ↦ err (store_failed f)
    ]
    | f ↦ err (store_failed f)
  ]
]

module _ (urls : Urls) (ips : Ips) (digest : Capability → Text) where
  -- The checks before anything is read or written.
  unfoldable pub admit :
      List Text → Option Identity → RegistrationRequest → Result ServiceError Identity
  unfolding validate validate_spiffe_id
  admit allow_list none req = err unauthorized
  admit allow_list (some who) req =
      require (is_mtls (some who)) unauthorized
      >> map_err invalid_request (validate ips req)
      >> map_err forbidden_id (validate_spiffe_id urls who.id allow_list)
      >> ok who

  unfoldable pub register :
      {N : Type 0}
      → Option Config
      → Settings N
      → Outputs
      → List Text
      → Meeting
      → Tables
      → Option Identity
      → RegistrationRequest
      → Result ServiceError (RegistrationResponse N × Tables × List Effect)
  unfolding admit new_record save response announce classify_new_tools
  register cfg settings out allow_list m t caller req = admit allow_list caller req >>= λ who.
      save m t.servers (new_record digest cfg m who req) >>= λ saved.
      let (table, told) =
        if out.has_classification_store
        then classify_new_tools m.tool_faults who.id m.now req.capabilities.tools t.classifications
        else (t.classifications, []) in
      ok (
        response cfg settings saved.0,
        record { servers = saved.1; classifications = table },
        announce out who.id saved.0 told,
      )

-- `AcknowledgeServerRegistration`; a zero time is the clock's.
unfoldable pub acknowledge_server_registration :
    Fault → ℕ → Text → ℤ → Text → Text → Option ℕ → Table → Result ServiceError Table
unfolding acknowledge_registration
acknowledge_server_registration f now id epoch hash version acked_at rows =
    let at : ℕ = elim acked_at [ none ↦ now | some t ↦ t ] in
    require (not (is_empty (trim_space id))) missing_registration_id
    >> require (is_pos epoch) bad_epoch
    >> map_err lookup_error (acknowledge_registration f now id epoch hash version at rows)

-- An administrator, or the server itself.
unfoldable pub may_deregister : Identity → ServerRecord → Bool
unfolding has_scope
may_deregister who r =
    has_scope (some who) scope_admin || (is_mtls (some who) && who.id == r.spiffe_id)

unfoldable pub deregister :
    Outputs
    → Fault
    → Fault
    → Table
    → Option Identity
    → Text
    → Result ServiceError (Table × List Effect)
unfolding get delete may_deregister
deregister out lookup_fault delete_fault rows caller id =
    require (not (is_empty (trim_space id))) missing_id >> elim caller [
      | none ↦ err unauthorized
      | some who ↦ map_err lookup_error (get lookup_fault id rows) >>= λ r.
          require (may_deregister who r) forbidden
          >> map_err store_failed (delete delete_fault id rows)
          >>= λ rows'. ok (
            rows',
            when out.has_audit_store (audited (codes "server.deregistered") who.id r)
                ++ when out.has_publisher (deregistered r.id r.name (codes "deregistered"))
                ++ when out.has_broadcaster (broadcast (codes "deregistered") r.id),
          )
    ]
