-- ===== src/Registration/Heartbeat/Alive.antt =====
-- internal/registration/heartbeat.go: a server that sends heartbeats is active.
use cruvero_mcp_gateway.Prelude.{
  [], ◌++◌, ◌∙◌, ℕ, ◌≡◌, refl, inl, inr, arith, true, false, none, some, ok, eq_self, eq_iff,
  Bool-cases, Option, List, is_empty,
}
use cruvero_mcp_gateway.Prelude.Texts.{codes, Text, text_eq, trim_space}
use cruvero_mcp_gateway.Types.{
  pending, approved, stale, ServerRecord, ServerStatus, active, expired, other_status, same_status,
}
use cruvero_mcp_gateway.Identity.{Identity, mtls}
use cruvero_mcp_gateway.Registration.Config.{Config}
use cruvero_mcp_gateway.Registration.Settings.{Settings}
use cruvero_mcp_gateway.Registration.Store.{
  Table, get, update_status, update_heartbeat, query_row, set_rows,
}
use cruvero_mcp_gateway.Registration.Store.Rows.{
  row_at, read_row, row_at-first_row, row_at-set_rows,
}
use cruvero_mcp_gateway.Registration.Service.{when, health_changed, broadcast, Outputs, Effect}
use cruvero_mcp_gateway.Registration.State.{transition, heartbeat}
use cruvero_mcp_gateway.Registration.Heartbeat.{
  sync_or_unacked, Registry, Moment, ToolLister, HeartbeatRequest, HeartbeatResponse, no_action,
  resolve_heartbeat_action, lookup_heartbeat_record, apply_heartbeat_transition, refresh_after,
  beat, heartbeat_of, has_other_hash, heartbeat_response,
}

-- A registration that has not expired.
abbrev pub IsLive : ServerStatus → Type 0
IsLive expired = ⊥
IsLive (other_status s) = ⊥
IsLive _ = Unit

abbrev pub HasNoFault : Moment → Type 0
HasNoFault m = (m.get_fault ≡ none) × (m.status_fault ≡ none) × (m.beat_fault ≡ none)

-- Active, and heard at a time.
abbrev pub IsHeard : ℕ → Text → Table → Type 0
IsHeard now id rows =
    (x : ServerRecord) × (row_at id rows ≡ some x)
    × (x.status ≡ active)
    × (x.last_heartbeat ≡ some now)

transition_of_live : (s : ServerStatus) → IsLive s → transition s heartbeat ≡ ok active
unfolding transition
transition_of_live pending h = refl
transition_of_live approved h = refl
transition_of_live active h = refl
transition_of_live stale h = refl
transition_of_live expired h = absurd h
transition_of_live (other_status t) h = absurd h

same_active : (s : ServerStatus) → same_status active s ≡ true → s ≡ active
same_active s h = ground arith

moved_active :
    (out : Outputs) (m : Moment) (id : Text) (r row : ServerRecord) (rows : Table)
    → m.status_fault ≡ none
    → IsLive r.status
    → row_at id rows ≡ some row
    → row.status ≡ r.status
    → (rows' : Table) × (told : List Effect) × (x : ServerRecord) × (apply_heartbeat_transition out
          m id r rows
        ≡ ok (active, rows', told))
      × (row_at id rows' ≡ some x)
      × (x.status ≡ active)
unfolding apply_heartbeat_transition update_status
moved_active out m id r row rows f live held same =
    let moved = transition_of_live r.status live in
    elim (Bool-cases (same_status active r.status)) [
      | inl e ↦ (
        rows,
        [],
        row,
        rw (apply_heartbeat_transition, moved, e) refl,
        held,
        same ∙ same_active r.status e,
      )
      | inr e ↦
          let mark : ServerRecord → ServerRecord =
            λ x. record x { status = active; updated_at = m.now } in
          (
            set_rows id mark rows,
            when out.has_publisher (health_changed r active)
                ++ when out.has_broadcaster (broadcast (codes "status_changed") r.id),
            mark row,
            rw (apply_heartbeat_transition, moved, e, f) refl,
            ground (arith, row_at-set_rows id id mark rows (λ x h. h), eq_self id),
            refl,
          )
    ]

looked_up :
    (who : Identity) (id : Text) (rows : Table) (row : ServerRecord)
    → row_at id rows ≡ some row
    → who.id ≡ row.spiffe_id
    → lookup_heartbeat_record none rows who id ≡ ok (read_row row)
unfolding lookup_heartbeat_record get query_row
looked_up who id rows row held own =
    ground (arith, row_at-first_row id rows, eq_iff who.id row.spiffe_id)

-- The table after the second statement.
beaten_row :
    (now : ℕ) (id : Text) (rows : Table) (x : ServerRecord)
    → row_at id rows ≡ some x
    → x.status ≡ active
    → IsHeard now id
        (set_rows id (λ r. record r { last_heartbeat = some now; updated_at = now }) rows)
beaten_row now id rows x held is_active = (
  record x { last_heartbeat = some now; updated_at = now },
  ground (
    arith,
    row_at-set_rows id id (λ r. record r { last_heartbeat = some now; updated_at = now }) rows
        (λ x h. h),
    eq_self id,
  ),
  is_active,
  refl,
)

module _ {N : Type 0} (cfg : Option Config) (settings : Settings N) (out : Outputs) (m : Moment)
    (lister : Option ToolLister) (id : Text) (req : HeartbeatRequest) (r : ServerRecord)
    (reg : Registry) where
  heard : Table → Table
  heard rows = set_rows id (λ x. record x { last_heartbeat = some m.now; updated_at = m.now }) rows

  heartbeat_of-beat :
      (who : Identity)
      → is_empty (trim_space id) ≡ false
      → who.kind ≡ mtls
      → lookup_heartbeat_record m.get_fault reg.servers who id ≡ ok r
      → resolve_heartbeat_action req r ≡ no_action
      → heartbeat_of cfg settings out m lister (some who) id req reg
        ≡ beat cfg settings out m lister id req r reg
  unfolding heartbeat_of
  heartbeat_of-beat who named shown found act = rw (named, shown, found) (ground arith)

  beat_known :
      (rows : Table) (told : List Effect)
      → apply_heartbeat_transition out m id r reg.servers ≡ ok (active, rows, told)
      → m.beat_fault ≡ none
      → has_other_hash req r ≡ false
      → (answer : HeartbeatResponse N) × (beat cfg settings out m lister id req r reg
          ≡ ok (answer, record reg { servers = heard rows }, told ++ []))
        × (answer.server_status ≡ active)
  unfolding beat update_heartbeat refresh_after heartbeat_response heard
  beat_known rows told moved f known = (
    heartbeat_response cfg settings m.now r active (sync_or_unacked r.sync_state) no_action
        r.capability_hash,
    rw (moved, f, known) refl,
    refl,
  )

-- A heartbeat with the certificate of a server that has not expired, approved or still pending, with
-- its lease epoch and with the capability hash that the gateway knows, succeeds where no statement
-- fails; the answer says that the server is active, and so does its row, with the time of the
-- heartbeat.
pub heartbeat-IsHeard :
    {N : Type 0} (cfg : Option Config) (settings : Settings N) (out : Outputs) (m : Moment)
    (lister : Option ToolLister) (who : Identity) (id : Text) (req : HeartbeatRequest)
    (reg : Registry) (row : ServerRecord)
    → HasNoFault m
    → is_empty (trim_space id) ≡ false
    → who.kind ≡ mtls
    → row_at id reg.servers ≡ some row
    → who.id ≡ row.spiffe_id
    → IsLive row.status
    → resolve_heartbeat_action req (read_row row) ≡ no_action
    → has_other_hash req (read_row row) ≡ false
    → (answer : HeartbeatResponse N) × (reg' : Registry) × (told : List Effect) × (heartbeat_of cfg
          settings out m lister
          (some who)
          id
          req
          reg
        ≡ ok (answer, reg', told))
      × (answer.server_status ≡ active)
      × IsHeard m.now id reg'.servers
unfolding heard
heartbeat-IsHeard cfg settings out m lister who id req reg row faults named shown held own live act
      known =
    let r = read_row row in
    let (rows, told, x, moved, at, is_active) =
      moved_active out m id r row reg.servers faults.1 live held refl in
    let found = looked_up who id reg.servers row held own in
    let (answer, done, says) =
      beat_known cfg settings out m lister id req r reg rows told moved faults.2 known in
    (
      answer,
      record reg { servers = heard cfg settings out m lister id req r reg rows },
      told ++ [],
      heartbeat_of-beat cfg settings out m lister id req r reg who named shown (rw faults.0 found)
            act
          ∙ done,
      says,
      beaten_row m.now id rows x at is_active,
    )
