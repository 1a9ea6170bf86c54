-- ===== src/Registration/Heartbeat/Ownership.antt =====
-- internal/registration/heartbeat.go: a heartbeat changes the row of the server that sent it.
use cruvero_mcp_gateway.Prelude.{
  ap, ◌∙◌, ◌⊎◌, ◌≡◌, refl, inl, inr, Result-cases, arith, ◌==◌, false, none, some, ok, eq_iff,
  Bool-cases, ◌&&◌, Option, List, sym, ◌∙◌,
}
use cruvero_mcp_gateway.Prelude.Texts.{Text, text_eq, trim_space}
use cruvero_mcp_gateway.Types.{ServerRecord, ServerStatus}
use cruvero_mcp_gateway.Identity.{Identity, mtls}
use cruvero_mcp_gateway.Registration.Config.{Config}
use cruvero_mcp_gateway.Registration.Settings.{Settings}
use cruvero_mcp_gateway.Registration.Store.{Table, get, update_status, update_heartbeat}
use cruvero_mcp_gateway.Registration.Store.Rows.{
  row_at, row_at_id, read_row, get_row, row_at-update_status, row_at-update_heartbeat,
}
use cruvero_mcp_gateway.Registration.Service.{Outputs, Effect}
use cruvero_mcp_gateway.Registration.State.{transition, heartbeat}
use cruvero_mcp_gateway.Registration.Heartbeat.Refresh.{row_at-refresh_capabilities}
use cruvero_mcp_gateway.Registration.Heartbeat.{
  no_action, resend_capabilities, Registry, Moment, ToolLister, HeartbeatRequest, HeartbeatResponse,
  Action, re_register, resolve_heartbeat_action, lookup_heartbeat_record,
  apply_heartbeat_transition, refresh_capabilities, refresh_after, beat, heartbeat_of,
  has_other_hash, refresh_enabled, Fault,
}

-- The tables agree on every id but one.
abbrev pub AgreeBut : Text → Table → Table → Type 0
AgreeBut id rows rows' = (k : Text) → (k == id) ≡ false → row_at k rows' ≡ row_at k rows

apply_heartbeat_transition-AgreeBut :
    (out : Outputs) (m : Moment) (id : Text) (r : ServerRecord) (rows rows' : Table)
    (next : ServerStatus) (told : List Effect)
    → apply_heartbeat_transition out m id r rows ≡ ok (next, rows', told)
    → AgreeBut id rows rows'
unfolding apply_heartbeat_transition
apply_heartbeat_transition-AgreeBut out m id r rows rows' next told h k other =
    elim (Result-cases (transition r.status heartbeat)) [
      | inr (e, failed) ↦ ground arith
      | inl (s, moved) ↦ elim (Result-cases (update_status m.status_fault m.now id s rows)) [
        | inr (e, failed) ↦ ground arith
        | inl (t, written) ↦
            ground (arith, row_at-update_status m.status_fault m.now id s rows t k written)
      ]
    ]

refresh_after-AgreeBut :
    (cfg : Option Config) (out : Outputs) (m : Moment) (lister : Option ToolLister)
    (req : HeartbeatRequest) (r : ServerRecord) (reg : Registry)
    → AgreeBut r.id reg.servers (refresh_after cfg out m lister req r reg).1.servers
unfolding refresh_after
refresh_after-AgreeBut cfg out m lister req r reg k other =
    elim (Bool-cases (has_other_hash req r && refresh_enabled cfg lister)) [
      | inr e ↦ rw e refl
      | inl e ↦
          elim (Result-cases
            (refresh_capabilities out m lister r (trim_space req.capability_hash) reg)) [
              | inr (x, failed) ↦ rw (e, failed) refl
              | inl ((names, reg', told), done) ↦
                  rw (e, done) ground
                    (
                      arith,
                      row_at-refresh_capabilities out m lister r (trim_space req.capability_hash)
                          reg reg' names told k done,
                    )
            ]
    ]

beat-AgreeBut :
    {N : Type 0} (cfg : Option Config) (settings : Settings N) (out : Outputs) (m : Moment)
    (lister : Option ToolLister) (id : Text) (req : HeartbeatRequest) (r : ServerRecord)
    (reg reg' : Registry) (answer : HeartbeatResponse N) (told : List Effect)
    → r.id ≡ id
    → beat cfg settings out m lister id req r reg ≡ ok (answer, reg', told)
    → AgreeBut id reg.servers reg'.servers
unfolding beat
beat-AgreeBut cfg settings out m lister id req r reg reg' answer told same h k other =
    elim (Result-cases (apply_heartbeat_transition out m id r reg.servers)) [
      | inr (e, failed) ↦ ground arith
      | inl ((next, moved, t), done) ↦
          elim (Result-cases (update_heartbeat m.beat_fault m.now id moved)) [
            | inr (e, failed) ↦ ground arith
            | inl (rows, beaten) ↦
                let final : (refresh_after cfg out m lister req r (record reg { servers = rows })).1
                    ≡ reg' =
                  ground arith in
                let by_refresh : row_at k reg'.servers ≡ row_at k rows = rw (sym final) (
                  refresh_after-AgreeBut cfg out m lister req r (record reg { servers = rows }) k
                    (rw same other)) in
                let by_beat = row_at-update_heartbeat m.beat_fault m.now id moved rows k beaten in
                let by_move =
                  apply_heartbeat_transition-AgreeBut out m id r reg.servers moved next t done k
                    other in
                ground arith
          ]
    ]

Action-cases : (a : Action) → (a ≡ re_register) ⊎ (a ≡ no_action) ⊎ (a ≡ resend_capabilities)
Action-cases re_register = inl refl
Action-cases no_action = inr (inl refl)
Action-cases resend_capabilities = inr (inr refl)

lookup_heartbeat_record-row :
    (f : Fault) (rows : Table) (who : Identity) (id : Text) (r : ServerRecord)
    → lookup_heartbeat_record f rows who id ≡ ok r
    → (row : ServerRecord) × (row_at id rows ≡ some row)
      × (who.id ≡ row.spiffe_id)
      × (r ≡ read_row row)
unfolding lookup_heartbeat_record
lookup_heartbeat_record-row f rows who id r h = elim (Result-cases (get f id rows)) [
  | inr (e, failed) ↦ ground arith
  | inl (r', found) ↦
      let (row, held, same) = get_row f id rows r' found in
      let own : who.id ≡ r'.spiffe_id = ground (arith, eq_iff who.id r'.spiffe_id) in
      let here : r ≡ r' = ground (arith, eq_iff who.id r'.spiffe_id) in
      (row, held, own ∙ ap (λ x. x.spiffe_id) same, here ∙ same)
]

-- A heartbeat that is answered without an error comes from a caller with a client certificate, whose
-- SPIFFE id is that of the row with the id; every other row of the table is as it was.
pub heartbeat-AgreeBut :
    {N : Type 0} (cfg : Option Config) (settings : Settings N) (out : Outputs) (m : Moment)
    (lister : Option ToolLister) (caller : Option Identity) (id : Text) (req : HeartbeatRequest)
    (reg reg' : Registry) (answer : HeartbeatResponse N) (told : List Effect)
    → heartbeat_of cfg settings out m lister caller id req reg ≡ ok (answer, reg', told)
    → (who : Identity) × (row : ServerRecord) × (caller ≡ some who)
      × (who.kind ≡ mtls)
      × (row_at id reg.servers ≡ some row)
      × (who.id ≡ row.spiffe_id)
      × AgreeBut id reg.servers reg'.servers
unfolding heartbeat_of
heartbeat-AgreeBut cfg settings out m lister none id req reg reg' answer told h = ground arith
heartbeat-AgreeBut cfg settings out m lister (some who) id req reg reg' answer told h =
    elim (Result-cases (lookup_heartbeat_record m.get_fault reg.servers who id)) [
      | inr (e, failed) ↦ ground arith
      | inl (r, found) ↦
          let shown : who.kind ≡ mtls = ground arith in
          let (row, held, own, same) =
            lookup_heartbeat_record-row m.get_fault reg.servers who id r found in
          (
            who,
            row,
            refl,
            shown,
            held,
            own,
            elim (Action-cases (resolve_heartbeat_action req r)) [
              | inl e ↦ λ k other. ground arith
              | inr e ↦
                  let beaten : beat cfg settings out m lister id req r reg
                      ≡ ok (answer, reg', told) =
                    elim e [ inl e' ↦ ground arith | inr e' ↦ ground arith ] in
                  beat-AgreeBut cfg settings out m lister id req r reg reg' answer told
                    (rw same (row_at_id id reg.servers row held)) beaten
            ],
          )
    ]
