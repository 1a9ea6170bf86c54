-- ===== src/Registration/Sweeper/Statuses.antt =====
-- internal/registration/sweeper.go: what a sweep leaves of the rows, their statuses aside.
use cruvero_mcp_gateway.Prelude.{
  ℕ, nat_eq, Option-cases, ◌∙◌, ℕ, ◌≡◌, refl, inl, inr, Result-cases, arith, Bool, some, List, [],
  ◌∷◌, any,
}
use cruvero_mcp_gateway.Prelude.Int.{ℤ, pos}
use cruvero_mcp_gateway.Prelude.Texts.{Text, text_eq}
use cruvero_mcp_gateway.Types.{ServerRecord, ServerStatus}
use cruvero_mcp_gateway.Registration.State.{Event, expiry, transition, heartbeat_missed}
use cruvero_mcp_gateway.Registration.Store.{set_rows, Table, update_status}
use cruvero_mcp_gateway.Registration.Store.Overdue.{list_stale, list_expired}
use cruvero_mcp_gateway.Registration.Heartbeat.{Registry}
use cruvero_mcp_gateway.Registration.Service.{Outputs, Effect}
use cruvero_mcp_gateway.Registration.Sweeper.{
  remove_from, Sweep, transition_server, mark_stale, mark_expired, sweep_stale, sweep_expired,
}

any-set_rows :
    (p : ServerRecord → Bool) (id : Text) (f : ServerRecord → ServerRecord) (rows : Table)
    → ((r : ServerRecord) → p (f r) ≡ p r)
    → any p (set_rows id f rows) ≡ any p rows
unfolding any set_rows
any-set_rows p id f [] h = refl
any-set_rows p id f (row ∷ rows) h = ground (arith, any-set_rows p id f rows h, h row)

-- A test that a status update leaves as it is.
abbrev pub IgnoresStatus : (ServerRecord → Bool) → Type 0
IgnoresStatus p =
    (s : ServerStatus) (now : ℕ) (r : ServerRecord)
    → p (record r { status = s; updated_at = now }) ≡ p r

any-transition_server :
    (p : ServerRecord → Bool) (out : Outputs) (m : Sweep) (e : Event) (r : ServerRecord)
    (rows rows' : Table) (told : List Effect)
    → IgnoresStatus p
    → transition_server out m e r rows ≡ some (rows', told)
    → any p rows' ≡ any p rows
unfolding transition_server update_status
any-transition_server p out m e r rows rows' told ignores h =
    elim (Result-cases (transition r.status e)) [
      | inr (x, failed) ↦ ground arith
      | inl (s, moved) ↦ elim (Option-cases (m.status_fault r.id)) [
        | inr (x, failed) ↦ ground arith
        | inl fine ↦
            let mark : ServerRecord → ServerRecord =
              λ row. record row { status = s; updated_at = m.now } in
            let same : rows' ≡ set_rows r.id mark rows = ground arith in
            rw same (any-set_rows p r.id mark rows (ignores s m.now))
      ]
    ]

any-mark_stale :
    (p : ServerRecord → Bool) (out : Outputs) (m : Sweep) (found : List ServerRecord) (rows : Table)
    → IgnoresStatus p
    → any p (mark_stale out m found rows).0 ≡ any p rows
unfolding mark_stale
any-mark_stale p out m [] rows ignores = refl
any-mark_stale p out m (r ∷ rs) rows ignores =
    elim (Option-cases (transition_server out m heartbeat_missed r rows)) [
      | inl e ↦ rw (mark_stale, e) (any-mark_stale p out m rs rows ignores)
      | inr ((rows', told), e) ↦
          let rest = any-mark_stale p out m rs rows' ignores in
          rw (mark_stale, e)
            (rest ∙ any-transition_server p out m heartbeat_missed r rows rows' told ignores e)
    ]

any-mark_expired :
    (p : ServerRecord → Bool) (out : Outputs) (m : Sweep) (found : List ServerRecord)
    (reg : Registry)
    → IgnoresStatus p
    → any p (mark_expired out m found reg).0.servers ≡ any p reg.servers
unfolding mark_expired
any-mark_expired p out m [] reg ignores = refl
any-mark_expired p out m (r ∷ rs) reg ignores =
    elim (Option-cases (transition_server out m expiry r reg.servers)) [
      | inl e ↦ rw (mark_expired, e) (any-mark_expired p out m rs reg ignores)
      | inr ((rows', told), e) ↦
          let rest =
            any-mark_expired p out m rs
              (record { servers = rows'; index = remove_from r.id reg.index }) ignores in
          rw (mark_expired, e)
            (rest ∙ any-transition_server p out m expiry r reg.servers rows' told ignores e)
    ]

pub any-sweep_stale :
    (p : ServerRecord → Bool) (out : Outputs) (m : Sweep) (threshold : ℕ) (rows : Table)
    → IgnoresStatus p
    → any p (sweep_stale out m threshold rows).0 ≡ any p rows
unfolding sweep_stale
any-sweep_stale p out m threshold rows ignores =
    elim (Result-cases (list_stale m.stale_fault m.now (pos threshold) rows)) [
      | inr (e, failed) ↦ rw (sweep_stale, failed) refl
      | inl (found, listed) ↦ rw (sweep_stale, listed) (any-mark_stale p out m found rows ignores)
    ]

pub any-sweep_expired :
    (p : ServerRecord → Bool) (out : Outputs) (m : Sweep) (threshold : ℤ) (reg : Registry)
    → IgnoresStatus p
    → any p (sweep_expired out m threshold reg).0.servers ≡ any p reg.servers
unfolding sweep_expired
any-sweep_expired p out m threshold reg ignores =
    elim (Result-cases (list_expired m.expired_fault m.now threshold reg.servers)) [
      | inr (e, failed) ↦ rw (sweep_expired, failed) refl
      | inl (found, listed) ↦
          rw (sweep_expired, listed) (any-mark_expired p out m found reg ignores)
    ]
