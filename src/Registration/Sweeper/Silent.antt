-- ===== src/Registration/Sweeper/Silent.antt =====
-- internal/registration/sweeper.go: the servers that no sweep touches.
use cruvero_mcp_gateway.Registration.Config.{Config}
use cruvero_mcp_gateway.Prelude.{
  ℕ, ◌*◌, nat_eq, Option-cases, ◌∙◌, ℕ, ◌≡◌, refl, sym, inl, inr, Result-cases, arith, ◌==◌, Bool,
  true, false, none, some, ok, eq_iff, ◌&&◌, List, [], ◌∷◌, any, keep, Option,
}
use cruvero_mcp_gateway.Prelude.Int.{ℤ, pos, negsuc}
use cruvero_mcp_gateway.Prelude.Texts.{Text, text_eq}
use cruvero_mcp_gateway.Types.{ServerRecord}
use cruvero_mcp_gateway.Registration.State.{Event, expiry, transition, heartbeat_missed}
use cruvero_mcp_gateway.Registration.Store.{Table, update_status}
use cruvero_mcp_gateway.Registration.Store.Rows.{row_at, row_at-update_status}
use cruvero_mcp_gateway.Registration.Store.Overdue.{
  is_older, is_active, is_active_or_stale, by_heartbeat, list_stale, list_expired,
}
use cruvero_mcp_gateway.Registration.Heartbeat.{Registry}
use cruvero_mcp_gateway.Registration.Service.{Outputs, Effect}
use cruvero_mcp_gateway.Registration.Sweeper.{
  int64, sweep, interval, remove_from, Sweep, transition_server, mark_stale, mark_expired,
  sweep_stale, sweep_expired,
}
use cruvero_mcp_gateway.Registration.Sweeper.Marks.{is_at, any-keep, any-by_heartbeat}
use cruvero_mcp_gateway.Registration.Sweeper.Statuses.{
  IgnoresStatus, any-sweep_stale, any-sweep_expired,
}

-- A status update of one server leaves the others.
transition_server_other :
    (out : Outputs) (m : Sweep) (e : Event) (r : ServerRecord) (rows rows' : Table)
    (told : List Effect) (k : Text)
    → transition_server out m e r rows ≡ some (rows', told)
    → (r.id == k) ≡ false
    → row_at k rows' ≡ row_at k rows
unfolding transition_server
transition_server_other out m e r rows rows' told k h other =
    elim (Result-cases (transition r.status e)) [
      | inr (x, failed) ↦ ground arith
      | inl (s, moved) ↦
          elim (Result-cases (update_status (m.status_fault r.id) m.now r.id s rows)) [
            | inr (x, failed) ↦ ground arith
            | inl (t, written) ↦ ground (
              arith,
              row_at-update_status (m.status_fault r.id) m.now r.id s rows t k written,
              eq_iff r.id k,
              eq_iff k r.id,
            )
          ]
    ]

mark_stale_other :
    (out : Outputs) (m : Sweep) (k : Text) (found : List ServerRecord) (rows : Table)
    → any (is_at k) found ≡ false
    → row_at k (mark_stale out m found rows).0 ≡ row_at k rows
unfolding mark_stale any
mark_stale_other out m k [] rows h = refl
mark_stale_other out m k (r ∷ rs) rows h =
    elim (Option-cases (transition_server out m heartbeat_missed r rows)) [
      | inl e ↦ rw (mark_stale, e) (mark_stale_other out m k rs rows (ground arith))
      | inr ((rows', told), e) ↦
          let before =
            transition_server_other out m heartbeat_missed r rows rows' told k e (ground arith) in
          let rest = mark_stale_other out m k rs rows' (ground arith) in
          rw (mark_stale, e) (rest ∙ before)
    ]

mark_expired_other :
    (out : Outputs) (m : Sweep) (k : Text) (found : List ServerRecord) (reg : Registry)
    → any (is_at k) found ≡ false
    → row_at k (mark_expired out m found reg).0.servers ≡ row_at k reg.servers
unfolding mark_expired any
mark_expired_other out m k [] reg h = refl
mark_expired_other out m k (r ∷ rs) reg h =
    elim (Option-cases (transition_server out m expiry r reg.servers)) [
      | inl e ↦ rw (mark_expired, e) (mark_expired_other out m k rs reg (ground arith))
      | inr ((rows', told), e) ↦
          let before =
            transition_server_other out m expiry r reg.servers rows' told k e (ground arith) in
          let rest =
            mark_expired_other out m k rs
              (record { servers = rows'; index = remove_from r.id reg.index }) (ground arith) in
          rw (mark_expired, e) (rest ∙ before)
    ]

abbrev pub was_heard : ServerRecord → Bool
was_heard row = elim row.last_heartbeat [ none ↦ false | some t ↦ true ]

none_unheard :
    (now age : ℕ) (k : Text) (rows : Table) (p : ServerRecord → Bool)
    → any (λ row. is_at k row && was_heard row) rows ≡ false
    → any (λ row. is_at k row && (is_older now age row && p row)) rows ≡ false
unfolding any is_older
none_unheard now age k [] p h = refl
none_unheard now age k (row ∷ rows) p h = ground (arith, none_unheard now age k rows p)

list_stale_unheard :
    (m : Sweep) (threshold : ℤ) (rows : Table) (k : Text) (found : Table)
    → any (λ row. is_at k row && was_heard row) rows ≡ false
    → list_stale m.stale_fault m.now threshold rows ≡ ok found
    → any (is_at k) found ≡ false
unfolding list_stale
list_stale_unheard m (negsuc n) rows k found h listed = ground arith
list_stale_unheard m (pos age) rows k found h listed =
    let q : ServerRecord → Bool = λ row. is_older m.now age row && is_active row.status in
    let same : by_heartbeat (keep q rows) ≡ found = ground arith in
    rw (sym same) (
      any-by_heartbeat (is_at k) (keep q rows)
      ∙ any-keep (is_at k) q rows
      ∙ none_unheard m.now age k rows (λ row. is_active row.status) h)

list_expired_unheard :
    (m : Sweep) (threshold : ℤ) (rows : Table) (k : Text) (found : Table)
    → any (λ row. is_at k row && was_heard row) rows ≡ false
    → list_expired m.expired_fault m.now threshold rows ≡ ok found
    → any (is_at k) found ≡ false
unfolding list_expired
list_expired_unheard m (negsuc n) rows k found h listed = ground arith
list_expired_unheard m (pos age) rows k found h listed =
    let q : ServerRecord → Bool =
      λ row. is_older m.now (age * 3) row && is_active_or_stale row.status in
    let same : by_heartbeat (keep q rows) ≡ found = ground arith in
    rw (sym same) (
      any-by_heartbeat (is_at k) (keep q rows)
      ∙ any-keep (is_at k) q rows
      ∙ none_unheard m.now (age * 3) k rows (λ row. is_active_or_stale row.status) h)

sweep_stale_unheard :
    (out : Outputs) (m : Sweep) (threshold : ℕ) (rows : Table) (k : Text)
    → any (λ row. is_at k row && was_heard row) rows ≡ false
    → row_at k (sweep_stale out m threshold rows).0 ≡ row_at k rows
unfolding sweep_stale
sweep_stale_unheard out m threshold rows k h =
    elim (Result-cases (list_stale m.stale_fault m.now (pos threshold) rows)) [
      | inr (e, failed) ↦ rw (sweep_stale, failed) refl
      | inl (found, listed) ↦
          rw (sweep_stale, listed)
            (mark_stale_other out m k found rows
              (list_stale_unheard m (pos threshold) rows k found h listed))
    ]

sweep_expired_unheard :
    (out : Outputs) (m : Sweep) (threshold : ℤ) (reg : Registry) (k : Text)
    → any (λ row. is_at k row && was_heard row) reg.servers ≡ false
    → row_at k (sweep_expired out m threshold reg).0.servers ≡ row_at k reg.servers
unfolding sweep_expired
sweep_expired_unheard out m threshold reg k h =
    elim (Result-cases (list_expired m.expired_fault m.now threshold reg.servers)) [
      | inr (e, failed) ↦ rw (sweep_expired, failed) refl
      | inl (found, listed) ↦
          rw (sweep_expired, listed)
            (mark_expired_other out m k found reg
              (list_expired_unheard m threshold reg.servers k found h listed))
    ]

-- The sweeps of a sweeper, one after the other.
abbrev pub sweeps : Option Config → Outputs → List Sweep → Registry → Registry
sweeps cfg out [] reg = reg
sweeps cfg out (m ∷ ms) reg = sweeps cfg out ms (sweep cfg out m reg).0

-- A server that has registered and never sent a heartbeat keeps its row, an active status included,
-- through any number of sweeps, at any times: where no row with an id has a last heartbeat, the
-- row of that id is as it was.
pub row_at-sweeps :
    (cfg : Option Config) (out : Outputs) (ms : List Sweep) (reg : Registry) (k : Text)
    → any (λ row. is_at k row && was_heard row) reg.servers ≡ false
    → row_at k (sweeps cfg out ms reg).servers ≡ row_at k reg.servers
unfolding sweep
row_at-sweeps cfg out [] reg k h = refl
row_at-sweeps cfg out (m ∷ ms) reg k h =
    let p : ServerRecord → Bool = λ row. is_at k row && was_heard row in
    let ignores : IgnoresStatus p = λ s now r. refl in
    let first : Table = (sweep_stale out m (interval cfg) reg.servers).0 in
    let next : Registry = record reg { servers = first } in
    let third : ℤ = int64 (3 * interval cfg) in
    let h1 : any p first ≡ false = any-sweep_stale p out m (interval cfg) reg.servers ignores ∙ h in
    let h2 = any-sweep_expired p out m third next ignores ∙ h1 in
    row_at-sweeps cfg out ms (sweep cfg out m reg).0 k h2
    ∙ sweep_expired_unheard out m third next k h1
    ∙ sweep_stale_unheard out m (interval cfg) reg.servers k h
