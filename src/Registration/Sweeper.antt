-- ===== src/Registration/Sweeper.antt =====
-- internal/registration/sweeper.go: the sweeps that mark servers stale and expired. The ticker and
-- its goroutine are left out: a run of the sweeper is a sequence of sweeps.
pub mod Marks
pub mod Silent
pub mod Statuses
use cruvero_mcp_gateway.Prelude.{
  ltb, ◌^◌, ◌%◌, ◌-◌, ℕ, suc, ◌*◌, List, [], ◌∷◌, ◌++◌, Option, none, some, if◌then◌else◌, ok, err,
}
use cruvero_mcp_gateway.Prelude.Int.{negsuc, pos, is_pos, to_nat, ℤ}
use cruvero_mcp_gateway.Prelude.Texts.{Text}
use cruvero_mcp_gateway.Types.{ServerRecord}
use cruvero_mcp_gateway.Registration.Config.{Config}
use cruvero_mcp_gateway.Registration.State.{Event, heartbeat_missed, expiry, transition}
use cruvero_mcp_gateway.Registration.Index.{CapabilityIndex, remove}
use cruvero_mcp_gateway.Registration.Store.{Table, Fault, update_status}
use cruvero_mcp_gateway.Registration.Store.Overdue.{list_stale, list_expired}
use cruvero_mcp_gateway.Registration.Service.{Outputs, Effect, health_changed, when}
use cruvero_mcp_gateway.Registration.Heartbeat.{Registry}

-- The clock and the faults of one sweep; an update may fail for some servers.
pub record Sweep : Type 0 where
  pub now : ℕ
  pub stale_fault : Fault
  pub expired_fault : Fault
  pub status_fault : Text → Fault

-- An int64 of a number, which wraps.
unfoldable pub int64 : ℕ → ℤ
int64 n = let m = n % 2 ^ 64 in if ltb m (2 ^ 63) then pos m else negsuc (2 ^ 64 - 1 - m)

-- In nanoseconds.
unfoldable pub interval : Option Config → ℕ
interval none = 30_000_000_000
interval (some cfg) = if is_pos cfg.heartbeat_ttl then to_nat cfg.heartbeat_ttl else 30_000_000_000

-- The table after the update, and what is told; an error is only logged.
unfoldable pub transition_server :
    Outputs → Sweep → Event → ServerRecord → Table → Option (Table × List Effect)
unfolding transition update_status
transition_server out m e r rows = elim (transition r.status e) [
  | err x ↦ none
  | ok next ↦ elim (update_status (m.status_fault r.id) m.now r.id next rows) [
    | err x ↦ none
    | ok rows' ↦ some (rows', when out.has_publisher (health_changed r next))
  ]
]

-- The loop of `sweepStale`: the table, the count and what is told.
unfoldable pub mark_stale : Outputs → Sweep → List ServerRecord → Table → Table × ℕ × List Effect
unfolding transition_server
mark_stale out m [] rows = (rows, 0, [])
mark_stale out m (r ∷ rs) rows = elim (transition_server out m heartbeat_missed r rows) [
  | none ↦ mark_stale out m rs rows
  | some (rows', told) ↦
      let (final, count, more) = mark_stale out m rs rows' in (final, suc count, told ++ more)
]

unfoldable pub remove_from : Text → Option CapabilityIndex → Option CapabilityIndex
unfolding remove
remove_from id none = none
remove_from id (some i) = some (remove i id)

-- The loop of `sweepExpired`.
unfoldable pub mark_expired :
    Outputs → Sweep → List ServerRecord → Registry → Registry × ℕ × List Effect
unfolding transition_server remove_from
mark_expired out m [] reg = (reg, 0, [])
mark_expired out m (r ∷ rs) reg = elim (transition_server out m expiry r reg.servers) [
  | none ↦ mark_expired out m rs reg
  | some (rows, told) ↦
      let (final, count, more) =
        mark_expired out m rs (record { servers = rows; index = remove_from r.id reg.index }) in
      (final, suc count, told ++ more)
]

unfoldable pub sweep_stale : Outputs → Sweep → ℕ → Table → Table × ℕ × List Effect
unfolding list_stale mark_stale
sweep_stale out m threshold rows = elim (list_stale m.stale_fault m.now (pos threshold) rows) [
  | err e ↦ (rows, 0, [])
  | ok found ↦ mark_stale out m found rows
]

unfoldable pub sweep_expired : Outputs → Sweep → ℤ → Registry → Registry × ℕ × List Effect
unfolding list_expired mark_expired
sweep_expired out m threshold reg =
    elim (list_expired m.expired_fault m.now threshold reg.servers) [
      | err e ↦ (reg, 0, [])
      | ok found ↦ mark_expired out m found reg
    ]

unfoldable pub sweep : Option Config → Outputs → Sweep → Registry → Registry × List Effect
unfolding interval int64 sweep_stale sweep_expired
sweep cfg out m reg =
    let (rows, stale_count, told) = sweep_stale out m (interval cfg) reg.servers in
    let (final, expired_count, more) =
      sweep_expired out m (int64 (3 * interval cfg)) (record reg { servers = rows }) in
    (final, told ++ more)
