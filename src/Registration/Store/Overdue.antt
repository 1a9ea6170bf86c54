-- ===== src/Registration/Store/Overdue.antt =====
-- internal/store/server_store.go: the queries for servers that have not been heard of for too long.
use cruvero_mcp_gateway.Prelude.{
  ℕ, ◌+◌, ◌*◌, Bool, true, false, ◌&&◌, [], ◌∷◌, none, some, ltb, leb, ◌==◌, nat_eq, if◌then◌else◌,
  keep, Result, ok, err,
}
use cruvero_mcp_gateway.Prelude.Int.{ℤ, pos, negsuc}
use cruvero_mcp_gateway.Types.{ServerRecord, ServerStatus, active, stale}
use cruvero_mcp_gateway.Registration.Store.{Table, StoreError, bad_threshold, Fault, with_fault}

-- last_heartbeat < now - age; NULL is not less than any time.
unfoldable pub is_older : ℕ → ℕ → ServerRecord → Bool
is_older now age row = elim row.last_heartbeat [ none ↦ false | some t ↦ ltb (t + age) now ]

abbrev pub is_active : ServerStatus → Bool
is_active active = true
is_active _ = false

abbrev pub is_active_or_stale : ServerStatus → Bool
is_active_or_stale active = true
is_active_or_stale stale = true
is_active_or_stale _ = false

-- ORDER BY last_heartbeat ASC, of rows that all have one.
unfoldable pub is_earlier : ServerRecord → ServerRecord → Bool
is_earlier r s = elim r.last_heartbeat [
  | none ↦ false
  | some t ↦ elim s.last_heartbeat [ none ↦ true | some u ↦ leb t u ]
]

unfoldable pub insert_by_heartbeat : ServerRecord → Table → Table
unfolding is_earlier
insert_by_heartbeat r [] = r ∷ []
insert_by_heartbeat r (row ∷ rows) =
    if is_earlier r row then r ∷ row ∷ rows else row ∷ insert_by_heartbeat r rows

unfoldable pub by_heartbeat : Table → Table
unfolding insert_by_heartbeat
by_heartbeat [] = []
by_heartbeat (row ∷ rows) = insert_by_heartbeat row (by_heartbeat rows)

unfoldable pub list_stale : Fault → ℕ → ℤ → Table → Result StoreError Table
unfolding by_heartbeat is_older keep
list_stale f now (negsuc n) rows = err bad_threshold
list_stale f now (pos age) rows =
    if age == 0
    then err bad_threshold
    else with_fault f
        (ok (by_heartbeat (keep (λ row. is_older now age row && is_active row.status) rows)))

unfoldable pub list_expired : Fault → ℕ → ℤ → Table → Result StoreError Table
unfolding by_heartbeat is_older keep
list_expired f now (negsuc n) rows = err bad_threshold
list_expired f now (pos age) rows =
    if age == 0
    then err bad_threshold
    else with_fault f (
        ok (
          by_heartbeat
            (keep (λ row. is_older now (age * 3) row && is_active_or_stale row.status) rows)))
