-- ===== src/Registration/Subscriber/Replicas.antt =====
-- internal/registration/subscriber.go: the index of a gateway that hears of a registration.
use cruvero_mcp_gateway.Prelude.{
  ◌≡◌, ◌&&◌, ap, arith, ◌==◌, Bool, true, false, ◌||◌, none, some, ok, if◌then◌else◌, is_empty,
}
use cruvero_mcp_gateway.Prelude.Texts.{Text, text_eq, codes, trim_space, trim_space_idem}
use cruvero_mcp_gateway.Types.{ServerRecord}
use cruvero_mcp_gateway.Registration.Index.{CapabilityIndex, refresh_server}
use cruvero_mcp_gateway.Registration.Index.Entries.{Distinct}
use cruvero_mcp_gateway.Registration.Index.Content.{offered, refreshed, offered-refresh_server}
use cruvero_mcp_gateway.Registration.Store.{Fault, Table, StoreError, get, query_row}
use cruvero_mcp_gateway.Registration.Store.Rows.{row_at, row_at_id, read_row, row_at-first_row}
use cruvero_mcp_gateway.Registration.Heartbeat.{reindexed}
use cruvero_mcp_gateway.Registration.Subscriber.{RegistrationEvent, handle}

-- The broadcasts after which a gateway reads the table again.
abbrev pub is_refresh : RegistrationEvent → Bool
is_refresh e = e.event_type == codes "registered" || e.event_type == codes "status_changed"

refreshed_index :
    (id : Text) (rows : Table) (row : ServerRecord) (i : CapabilityIndex)
    → is_empty (trim_space id) ≡ false
    → row_at id rows ≡ some row
    → refresh_server {E = StoreError} i id (ok (some (read_row row)))
      ≡ ok (reindexed none id rows i)
unfolding reindexed refresh_server get query_row
refreshed_index id rows row i named held = ground (arith, row_at-first_row id rows)

abbrev pub is_none : Fault → Bool
is_none none = true
is_none (some error) = false

reindexed_failed :
    (error : Text) (rows : Table) (e : RegistrationEvent) (i : CapabilityIndex)
    → reindexed (some error) (trim_space e.server_id) rows i ≡ i
unfolding reindexed refresh_server get query_row
reindexed_failed error rows e i = ground arith

-- After a broadcast that a server has registered or changed its status, for which the table has a
-- row, an index where no tool has two entries lists that server under the tools that the row
-- offers, with the row, whatever it held of it before, and every other server as before; where the
-- read of the table fails, it lists every server as before.
pub offered-handle :
    (f : Fault) (rows : Table) (i : CapabilityIndex) (e : RegistrationEvent) (row : ServerRecord)
    (name id : Text)
    → Distinct i.tools
    → is_refresh e ≡ true
    → is_empty (trim_space e.server_id) ≡ false
    → row_at (trim_space e.server_id) rows ≡ some row
    → offered (handle f rows i (some e)) name id ≡ (
        if is_none f && trim_space e.server_id == id
        then refreshed (some (read_row row)) name
        else offered i name id)
unfolding handle
offered-handle (some error) rows i e row name id distinct heard named held =
    rw (handle, named, heard) (ap (λ j. offered j name id) (reindexed_failed error rows e i))
offered-handle none rows i e row name id distinct heard named held =
    rw (handle, named, heard)
      (offered-refresh_server i (reindexed none (trim_space e.server_id) rows i)
        (trim_space e.server_id) name id (some (read_row row)) distinct
        (row_at_id (trim_space e.server_id) rows row held)
        (refreshed_index (trim_space e.server_id) rows row i
          (rw (trim_space_idem e.server_id) named) held))
