-- ===== src/Registration/Store.antt =====
-- internal/store/server_store.go: the table of servers and the statements on it. A statement sees
-- the table as a list of rows; the id and the times that the database fills in are arguments, and
-- so is the fault that package database/sql returns, where there is one (a lost connection, an id
-- that is not a UUID). The schema, migrations/0001_mcp_servers.up.sql, lets no two rows have the
-- same SPIFFE id.
pub mod Overdue
pub mod Rows
use cruvero_mcp_gateway.Prelude.{
  ℕ, ◌+◌, ◌*◌, Bool, true, false, not, ◌&&◌, ◌||◌, List, [], ◌∷◌, ◌++◌, Option, none, some, ltb,
  leb, ◌==◌, nat_eq, if◌then◌else◌, is_empty, any, keep, map, Result, ok, err, ◌>>=◌,
}
use cruvero_mcp_gateway.Prelude.Int.{ℤ, pos, negsuc, is_pos}
use cruvero_mcp_gateway.Prelude.Texts.{Text, text_eq, codes, trim_space, to_lower}
use cruvero_mcp_gateway.Types.{
  ServerRecord, ServerStatus, pending, active, stale, other_status, SyncState, unacked, acked,
  stale_ack, other_sync,
}

abbrev pub Table : Type 0
Table = List ServerRecord

pub data StoreError : Type 0 where
  no_rows spiffe_id_taken bad_threshold : StoreError
  fault : Text → StoreError

-- What package database/sql returns for a statement, where it does not run it.
abbrev pub Fault : Type 0
Fault = Option Text

abbrev pub with_fault {ℓ} : {A : Type ℓ} → Fault → Result StoreError A → Result StoreError A
with_fault none r = r
with_fault (some e) r = err (fault e)

abbrev pub or_text : Text → Text → Text
or_text s fallback = if is_empty s then fallback else s

-- max(value, 1)
unfoldable pub at_least_one : ℤ → ℤ
at_least_one z = if is_pos z then z else pos 1

unfoldable pub normalized_sync_state : SyncState → SyncState
normalized_sync_state acked = acked
normalized_sync_state stale_ack = stale_ack
normalized_sync_state _ = unacked

-- A column's text, as it is read.
unfoldable pub parse_sync_state : SyncState → SyncState
parse_sync_state (other_sync raw) =
    let name = to_lower (trim_space raw) in
    if name == codes "acked" then acked else if name == codes "stale" then stale_ack else unacked
parse_sync_state s = s

unfoldable pub routing_strategy_or_default : Text → Text
routing_strategy_or_default s = or_text (trim_space s) (codes "round_robin")

-- What both statements that write a whole record store of it.
unfoldable pub stored : ServerRecord → ServerRecord
unfolding at_least_one normalized_sync_state routing_strategy_or_default
stored r = record r {
  protocol = or_text (trim_space r.protocol) (codes "https");
  lease_epoch = at_least_one r.lease_epoch;
  capability_hash = trim_space r.capability_hash;
  sync_state = normalized_sync_state r.sync_state;
  last_platform_ack_version = trim_space r.last_platform_ack_version;
  routing_strategy = routing_strategy_or_default r.routing_strategy;
}

abbrev pub status_or_pending : ServerStatus → ServerStatus
status_or_pending (other_status []) = pending
status_or_pending s = s

-- The row of an INSERT: id, rate limits and times are the database's.
unfoldable pub inserted : Text → ℕ → ServerRecord → ServerRecord
unfolding stored
inserted id now r = record (stored r) {
  id = id;
  status = status_or_pending r.status;
  policy_profile = or_text r.policy_profile (codes "default");
  rate_limit = none;
  rate_burst = none;
  created_at = now;
  updated_at = now;
}

unfoldable pub has_spiffe_id : Text → ServerRecord → Bool
has_spiffe_id spiffe_id row = row.spiffe_id == spiffe_id

unfoldable pub create : Fault → Text → ℕ → Table → ServerRecord → Result StoreError Table
unfolding inserted has_spiffe_id any
create f id now rows r = with_fault f (
    if any (has_spiffe_id r.spiffe_id) rows
    then err spiffe_id_taken
    else ok (rows ++ inserted id now r ∷ []))

unfoldable pub first_row : (ServerRecord → Bool) → Table → Option ServerRecord
first_row p [] = none
first_row p (row ∷ rows) = if p row then some row else first_row p rows

-- `scanServerRecord` of the first row that fits, sql.ErrNoRows for none.
unfoldable pub query_row : Fault → (ServerRecord → Bool) → Table → Result StoreError ServerRecord
unfolding first_row parse_sync_state
query_row f p rows = with_fault f (elim (first_row p rows) [
  | none ↦ err no_rows
  | some row ↦ ok (record row { sync_state = parse_sync_state row.sync_state })
])

unfoldable pub get : Fault → Text → Table → Result StoreError ServerRecord
unfolding query_row
get f id rows = query_row f (λ row. row.id == id) rows

unfoldable pub get_by_name : Fault → Text → Table → Result StoreError ServerRecord
unfolding query_row
get_by_name f name rows = query_row f (λ row. row.name == name) rows

unfoldable pub get_by_spiffe_id : Fault → Text → Table → Result StoreError ServerRecord
unfolding query_row
get_by_spiffe_id f spiffe_id rows = query_row f (has_spiffe_id spiffe_id) rows

-- An UPDATE of the rows with an id.
unfoldable pub set_rows : Text → (ServerRecord → ServerRecord) → Table → Table
set_rows id f [] = []
set_rows id f (row ∷ rows) = (if row.id == id then f row else row) ∷ set_rows id f rows

-- What an UPDATE of a whole record leaves of a row: the rate limits and the time it was created.
unfoldable pub overwritten : ServerRecord → ℕ → ServerRecord → ServerRecord
unfolding stored
overwritten r now row = record (stored r) {
  rate_limit = row.rate_limit;
  rate_burst = row.rate_burst;
  created_at = row.created_at;
  updated_at = now;
}

unfoldable pub update : Fault → ℕ → Table → ServerRecord → Result StoreError Table
unfolding set_rows overwritten has_spiffe_id any
update f now rows r = with_fault f (
    if any (λ row. row.id == r.id) rows
      && any (λ row. not (row.id == r.id) && has_spiffe_id r.spiffe_id row) rows
    then err spiffe_id_taken
    else ok (set_rows r.id (overwritten r now) rows))

unfoldable pub update_status : Fault → ℕ → Text → ServerStatus → Table → Result StoreError Table
unfolding set_rows
update_status f now id status rows =
    with_fault f (ok (set_rows id (λ row. record row { status = status; updated_at = now }) rows))

unfoldable pub update_heartbeat : Fault → ℕ → Text → Table → Result StoreError Table
unfolding set_rows
update_heartbeat f now id rows =
    with_fault f
      (ok (set_rows id (λ row. record row { last_heartbeat = some now; updated_at = now }) rows))

unfoldable pub update_rate_limit :
    Fault → ℕ → Text → Option ℤ → Option ℤ → Table → Result StoreError Table
unfolding set_rows
update_rate_limit f now id limit burst rows = with_fault f (
    ok (
      set_rows id (λ row. record row { rate_limit = limit; rate_burst = burst; updated_at = now })
        rows))

abbrev pub same_epoch : ℤ → ℤ → Bool
same_epoch (pos m) (pos n) = m == n
same_epoch (negsuc m) (negsuc n) = m == n
same_epoch _ _ = false

-- The WHERE of an acknowledgement.
unfoldable pub is_acked_by : Text → ℤ → Text → ServerRecord → Bool
is_acked_by id epoch hash row =
    row.id == id
    && same_epoch row.lease_epoch epoch
    && (is_empty hash || row.capability_hash == hash)

unfoldable pub acknowledge_rows : Text → ℤ → Text → (ServerRecord → ServerRecord) → Table → Table
acknowledge_rows id epoch hash f [] = []
acknowledge_rows id epoch hash f (row ∷ rows) =
    (if is_acked_by id epoch hash row then f row else row) ∷ acknowledge_rows id epoch hash f rows

unfoldable pub acknowledge_registration :
    Fault → ℕ → Text → ℤ → Text → Text → ℕ → Table → Result StoreError Table
unfolding acknowledge_rows is_acked_by any
acknowledge_registration f now id epoch hash version acked_at rows = with_fault f (
    if any (is_acked_by (trim_space id) epoch (trim_space hash)) rows
    then ok (
        acknowledge_rows (trim_space id) epoch (trim_space hash)
          (λ row. record row {
            sync_state = acked;
            last_platform_ack_version = trim_space version;
            last_platform_ack_at = some acked_at;
            updated_at = now;
          })
          rows)
    else err no_rows)

unfoldable pub delete : Fault → Text → Table → Result StoreError Table
unfolding keep
delete f id rows = with_fault f (ok (keep (λ row. not (row.id == id)) rows))
