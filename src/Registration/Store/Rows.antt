-- ===== src/Registration/Store/Rows.antt =====
-- internal/store/server_store.go: the table as a map from ids to rows, and what each statement does
-- to it.
use cruvero_mcp_gateway.Prelude.{
  ◌≡◌, refl, not, [], ◌∷◌, ◌++◌, Option, none, some, ◌==◌, if◌then◌else◌, keep, arith, eq_iff, ok,
  Option-cases, inl, inr, ℕ,
}
use cruvero_mcp_gateway.Prelude.Texts.{Text, text_eq}
use cruvero_mcp_gateway.Types.{ServerRecord, ServerStatus}
use cruvero_mcp_gateway.Registration.Store.{
  Table, first_row, set_rows, get, parse_sync_state, query_row, Fault, update, update_status,
  update_heartbeat, overwritten, stored,
}

-- The row with an id.
unfoldable pub row_at : Text → Table → Option ServerRecord
row_at k [] = none
row_at k (row ∷ rows) = if row.id == k then some row else row_at k rows

pub row_at-first_row :
    (k : Text) (rows : Table) → first_row (λ row. row.id == k) rows ≡ row_at k rows
unfolding first_row row_at
row_at-first_row k [] = refl
row_at-first_row k (row ∷ rows) = ground (arith, row_at-first_row k rows)

-- A row of the map has the id it is found under.
pub row_at_id : (k : Text) (rows : Table) (r : ServerRecord) → row_at k rows ≡ some r → r.id ≡ k
unfolding row_at
row_at_id k [] r h = ground arith
row_at_id k (row ∷ rows) r h = ground (arith, eq_iff row.id k, row_at_id k rows r)

abbrev pub map_row : (ServerRecord → ServerRecord) → Option ServerRecord → Option ServerRecord
map_row f none = none
map_row f (some r) = some (f r)

-- The rows with an id keep it.
abbrev pub KeepsId : Text → (ServerRecord → ServerRecord) → Type 0
KeepsId id f = (r : ServerRecord) → r.id ≡ id → (f r).id ≡ id

pub row_at-set_rows :
    (id k : Text) (f : ServerRecord → ServerRecord) (rows : Table)
    → KeepsId id f
    → row_at k (set_rows id f rows) ≡ (if k == id then map_row f (row_at k rows) else row_at k rows)
unfolding row_at set_rows
row_at-set_rows id k f [] h = ground arith
row_at-set_rows id k f (row ∷ rows) h =
    ground
      (arith, row_at-set_rows id k f rows h, h row, eq_iff row.id id, eq_iff row.id k, eq_iff k id)

pub row_at-keep :
    (id k : Text) (rows : Table)
    → row_at k (keep (λ row. not (row.id == id)) rows) ≡ (if k == id then none else row_at k rows)
unfolding row_at keep
row_at-keep id k [] = ground arith
row_at-keep id k (row ∷ rows) =
    ground (arith, row_at-keep id k rows, eq_iff row.id id, eq_iff row.id k, eq_iff k id)

abbrev pub or_else : Option ServerRecord → Option ServerRecord → Option ServerRecord
or_else none o = o
or_else (some r) o = some r

pub row_at-append :
    (k : Text) (rows : Table) (r : ServerRecord)
    → row_at k (rows ++ r ∷ []) ≡ or_else (row_at k rows) (if k == r.id then some r else none)
unfolding row_at
row_at-append k [] r = ground (arith, eq_iff r.id k, eq_iff k r.id)
row_at-append k (row ∷ rows) r = ground (arith, row_at-append k rows r)

-- A row as it is read.
abbrev pub read_row : ServerRecord → ServerRecord
read_row row = record row { sync_state = parse_sync_state row.sync_state }

-- What `Get` finds is the row of the map.
pub get_row :
    (f : Fault) (id : Text) (rows : Table) (r : ServerRecord)
    → get f id rows ≡ ok r
    → (row : ServerRecord) × (row_at id rows ≡ some row) × (r ≡ read_row row)
unfolding get query_row
get_row (some e) id rows r h = ground arith
get_row none id rows r h = elim (Option-cases (row_at id rows)) [
  | inl e ↦ ground (arith, row_at-first_row id rows)
  | inr (row, e) ↦ (row, e, ground (arith, row_at-first_row id rows))
]

-- The statements, where they succeed.
pub row_at-update :
    (f : Fault) (now : ℕ) (rows t : Table) (r : ServerRecord) (k : Text)
    → update f now rows r ≡ ok t
    → row_at k t
      ≡ (if k == r.id then map_row (overwritten r now) (row_at k rows) else row_at k rows)
unfolding update overwritten stored
row_at-update f now rows t r k h =
    let same : t ≡ set_rows r.id (overwritten r now) rows = ground arith in
    rw same (row_at-set_rows r.id k (overwritten r now) rows (λ x _. refl))

pub row_at-update_status :
    (f : Fault) (now : ℕ) (id : Text) (s : ServerStatus) (rows t : Table) (k : Text)
    → update_status f now id s rows ≡ ok t
    → row_at k t ≡ (
        if k == id
        then map_row (λ row. record row { status = s; updated_at = now }) (row_at k rows)
        else row_at k rows)
unfolding update_status
row_at-update_status f now id s rows t k h =
    let same : t ≡ set_rows id (λ row. record row { status = s; updated_at = now }) rows =
      ground arith in
    rw same (row_at-set_rows id k _ rows (λ x e. e))

pub row_at-update_heartbeat :
    (f : Fault) (now : ℕ) (id : Text) (rows t : Table) (k : Text)
    → update_heartbeat f now id rows ≡ ok t
    → row_at k t ≡ (
        if k == id
        then map_row
            (λ row. record row { last_heartbeat = some now; updated_at = now })
            (row_at k rows)
        else row_at k rows)
unfolding update_heartbeat
row_at-update_heartbeat f now id rows t k h =
    let same : t
        ≡ set_rows id (λ row. record row { last_heartbeat = some now; updated_at = now }) rows =
      ground arith in
    rw same (row_at-set_rows id k _ rows (λ x e. e))
