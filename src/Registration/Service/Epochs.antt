-- ===== src/Registration/Service/Epochs.antt =====
-- internal/registration/service.go: what a registration leaves in the table, the first one of a
-- SPIFFE id and the later ones.
use cruvero_mcp_gateway.Prelude.Int.{ℤ, pos, negsuc, is_pos}
use cruvero_mcp_gateway.Prelude.{
  suc, ◌^◌, ◌-◌, nat_eq, ◌≡◌, refl, inl, inr, Result-cases, arith, ◌==◌, false, none, some, [], ◌∷◌,
  ◌++◌, ok, eq_self, if◌then◌else◌,
}
use cruvero_mcp_gateway.Prelude.Texts.{Text, text_eq}
use cruvero_mcp_gateway.Types.{ServerRecord, active, unacked}
use cruvero_mcp_gateway.Registration.Config.{next_lease_epoch}
use cruvero_mcp_gateway.Registration.Store.{
  Table, first_row, has_spiffe_id, create, get_by_spiffe_id, overwritten, inserted, stored,
  query_row,
}
use cruvero_mcp_gateway.Registration.Store.Rows.{row_at, row_at-append, or_else}
use cruvero_mcp_gateway.Registration.Service.{save, Meeting}

-- What a registration writes in a row.
abbrev pub Describes : ServerRecord → ServerRecord → Type 0
Describes r x =
    (x.spiffe_id ≡ r.spiffe_id)
    × (x.name ≡ r.name)
    × (x.version ≡ r.version)
    × (x.host ≡ r.host)
    × (x.port ≡ r.port)
    × (x.capabilities ≡ r.capabilities)
    × (x.status ≡ r.status)

abbrev renewed : Meeting → ServerRecord → ServerRecord → ServerRecord
renewed m r row = record r {
  id = row.id;
  created_at = row.created_at;
  lease_epoch = next_lease_epoch row.lease_epoch;
}

-- What the statement of a re-registration makes of a row.
abbrev rewrite : Meeting → ServerRecord → ServerRecord → ServerRecord → ServerRecord
rewrite m r row = overwritten (renewed m r row) m.now

-- The epoch after an epoch: one after a negative one, and an int64 wraps.
abbrev pub epoch_after : ℤ → ℤ
epoch_after (negsuc n) = pos 1
epoch_after (pos n) = if suc n == 2 ^ 63 then negsuc (2 ^ 63 - 1) else pos (suc n)

-- What a registration leaves of a row of its SPIFFE id: id, time of creation and rate limits are
-- the old ones, the epoch is the next one, but one where that is not positive, and the
-- acknowledgement of the platform is gone.
abbrev pub IsRenewed : Meeting → ServerRecord → ServerRecord → Type 0
IsRenewed m row x =
    (x.id ≡ row.id)
    × (x.created_at ≡ row.created_at)
    × (x.rate_limit ≡ row.rate_limit)
    × (x.rate_burst ≡ row.rate_burst)
    × (x.lease_epoch
        ≡ (if is_pos (epoch_after row.lease_epoch) then epoch_after row.lease_epoch else pos 1))
    × (x.sync_state ≡ unacked)
    × (x.updated_at ≡ m.now)

Describes-inserted :
    (m : Meeting) (r : ServerRecord) → r.status ≡ active → Describes r (inserted m.db_id m.now r)
unfolding inserted stored
Describes-inserted m r h = (refl, refl, refl, refl, refl, refl, rw h refl)

-- A registration with a new SPIFFE id answers with the generated id, but the row has the id that
-- the database has chosen, which no row had; no other row has changed.
pub save-creates :
    (m : Meeting) (rows rows' : Table) (r r' : ServerRecord)
    → first_row (has_spiffe_id r.spiffe_id) rows ≡ none
    → r.status ≡ active
    → row_at m.db_id rows ≡ none
    → save m rows r ≡ ok (r', rows')
    → (r' ≡ r)
      × ((x : ServerRecord) × (row_at m.db_id rows' ≡ some x) × Describes r x)
      × ((k : Text) → (k == m.db_id) ≡ false → row_at k rows' ≡ row_at k rows)
unfolding save get_by_spiffe_id query_row create
save-creates m rows rows' r r' h is_active fresh saved =
    elim (Result-cases (create m.write_fault m.db_id m.now rows r)) [
      | inr (e, failed) ↦ ground arith
      | inl (t, written) ↦
          let same : r' ≡ r = ground arith in
          let added : rows' ≡ rows ++ inserted m.db_id m.now r ∷ [] = ground arith in
          let at : (k : Text)
              → row_at k rows'
                ≡ or_else (row_at k rows)
                    (if k == m.db_id then some (inserted m.db_id m.now r) else none) =
            λ k. rw added (row_at-append k rows (inserted m.db_id m.now r)) in
          (
            same,
            (
              inserted m.db_id m.now r,
              ground (arith, at m.db_id, eq_self m.db_id),
              Describes-inserted m r is_active,
            ),
            λ k other. ground (arith, at k),
          )
    ]
