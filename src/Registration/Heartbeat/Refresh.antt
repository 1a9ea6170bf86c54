-- ===== src/Registration/Heartbeat/Refresh.antt =====
-- internal/registration/refresh.go: what a refresh leaves in the table.
use cruvero_mcp_gateway.Prelude.{
  refl, eq_self, ◌≡◌, inl, inr, Result-cases, Option-cases, arith, ◌==◌, none, some, ok, Option,
  if◌then◌else◌, List, eq_self,
}
use cruvero_mcp_gateway.Prelude.Texts.{Text, text_eq, trim_space}
use cruvero_mcp_gateway.Types.{ServerRecord}
use cruvero_mcp_gateway.Registration.Store.{update, overwritten, stored}
use cruvero_mcp_gateway.Registration.Store.Rows.{row_at, row_at-update, map_row}
use cruvero_mcp_gateway.Registration.Service.{Outputs, Effect}
use cruvero_mcp_gateway.Registration.Heartbeat.{Registry, Moment, ToolLister, refresh_capabilities}

-- The record that a refresh writes.
abbrev pub renewed : ServerRecord → Text → List Text → ServerRecord
renewed r hash names = record r {
  capability_hash = hash;
  capabilities = record r.capabilities { tools = names };
}

pub row_at-refresh_capabilities :
    (out : Outputs) (m : Moment) (lister : Option ToolLister) (r : ServerRecord) (hash : Text)
    (reg reg' : Registry) (names : List Text) (told : List Effect) (k : Text)
    → refresh_capabilities out m lister r hash reg ≡ ok (names, reg', told)
    → row_at k reg'.servers ≡ (
        if k == r.id
        then map_row (overwritten (renewed r hash names) m.now) (row_at k reg.servers)
        else row_at k reg.servers)
unfolding refresh_capabilities
row_at-refresh_capabilities out m none r hash reg reg' names told k h = ground arith
row_at-refresh_capabilities out m (some list_tools) r hash reg reg' names told k h =
    elim (Option-cases reg.index) [
      | inl e ↦ ground arith
      | inr (i, e) ↦ elim (Result-cases (list_tools r)) [
        | inr (x, failed) ↦ ground arith
        | inl (ns, listed) ↦
            elim (Result-cases (update m.update_fault m.now reg.servers (renewed r hash ns))) [
              | inr (x, failed) ↦ ground arith
              | inl (t, written) ↦
                  let same : names ≡ ns = ground arith in
                  let kept : reg'.servers ≡ t = ground arith in
                  rw (kept, same)
                    (row_at-update m.update_fault m.now reg.servers t (renewed r hash ns) k written)
            ]
      ]
    ]

-- A refresh writes back the record that it was called with: whatever the row says by then, its
-- status and the time of its last heartbeat are again those of the record.
pub refresh_capabilities-writes_back :
    (out : Outputs) (m : Moment) (lister : Option ToolLister) (r row : ServerRecord) (hash : Text)
    (reg reg' : Registry) (names : List Text) (told : List Effect)
    → row_at r.id reg.servers ≡ some row
    → refresh_capabilities out m lister r hash reg ≡ ok (names, reg', told)
    → (x : ServerRecord) × (row_at r.id reg'.servers ≡ some x)
      × (x.status ≡ r.status)
      × (x.last_heartbeat ≡ r.last_heartbeat)
      × (x.capabilities.tools ≡ names)
      × (x.capability_hash ≡ trim_space hash)
unfolding overwritten stored
refresh_capabilities-writes_back out m lister r row hash reg reg' names told held h =
    let at = row_at-refresh_capabilities out m lister r hash reg reg' names told r.id h in
    (
      overwritten (renewed r hash names) m.now row,
      ground (arith, at, held, eq_self r.id),
      refl,
      refl,
      refl,
      refl,
    )
